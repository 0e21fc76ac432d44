-- ===== src/Agent/Fsm.antt =====
-- internal/agent/fsm.go: the table-driven state machine of an upgrade.
pub mod Graph
use edge_fleet_operator_demo.Base.{
  Bool, true, false, Option, none, some, List, [], ◌∷◌, ◌++◌, if◌then◌else◌,
}

pub data State : Type 0 where
  idle downloading verifying flashing confirming failed : State

abbrev pub valid_transitions : State → List State
valid_transitions idle = downloading ∷ []
valid_transitions downloading = verifying ∷ failed ∷ []
valid_transitions verifying = flashing ∷ failed ∷ []
valid_transitions flashing = confirming ∷ failed ∷ []
valid_transitions confirming = idle ∷ failed ∷ []
valid_transitions failed = downloading ∷ []

-- `==` on states.
pub state_eq : State → State → Bool
state_eq idle idle = true
state_eq downloading downloading = true
state_eq verifying verifying = true
state_eq flashing flashing = true
state_eq confirming confirming = true
state_eq failed failed = true
state_eq _ _ = false

-- The machine with the calls of its hook, the last one first. `hooked` is false for a nil hook.
pub record Fsm : Type 0 where
  pub state : State
  pub hooked : Bool
  pub log : List (State × State)

-- NewFSM
abbrev pub new : Bool → Fsm
new hooked = record { state = idle; hooked = hooked; log = [] }

-- The error `illegal state transition from -> to`.
pub data TransitionError : Type 0 where
  illegal : State → State → TransitionError

abbrev pub enter : State → Fsm → Fsm
enter next f = record f { state = next; log = if f.hooked then (f.state, next) ∷ f.log else f.log }

-- The loop over the allowed states.
to_loop : List State → State → Fsm → Option TransitionError × Fsm
unfolding state_eq
to_loop [] next f = (some (illegal f.state next), f)
to_loop (allowed ∷ others) next f =
    if state_eq next allowed then (none, enter next f) else to_loop others next f

-- FSM.To
unfoldable pub to : State → Fsm → Option TransitionError × Fsm
unfolding to_loop
to next f = to_loop (valid_transitions f.state) next f
