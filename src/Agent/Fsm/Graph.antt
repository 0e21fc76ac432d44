-- ===== src/Agent/Fsm/Graph.antt =====
-- The state graph of internal/agent/fsm.go as a relation, and the traces that the machine can have.
use mathlib.Core.Path.{subst⁻¹}
use edge_fleet_operator_demo.Base.{
  ◌≡◌, ◌↔◌, ◌⊎◌, inl, inr, refl, ap, Option-cases, if◌then◌else◌, Bool, true, Option, none, some,
  List, [], ◌∷◌, arith,
}
use edge_fleet_operator_demo.Agent.Fsm.{
  State, idle, downloading, verifying, flashing, confirming, failed, Fsm, new, TransitionError,
  illegal, enter, to,
}

infix 40 ◌⟶◌
pub data ◌⟶◌ : State → State → Type 0 where
  start : idle ⟶ downloading
  restart : failed ⟶ downloading
  downloaded : downloading ⟶ verifying
  verified : verifying ⟶ flashing
  flashed : flashing ⟶ confirming
  confirmed : confirming ⟶ idle
  download_fails : downloading ⟶ failed
  verify_fails : verifying ⟶ failed
  flash_fails : flashing ⟶ failed
  confirm_fails : confirming ⟶ failed

ruleset edges = (
  start, restart, downloaded, verified, flashed, confirmed, download_fails, verify_fails,
  flash_fails, confirm_fails,
)

-- A move that is accepted follows an edge of the graph, and enters the state that was asked for.
to-⟶ : (next : State) (f : Fsm) → (to next f).0 ≡ none → f.state ⟶ next
unfolding to
to-⟶ next f h = grind (arith, edges)

pub ⟶-to : {s next : State} (f : Fsm) → f.state ≡ s → s ⟶ next → to next f ≡ (none, enter next f)
unfolding to
⟶-to f e start = ground arith
⟶-to f e _ = ground arith

to_refused :
    (next : State) (f : Fsm) {e : TransitionError}
    → (to next f).0 ≡ some e
    → to next f ≡ (some (illegal f.state next), f)
unfolding to
to_refused next f h = ground arith

-- `To` accepts a state exactly when the graph has an edge to it. It then enters that state and
-- calls the hook once if there is one; when it refuses, its error names both states and the
-- machine is unchanged.
pub to_accepts :
    (next : State) (f : Fsm)
    → (((to next f).0 ≡ none) ↔ (f.state ⟶ next))
      × ((to next f ≡ (none, enter next f)) ⊎ (to next f ≡ (some (illegal f.state next), f)))
to_accepts next f = (
  (λ h. to-⟶ next f h, λ edge. ap (λ r. r.0) (⟶-to f refl edge)),
  elim (Option-cases (to next f).0) [
    | inl e ↦ inl (⟶-to f refl (to-⟶ next f e))
    | inr (error, e) ↦ inr (to_refused next f e)
  ],
)

-- The machine after any calls of `To`, whose errors are dropped.
pub to_all : List State → Fsm → Fsm
to_all [] f = f
to_all (next ∷ later) f = to_all later (to next f).1

-- A log, the last move first, that leads from `idle` to a state along the graph.
abbrev pub LeadsTo : State → List (State × State) → Type 0
LeadsTo s [] = s ≡ idle
LeadsTo s ((a, b) ∷ log) = (s ≡ b) × (a ⟶ b) × LeadsTo a log

to_all-LeadsTo :
    (calls : List State) (f : Fsm)
    → f.hooked ≡ true
    → LeadsTo f.state f.log
    → LeadsTo (to_all calls f).state (to_all calls f).log
unfolding to_all
to_all-LeadsTo [] f hook h = h
to_all-LeadsTo (next ∷ later) f hook h =
    let Led : Option TransitionError × Fsm → Type 0 =
      λ r. LeadsTo (to_all later r.1).state (to_all later r.1).log in
    elim (Option-cases (to next f).0) [
      | inl e ↦
          let edge = to-⟶ next f e in
          subst⁻¹ Led (⟶-to f refl edge) (
            to_all-LeadsTo later (enter next f) hook (
              subst⁻¹ (λ (b : Bool). LeadsTo next (if b then (f.state, next) ∷ f.log else f.log))
                hook (refl, edge, h)))
      | inr (error, e) ↦ subst⁻¹ Led (to_refused next f e) (to_all-LeadsTo later f hook h)
    ]

into_confirming : {a b : State} → a ⟶ b → b ≡ confirming → a ≡ flashing
into_confirming flashed e = refl
into_confirming _ e = cc

into_flashing : {a b : State} → a ⟶ b → b ≡ flashing → a ≡ verifying
into_flashing verified e = refl
into_flashing _ e = cc

into_verifying : {a b : State} → a ⟶ b → b ≡ verifying → a ≡ downloading
into_verifying downloaded e = refl
into_verifying _ e = cc

-- The last four moves of a machine that confirms.
abbrev pub Checked : List (State × State) → Type 0
Checked log =
    (from : State) × (earlier : List (State × State)) × (log
      ≡ (flashing, confirming)
        ∷ (verifying, flashing)
        ∷ (downloading, verifying)
        ∷ (from, downloading)
        ∷ earlier)

LeadsTo-Checked :
    (s : State) (log : List (State × State)) → s ≡ confirming → LeadsTo s log → Checked log
LeadsTo-Checked s [] e h = absurd (cc)
LeadsTo-Checked s ((a, b) ∷ []) e (p, edge, q) = absurd (cc (into_confirming edge (cc)))
LeadsTo-Checked s ((a, b) ∷ (a2, b2) ∷ []) e (p, edge, (p2, edge2, q)) =
    let from_flashing = into_confirming edge (cc) in
    let from_verifying = into_flashing edge2 (cc) in absurd (cc)
LeadsTo-Checked s ((a, b) ∷ (a2, b2) ∷ (a3, b3) ∷ []) e (p, edge, (p2, edge2, (p3, edge3, q))) =
    let from_flashing = into_confirming edge (cc) in
    let from_verifying = into_flashing edge2 (cc) in
    let from_downloading = into_verifying edge3 (cc) in absurd (cc)
LeadsTo-Checked s ((a, b) ∷ (a2, b2) ∷ (a3, b3) ∷ (a4, b4) ∷ earlier) e
      (p, edge, (p2, edge2, (p3, edge3, (p4, edge4, q)))) =
    let from_flashing = into_confirming edge (cc) in
    let from_verifying = into_flashing edge2 (cc) in
    let from_downloading = into_verifying edge3 (cc) in (a4, earlier, cc)

-- A machine with a hook, driven by any calls of `To` from `idle`, has logged a walk along the graph
-- that ends in its state; and one that is in `confirming` has just come through `downloading`,
-- `verifying` and `flashing`, in this order and with nothing between.
pub trace-Checked :
    (calls : List State)
    → let f = to_all calls (new true) in
      LeadsTo f.state f.log × (f.state ≡ confirming → Checked f.log)
trace-Checked calls =
    let walk = to_all-LeadsTo calls (new true) refl refl in (walk, λ e. LeadsTo-Checked _ _ e walk)
