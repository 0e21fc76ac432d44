-- ===== src/Rollout/Written.antt =====
-- The status that a pass of internal/controller/fleetrollout_controller.go leaves on the server.
use edge_fleet_operator_demo.Base.{
  ℕ, ◌+◌, ◌≤◌, ◌<◌, ◌≡◌, refl, inl, inr, Bool, Bool-cases, true, false, not, count_if, Option, none,
  List, [], ◌∷◌, length, arith,
}
use edge_fleet_operator_demo.Base.Words.{i32_half}
use edge_fleet_operator_demo.Api.{
  EdgeDevice, FleetRollout, FleetRolloutSpec, FleetRolloutStatus, RolloutPhase, rollout_phase_eq,
}
use edge_fleet_operator_demo.Api.Client.{ApiError, done, Client}
use edge_fleet_operator_demo.Api.Recording.{Write, rollout_status, Call, Recorded, recording}
use edge_fleet_operator_demo.Api.Machinery.{Machinery}
use edge_fleet_operator_demo.Rollout.Fleet.{Progress, advance, target, pause, rollout_status_equal}
use edge_fleet_operator_demo.Rollout.{freeze, push, write_status}

abbrev status_of : Write → Option ApiError → FleetRolloutStatus → FleetRolloutStatus
status_of (rollout_status r) none st = r.status
status_of _ _ st = st

-- The status that is stored after the calls: of the last report that was accepted.
abbrev pub status_after : FleetRolloutStatus → List Call → FleetRolloutStatus
status_after st [] = st
status_after st (c ∷ cs) = status_of c.write c.answer (status_after st cs)

-- A write that gives the target to a device, and was accepted: it leaves the device unpaused, where
-- the other write to a device pauses it.
abbrev gives : Write → Option ApiError → Bool
gives (Write.device d) none = not d.spec.rollout_paused
gives _ _ = false

abbrev is_giving : Call → Bool
is_giving c = gives c.write c.answer

-- How many devices were given the target.
abbrev pub given_in : List Call → ℕ
given_in calls = count_if is_giving calls

-- A stored status against the one that a pass computed: all that the comparison looks at.
pub record Agrees (st new : FleetRolloutStatus) : Type 0 where
  pub phase : st.phase ≡ new.phase
  pub selected : st.selected ≡ new.selected
  pub targeted : st.targeted ≡ new.targeted
  pub succeeded : st.succeeded ≡ new.succeeded
  pub failed : st.failed ≡ new.failed
  pub observed_generation : st.observed_generation ≡ new.observed_generation

rollout_phase_eq_sound : (a b : RolloutPhase) → rollout_phase_eq a b ≡ true → a ≡ b
unfolding rollout_phase_eq
rollout_phase_eq_sound a b h = ground arith

rollout_status_equal-Agrees :
    (M : Machinery) (a b : FleetRolloutStatus) → rollout_status_equal M a b ≡ true → Agrees a b
unfolding rollout_status_equal
rollout_status_equal-Agrees M a b h = ground (arith, rollout_phase_eq_sound a.phase b.phase)

module _ (M : Machinery) (C : Client) where
  pub write_status-Agrees :
      (ro : FleetRollout) (new : FleetRolloutStatus) (s : Recorded C.World) {after : ℕ}
      → status_after ro.status s.calls ≡ ro.status
      → (write_status M (recording C) ro new s).0 ≡ done after
      → Agrees (status_after ro.status (write_status M (recording C) ro new s).1.calls) new
  unfolding write_status
  write_status-Agrees ro new s old h = ground (arith, rollout_status_equal-Agrees M ro.status new)

  -- A write of the status gives no device the target.
  pub given-write_status :
      (ro : FleetRollout) (new : FleetRolloutStatus) (s : Recorded C.World)
      → given_in (write_status M (recording C) ro new s).1.calls ≡ given_in s.calls
  unfolding write_status
  given-write_status ro new s = elim (Bool-cases (rollout_status_equal M ro.status new)) [
    | inl same ↦ rw (write_status, same) refl
    | inr drift ↦ rw (write_status, drift) (omega arith)
  ]

-- Pausing gives no device the target.
pub given-freeze :
    (C : Client) (devs : List EdgeDevice) (s : Recorded C.World)
    → given_in (freeze (recording C) devs s).1.calls ≡ given_in s.calls
unfolding freeze
given-freeze C [] s = refl
given-freeze C (d ∷ ds) s =
    ground
      (arith, given-freeze C ds s, given-freeze C ds ((recording C).update_device (pause d) s).1)

-- The counter of targeted devices counts those that the loop gives the target.
pub targeted-given :
    (C : Client) (ro : FleetRolloutSpec) (devs : List EdgeDevice) (p : Progress)
    (s : Recorded C.World)
    → p.targeted + length devs < i32_half
    → let q = push (recording C) ro devs p s in
      q.1.targeted + given_in s.calls ≡ p.targeted + given_in q.2.calls
unfolding push target
targeted-given C ro [] p s h = refl
targeted-given C ro (d ∷ ds) p s h = ground (
  arith,
  targeted-given C ro ds p s (omega arith),
  targeted-given C ro ds (advance p) ((recording C).update_device (target ro d) s).1 (omega arith),
)

module _ (C : Client) (st : FleetRolloutStatus) where
  -- Writes to devices leave the status alone.
  pub status_after-freeze :
      (devs : List EdgeDevice) (s : Recorded C.World)
      → status_after st (freeze (recording C) devs s).1.calls ≡ status_after st s.calls
  unfolding freeze
  status_after-freeze [] s = refl
  status_after-freeze (d ∷ ds) s = ground (
    arith,
    status_after-freeze ds s,
    status_after-freeze ds ((recording C).update_device (pause d) s).1,
  )

  pub status_after-push :
      (ro : FleetRolloutSpec) (devs : List EdgeDevice) (p : Progress) (s : Recorded C.World)
      → status_after st (push (recording C) ro devs p s).2.calls ≡ status_after st s.calls
  unfolding push
  status_after-push ro [] p s = refl
  status_after-push ro (d ∷ ds) p s = ground (
    arith,
    status_after-push ro ds p s,
    status_after-push ro ds (advance p) ((recording C).update_device (target ro d) s).1,
  )

-- The counter of targeted devices grows by at most one for each device, and does not wrap.
pub targeted-push :
    (C : Client) (ro : FleetRolloutSpec) (devs : List EdgeDevice) (p : Progress)
    (s : Recorded C.World)
    → p.targeted + length devs < i32_half
    → let q = (push (recording C) ro devs p s).1 in
      (p.targeted ≤ q.targeted) × (q.targeted ≤ p.targeted + length devs)
unfolding push
targeted-push C ro [] p s h = omega arith
targeted-push C ro (d ∷ ds) p s h = ground (
  arith,
  targeted-push C ro ds p s (omega arith),
  targeted-push C ro ds (advance p) ((recording C).update_device (target ro d) s).1 (omega arith),
)
