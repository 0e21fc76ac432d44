-- ===== src/Rollout/Report.antt =====
-- The status of a rollout after a pass of internal/controller/fleetrollout_controller.go.
use mathlib.Core.Path.{subst⁻¹}
use edge_fleet_operator_demo.Base.{
  ℕ, ltb, leb, ◌==◌, ◌&&◌, ◌+◌, ◌*◌, ◌≤◌, ◌≡◌, refl, inl, inr, Bool, true, false, List, [], length,
  count_if, arith, if◌then◌else◌, Bool-cases,
}
use edge_fleet_operator_demo.Base.Words.{i32, i32_sub}
use edge_fleet_operator_demo.Api.{
  EdgeDevice, FleetRollout, FleetRolloutSpec, FleetRolloutStatus, RolloutPhase, paused, complete,
  progressing,
}
use edge_fleet_operator_demo.Api.Client.{Outcome, done, Client}
use edge_fleet_operator_demo.Api.Recording.{Call, Recorded, recording}
use edge_fleet_operator_demo.Api.Machinery.{Machinery}
use edge_fleet_operator_demo.Rollout.Fleet.{
  Tally, Progress, tally, breaker_tripped, in_flight, new_status,
}
use edge_fleet_operator_demo.Rollout.{freeze, push, write_status, halt, top_up, campaign}
use edge_fleet_operator_demo.Rollout.Counts.{
  is_upgraded, is_failed, is_in_flight, tally_counts, breaker_tripped_iff,
}
use edge_fleet_operator_demo.Rollout.Written.{
  status_after, write_status-Agrees, status_after-freeze, status_after-push, targeted-push, Agrees,
  given_in, given-freeze, given-write_status, targeted-given,
}

-- The phase of a fleet by plain counts: paused when some device was given the target and the share
-- of the failed among those reaches the threshold, complete when every device of a fleet that is
-- not empty runs the target, progressing otherwise.
abbrev pub phase_of : Machinery → FleetRolloutSpec → List EdgeDevice → RolloutPhase
phase_of M ro devs =
    let upgraded = count_if (is_upgraded ro.target_version) devs in
    let bad = count_if (is_failed M ro.target_version) devs in
    let aimed = upgraded + bad + count_if (is_in_flight M ro.target_version) devs in
    if ltb 0 aimed && leb (ro.failure_threshold_percent * aimed) (100 * bad)
    then paused
    else if ltb 0 (length devs) && upgraded == length devs
    then complete
    else progressing

-- The status against the fleet that a pass saw and the writes that it made.
pub record IsReport (M : Machinery) (ro : FleetRollout) (devs : List EdgeDevice) (calls : List Call)
    (st : FleetRolloutStatus) : Type 0 where
  pub phase : st.phase ≡ phase_of M ro.spec devs
  pub selected : st.selected ≡ length devs
  pub succeeded : st.succeeded ≡ count_if (is_upgraded ro.spec.target_version) devs
  pub failed : st.failed ≡ count_if (is_failed M ro.spec.target_version) devs
  pub targeted :
      st.targeted
      ≡ st.succeeded
        + st.failed
        + count_if (is_in_flight M ro.spec.target_version) devs
        + given_in calls
  pub targeted_selected : st.targeted ≤ st.selected
  pub observed_generation : st.observed_generation ≡ ro.metadata.generation

module _ (M : Machinery) (C : Client) (ro : FleetRollout) (devs : List EdgeDevice) where
  halt-Agrees :
      (t : Tally) (s : Recorded C.World) {after : ℕ}
      → status_after ro.status s.calls ≡ ro.status
      → (halt M (recording C) ro devs t s).0 ≡ done after
      → Agrees
          (status_after ro.status (halt M (recording C) ro devs t s).1.calls)
          (new_status M ro paused (i32 (length devs)) t.targeted t true)
  unfolding halt
  halt-Agrees t s {after} old h =
      let frozen = freeze (recording C) devs s in
      let new = new_status M ro paused (i32 (length devs)) t.targeted t true in
      ground (
        arith,
        status_after-freeze C ro.status devs s,
        write_status-Agrees M C ro new frozen.1 {after = after},
      )

  abbrev start : Tally → Progress
  start t = record {
    capacity = i32_sub ro.spec.max_unavailable (in_flight t);
    targeted = t.targeted;
    in_flight = in_flight t;
  }

  top_up-Agrees :
      (t : Tally) (s : Recorded C.World) {after : ℕ}
      → status_after ro.status s.calls ≡ ro.status
      → (top_up M (recording C) ro devs t s).0 ≡ done after
      → Agrees (status_after ro.status (top_up M (recording C) ro devs t s).1.calls) (
          new_status M ro progressing
            (i32 (length devs))
            (push (recording C) ro.spec t.untargeted (start t) s).1.targeted
            t
            false)
  unfolding top_up
  top_up-Agrees t s {after} old h =
      let pushed = push (recording C) ro.spec t.untargeted (start t) s in
      let new = new_status M ro progressing (i32 (length devs)) pushed.1.targeted t false in
      ground (
        arith,
        status_after-push C ro.status ro.spec t.untargeted (start t) s,
        write_status-Agrees M C ro new pushed.2 {after = after},
      )

  given-halt :
      (t : Tally) (s : Recorded C.World)
      → given_in (halt M (recording C) ro devs t s).1.calls ≡ given_in s.calls
  unfolding halt
  given-halt t s =
      let frozen = freeze (recording C) devs s in
      let new = new_status M ro paused (i32 (length devs)) t.targeted t true in
      ground (arith, given-freeze C devs s, given-write_status M C ro new frozen.1)

  given-top_up :
      (t : Tally) (s : Recorded C.World)
      → given_in (top_up M (recording C) ro devs t s).1.calls
        ≡ given_in (push (recording C) ro.spec t.untargeted (start t) s).2.calls
  unfolding top_up
  given-top_up t s =
      let pushed = push (recording C) ro.spec t.untargeted (start t) s in
      let new = new_status M ro progressing (i32 (length devs)) pushed.1.targeted t false in
      ground (arith, given-write_status M C ro new pushed.2)

  -- The tests of the code against the plain counts.
  phase_of_tests :
      length devs ≤ 21474836
      → ro.spec.failure_threshold_percent ≤ 100
      → let t = tally M ro.spec.target_version devs in
        phase_of M ro.spec devs ≡ (
          if breaker_tripped ro.spec t
          then paused
          else if ltb 0 (length devs) && t.succeeded == i32 (length devs)
          then complete
          else progressing)
  phase_of_tests small percent =
      let counts = tally_counts M ro.spec.target_version devs (omega arith) in
      let trips = breaker_tripped_iff M ro.spec.target_version devs ro.spec small percent in
      ground (arith, trips.0, trips.1, counts.0)

  -- A stored status that agrees with a computed one is a report, if the computed one is.
  Agrees-IsReport :
      (st : FleetRolloutStatus) (phase : RolloutPhase) (targeted : ℕ) (tripped : Bool)
      (calls : List Call)
      → let t = tally M ro.spec.target_version devs in
        length devs ≤ 21474836
        → phase_of M ro.spec devs ≡ phase
        → targeted ≡ t.targeted + given_in calls
        → targeted ≤ length devs
        → Agrees st (new_status M ro phase (i32 (length devs)) targeted t tripped)
        → IsReport M ro devs calls st
  unfolding new_status
  Agrees-IsReport st phase targeted tripped calls small same is high a =
      let counts = tally_counts M ro.spec.target_version devs (omega arith) in
      record {
        phase = cc (a.phase);
        selected = omega (arith, a.selected);
        succeeded = omega (arith, a.succeeded, counts.0);
        failed = omega (arith, a.failed, counts.1);
        targeted =
            omega
              (arith, a.succeeded, a.failed, a.targeted, counts.0, counts.1, counts.2, counts.4);
        targeted_selected = omega (arith, a.selected, a.targeted);
        observed_generation = a.observed_generation;
      }

  -- A pass that ends without an error, over a fleet of at most 21,474,836 devices and with a
  -- threshold of at most 100 percent, leaves a stored status with the phase and the counts of the
  -- fleet that it saw: the targeted are those that had the target and those that the pass gave it to.
  -- None of it depends on the status that an earlier pass stored, so that a rollout that has tripped
  -- un-trips itself when the fleet recovers.
  pub campaign-IsReport :
      (w : C.World) {after : ℕ}
      → length devs ≤ 21474836
      → ro.spec.failure_threshold_percent ≤ 100
      → let result = campaign M (recording C) ro devs (record { inner = w; calls = [] }) in
        result.0 ≡ done after
        → IsReport M ro devs result.1.calls (status_after ro.status result.1.calls)
  unfolding campaign new_status
  campaign-IsReport w {after} small percent h =
      let s : Recorded C.World = record { inner = w; calls = [] } in
      let t = tally M ro.spec.target_version devs in
      let counts = tally_counts M ro.spec.target_version devs (omega arith) in
      let tests = phase_of_tests small percent in
      let all_done = ltb 0 (length devs) && t.succeeded == i32 (length devs) in
      let Reported : Outcome × Recorded C.World → Type 0 =
        λ r. IsReport M ro devs r.1.calls (status_after ro.status r.1.calls) in
      elim (Bool-cases (breaker_tripped ro.spec t)) [
        | inl trip ↦
            let e : campaign M (recording C) ro devs s ≡ halt M (recording C) ro devs t s =
              rw trip in
            subst⁻¹ Reported e (
              Agrees-IsReport _ paused t.targeted true _ small (rw trip at tests)
                (omega (arith, given-halt t s)) (omega arith)
                (halt-Agrees t s {after = after} refl (rw e at h)))
        | inr calm ↦ elim (Bool-cases all_done) [
          | inl all ↦
              let new = new_status M ro complete (i32 (length devs)) t.targeted t false in
              let e : campaign M (recording C) ro devs s ≡ write_status M (recording C) ro new s =
                rw (calm, all) in
              subst⁻¹ Reported e (
                Agrees-IsReport _ complete t.targeted false _ small (rw (calm, all) at tests)
                  (omega (arith, given-write_status M C ro new s)) (omega arith)
                  (write_status-Agrees M C ro new s {after = after} refl (rw e at h)))
          | inr more ↦
              let e : campaign M (recording C) ro devs s ≡ top_up M (recording C) ro devs t s =
                rw (calm, more) in
              let q = targeted-push C ro.spec t.untargeted (start t) s (omega arith) in
              subst⁻¹ Reported e (
                Agrees-IsReport _ progressing _ false _ small (rw (calm, more) at tests)
                  (omega (
                    arith,
                    given-top_up t s,
                    targeted-given C ro.spec t.untargeted (start t) s (omega arith),
                  ))
                  (omega (arith, q.1)) (top_up-Agrees t s {after = after} refl (rw e at h)))
        ]
      ]
