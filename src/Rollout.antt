-- ===== src/Rollout.antt =====
-- internal/controller/fleetrollout_controller.go: one pass of the rollout controller.

pub mod Fleet
pub mod Counts
pub mod Batch
pub mod Order
pub mod Writes
pub mod Agreement
pub mod Breaker
pub mod Written
pub mod Report
pub mod Liveness
pub mod Gives
pub mod Completes
pub mod Selection
use Prim.Native.String.{compare}
use text.Mathlib.Text.{is_lt}
use edge_fleet_operator_demo.Base.{
  ℕ, ◌+◌, String, Bool, true, false, not, ◌&&◌, ◌||◌, Option, none, some, List, StringMap, [], ◌∷◌,
  ◌++◌, length, lookup_or_empty, str_eq, ltb, leb, ◌==◌, if◌then◌else◌,
}
use edge_fleet_operator_demo.Base.Words.{i32, i32_add, i32_sub, i32_mul, i32_leb, i32_ltb}
use edge_fleet_operator_demo.Api.{
  EdgeDevice, EdgeDeviceSpec, FleetRollout, FleetRolloutSpec, FleetRolloutStatus, Condition,
  RolloutPhase, DevicePhase, degraded, progressing, paused, complete, ConditionStatus, holds, fails,
  condition_firmware_synced, condition_breaker_tripped, phase_eq, status_eq, rollout_phase_eq,
}
use edge_fleet_operator_demo.Api.Client.{
  ApiError, ApiResult, ok, err, NamespacedName, Outcome, done, failed, Client,
}
use edge_fleet_operator_demo.Api.Machinery.{Machinery}
use edge_fleet_operator_demo.Rollout.Fleet.{
  no_devices, advance, name_before, insert_by_name, sort_by_name, pause, target, upgrade_failed,
  same_breaker, breaker_condition, breaker_tripped, in_flight, device_failed, tally_device,
  tally_loop, tally, rollout_status_equal, new_status, Tally, Progress,
}

-- The range over the selector, which stops at the first label that differs.
pub labels_match : StringMap → StringMap → Bool
unfolding lookup_or_empty
labels_match labels [] = true
labels_match labels ((k, v) ∷ rest) =
    if not (str_eq (lookup_or_empty k labels) v) then false else labels_match labels rest

pub selects : StringMap → StringMap → Bool
unfolding labels_match
selects labels selector = ltb 0 (length selector) && labels_match labels selector

-- The loop over the rollouts.
pub selecting : StringMap → List FleetRollout → List NamespacedName
unfolding selects
selecting labels [] = []
selecting labels (ro ∷ ros) =
    let rest = selecting labels ros in
    if selects labels ro.spec.selector
    then record { namespace = ro.metadata.namespace; name = ro.metadata.name } ∷ rest
    else rest

module _ (C : Client) where
  open C use {World, update_device}

  -- The loop of the circuit breaker. It ends at the first write that fails.
  unfoldable pub freeze : List EdgeDevice → World → Option ApiError × World
  unfolding pause
  freeze [] w = (none, w)
  freeze (dev ∷ devs) w = elim dev.spec.rollout_paused [
    | true ↦ freeze devs w
    | false ↦
        let (e, w') = update_device (pause dev) w in
        elim e [ none ↦ freeze devs w' | some error ↦ (some error, w') ]
  ]

  -- The loop that tops the batch up.
  pub push :
      FleetRolloutSpec → List EdgeDevice → Progress → World → Option ApiError × Progress × World
  unfolding target
  push ro [] p w = (none, p, w)
  push ro (dev ∷ devs) p w = elim (i32_leb p.capacity 0) [
    | true ↦ (none, p, w)
    | false ↦ elim dev.spec.rollout_paused [
      | true ↦ push ro devs p w
      | false ↦
          let (e, w') = update_device (target ro dev) w in
          elim e [ some error ↦ (some error, p, w') | none ↦ push ro devs (advance p) w' ]
    ]
  ]

module _ (M : Machinery) (C : Client) where
  open C use {World, get_rollout, list_devices, update_rollout_status}

  -- The time to the next pass, 30 s: only a safety net.
  abbrev pub resync : ℕ
  resync = 30000000000

  -- The status write, gated by a comparison, and the end of the pass.
  unfoldable pub write_status : FleetRollout → FleetRolloutStatus → World → Outcome × World
  write_status ro st w =
      if rollout_status_equal M ro.status st
      then (done resync, w)
      else (let (e, w') = update_rollout_status (record ro { status = st }) w in
          (elim e [ none ↦ done resync | some error ↦ Outcome.failed error ], w'))

  -- The case of a tripped breaker: every device is paused, then the status is written.
  unfoldable pub halt : FleetRollout → List EdgeDevice → Tally → World → Outcome × World
  halt ro devs t w =
      let (e, w') = freeze C devs w in
      elim e [
        | some error ↦ (Outcome.failed error, w')
        | none ↦ write_status ro (new_status M ro paused (i32 (length devs)) t.targeted t true) w'
      ]

  -- The default case: the batch is topped up, then the status is written.
  pub top_up : FleetRollout → List EdgeDevice → Tally → World → Outcome × World
  top_up ro devs t w =
      let (e, p, w') =
        push C ro.spec t.untargeted
          (record {
            capacity = i32_sub ro.spec.max_unavailable (in_flight t);
            targeted = t.targeted;
            in_flight = in_flight t;
          })
          w in
      elim e [
        | some error ↦ (Outcome.failed error, w')
        | none ↦
            write_status ro (new_status M ro progressing (i32 (length devs)) p.targeted t false) w'
      ]

  -- What one pass does with a fleet that is sorted by name.
  unfoldable pub campaign : FleetRollout → List EdgeDevice → World → Outcome × World
  campaign ro devs w =
      let t = tally M ro.spec.target_version devs in
      if breaker_tripped ro.spec t
      then halt ro devs t w
      else if ltb 0 (length devs) && t.succeeded == i32 (length devs)
      then write_status ro (new_status M ro complete (i32 (length devs)) t.targeted t false) w
      else top_up ro devs t w

  -- Reconcile.
  unfoldable pub reconcile : NamespacedName → World → Outcome × World
  reconcile req w =
      let (found, w') = get_rollout req w in
      elim found [
        | err e ↦
            (elim (M.ignore_not_found e) [ none ↦ done 0 | some error ↦ Outcome.failed error ], w')
        | ok ro ↦
            let (listed, w2) = list_devices ro.metadata.namespace ro.spec.selector w' in
            elim listed [
              | err e ↦ (Outcome.failed e, w2)
              | ok devs ↦ campaign ro (sort_by_name devs) w2
            ]
      ]

module _ (C : Client) where
  open C use {World, list_rollouts}

  -- rolloutsForDevice: the rollouts that a device's event is passed to.
  pub rollouts_for_device : EdgeDevice → World → List NamespacedName × World
  unfolding selecting
  rollouts_for_device dev w =
      let (listed, w') = list_rollouts dev.metadata.namespace w in
      (elim listed [ err e ↦ [] | ok ros ↦ selecting dev.metadata.labels ros ], w')
