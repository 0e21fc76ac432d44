-- ===== src/Rollout/Batch.antt =====
-- The batch of internal/controller/fleetrollout_controller.go: how many devices a pass brings into
-- flight, seen in the fleet that its accepted writes leave.
use Prim.Native.Nat.{max}
use edge_fleet_operator_demo.Base.{
  ℕ, ◌+◌, ◌-◌, ◌≤◌, ◌<◌, ◌≡◌, Bool, false, Option, none, List, [], ◌∷◌, length, count_if, arith,
  str_eq, if◌then◌else◌,
}
use edge_fleet_operator_demo.Base.Words.{i32, i32_mod, i32_half, i32_leb, i32_sub}
use edge_fleet_operator_demo.Api.{
  EdgeDevice, FleetRollout, FleetRolloutSpec, FleetRolloutStatus, progressing, complete,
}
use edge_fleet_operator_demo.Api.Client.{ApiError, Client}
use edge_fleet_operator_demo.Api.Recording.{Write, device, Call, Recorded, recording}
use edge_fleet_operator_demo.Api.Machinery.{Machinery}
use edge_fleet_operator_demo.Rollout.Fleet.{
  Progress, advance, Tally, target, tally, breaker_tripped, in_flight, new_status,
}
use edge_fleet_operator_demo.Rollout.{push, write_status, top_up, campaign}
use edge_fleet_operator_demo.Rollout.Counts.{is_in_flight, tally_counts}

-- A write of a device replaces the one of that name.
abbrev pub put_device : EdgeDevice → List EdgeDevice → List EdgeDevice
put_device d [] = []
put_device d (e ∷ es) =
    if str_eq e.metadata.name d.metadata.name then d ∷ es else e ∷ put_device d es

abbrev pub apply_call : Write → Option ApiError → List EdgeDevice → List EdgeDevice
apply_call (device d) none fleet = put_device d fleet
apply_call _ _ fleet = fleet

-- The fleet after the writes that were accepted.
abbrev pub apply_calls : List Call → List EdgeDevice → List EdgeDevice
apply_calls [] fleet = fleet
apply_calls (c ∷ cs) fleet = apply_call c.write c.answer (apply_calls cs fleet)

-- A capacity as a number: 0 for a negative int32.
abbrev pub room : ℕ → ℕ
room c = if i32_leb c 0 then 0 else c

count_if-put_device :
    (p : EdgeDevice → Bool) (d : EdgeDevice) (fleet : List EdgeDevice)
    → count_if p (put_device d fleet) ≤ count_if p fleet + 1
count_if-put_device p d [] = omega arith
count_if-put_device p d (e ∷ es) = ground (arith, count_if-put_device p d es)

module _ (C : Client) (q : EdgeDevice → Bool) (ro : FleetRolloutSpec)
    (fleet : List EdgeDevice) where
  pub count_if-push :
      (devs : List EdgeDevice) (p : Progress) (s : Recorded C.World)
      → p.capacity < i32_mod
      → count_if q (apply_calls (push (recording C) ro devs p s).2.calls fleet)
        ≤ count_if q (apply_calls s.calls fleet) + room p.capacity
  unfolding push
  count_if-push [] p s h = omega arith
  count_if-push (d ∷ ds) p s h =
      let (e, w) = C.update_device (target ro d) s.inner in
      ground (
        arith,
        count_if-put_device q (target ro d) (apply_calls s.calls fleet),
        count_if-push ds p s h,
        count_if-push ds (advance p)
            (record {
              inner = w;
              calls = record { write = device (target ro d); answer = e } ∷ s.calls;
            })
            (omega arith),
      )

module _ (M : Machinery) (C : Client) where
  -- A status write leaves the devices alone.
  pub apply_calls-write_status :
      (ro : FleetRollout) (st : FleetRolloutStatus) (s : Recorded C.World) (fleet : List EdgeDevice)
      → apply_calls (write_status M (recording C) ro st s).1.calls fleet ≡ apply_calls s.calls fleet
  unfolding write_status
  apply_calls-write_status ro st s fleet = ground arith

  top_up-bounded :
      (q : EdgeDevice → Bool) (ro : FleetRollout) (devs : List EdgeDevice) (t : Tally)
      (s : Recorded C.World)
      → ro.spec.max_unavailable < i32_half
      → in_flight t < i32_half
      → count_if q (apply_calls (top_up M (recording C) ro devs t s).1.calls devs)
        ≤ count_if q (apply_calls s.calls devs) + (ro.spec.max_unavailable - in_flight t)
  unfolding top_up
  top_up-bounded q ro devs t s hm hf =
      let start : Progress = record {
        capacity = i32_sub ro.spec.max_unavailable (in_flight t);
        targeted = t.targeted;
        in_flight = in_flight t;
      } in
      let pushed = push (recording C) ro.spec t.untargeted start s in
      let st = new_status M ro progressing (i32 (length devs)) pushed.1.targeted t false in
      ground (
        arith,
        apply_calls-write_status ro st pushed.2 devs,
        count_if-push C q ro.spec devs t.untargeted start s (omega arith),
      )

  -- A pass in which the breaker does not trip leaves no more devices in flight than the larger of
  -- maxUnavailable and the number that was in flight before, whichever of its writes are accepted.
  pub batch_bounded :
      (ro : FleetRollout) (devs : List EdgeDevice) (w : C.World)
      → length devs < i32_half
      → ro.spec.max_unavailable < i32_half
      → breaker_tripped ro.spec (tally M ro.spec.target_version devs) ≡ false
      → let q = is_in_flight M ro.spec.target_version in
        let s = (campaign M (recording C) ro devs (record { inner = w; calls = [] })).1 in
        count_if q (apply_calls s.calls devs) ≤ max ro.spec.max_unavailable (count_if q devs)
  unfolding campaign
  batch_bounded ro devs w small few calm =
      let q = is_in_flight M ro.spec.target_version in
      let t = tally M ro.spec.target_version devs in
      let s : Recorded C.World = record { inner = w; calls = [] } in
      let counts = tally_counts M ro.spec.target_version devs small in
      let st = new_status M ro complete (i32 (length devs)) t.targeted t false in
      ground (
        arith,
        counts.4,
        apply_calls-write_status ro st s devs,
        top_up-bounded q ro devs t s few (omega arith),
      )
