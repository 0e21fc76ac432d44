-- ===== src/Rollout/Writes.antt =====
-- What one pass of internal/controller/fleetrollout_controller.go writes, and to which devices.
use mathlib.Core.List.{Memᴰ}
use edge_fleet_operator_demo.Base.{
  ltb, ◌==◌, ◌&&◌, ◌<◌, ◌≡◌, refl, inl, inr, Bool, true, false, List, [], ◌∷◌, length, keep, All,
  All-map, Bool-cases, Option-cases,
}
use edge_fleet_operator_demo.Base.Words.{i32, i32_half, i32_leb, i32_sub}
use edge_fleet_operator_demo.Api.{EdgeDevice, FleetRollout, FleetRolloutStatus, complete}
use edge_fleet_operator_demo.Api.Client.{Client}
use edge_fleet_operator_demo.Api.Recording.{
  Write, device, rollout_status, Call, Recorded, recording,
}
use edge_fleet_operator_demo.Api.Machinery.{Machinery}
use edge_fleet_operator_demo.Rollout.Fleet.{
  rollout_status_equal, Progress, advance, Tally, target, pause, tally, breaker_tripped, in_flight,
  new_status,
}
use edge_fleet_operator_demo.Rollout.{push, freeze, write_status, halt, top_up, campaign}
use edge_fleet_operator_demo.Rollout.Counts.{is_untargeted, tally_counts}

-- The writes that a pass may make, given whether the breaker tripped: pausing a device that is
-- not paused, giving the target to a device that has another and is not paused, and reporting.
pub data Allowed (ro : FleetRollout) (devs : List EdgeDevice) (tripped : Bool) (w : Write)
    : Type 0 where
  pausing :
      (d : EdgeDevice)
      → Memᴰ d devs
      → tripped ≡ true
      → d.spec.rollout_paused ≡ false
      → w ≡ device (pause d)
      → Allowed ro devs tripped w
  targeting :
      (d : EdgeDevice)
      → Memᴰ d devs
      → is_untargeted ro.spec.target_version d ≡ true
      → tripped ≡ false
      → d.spec.rollout_paused ≡ false
      → w ≡ device (target ro.spec d)
      → Allowed ro devs tripped w
  reporting :
      (st : FleetRolloutStatus)
      → w ≡ rollout_status (record ro { status = st })
      → Allowed ro devs tripped w

abbrev pub AllAllowed : FleetRollout → List EdgeDevice → Bool → List Call → Type 0
AllAllowed ro devs tripped = All (λ c. Allowed ro devs tripped c.write)

-- The members of a list that satisfy a test are members with the test's answer.
abbrev Chosen : (EdgeDevice → Bool) → List EdgeDevice → EdgeDevice → Type 0
Chosen p devs d = Memᴰ d devs × (p d ≡ true)

All-keep : (p : EdgeDevice → Bool) (devs : List EdgeDevice) → All (Chosen p devs) (keep p devs)
All-keep p [] = tt
All-keep p (d ∷ ds) =
    let rest =
      All-map (Chosen p ds) (Chosen p (d ∷ ds)) (keep p ds) (λ x h. (Memᴰ.tail h.0, h.1))
        (All-keep p ds) in
    elim (Bool-cases (p d)) [ inl e ↦ rw e ((Memᴰ.head refl, e), rest) | inr e ↦ rw e rest ]

module _ (C : Client) (ro : FleetRollout) (all : List EdgeDevice) where
  push-AllAllowed :
      (devs : List EdgeDevice) (p : Progress) (s : Recorded C.World)
      → All (Chosen (is_untargeted ro.spec.target_version) all) devs
      → AllAllowed ro all false s.calls
      → AllAllowed ro all false (push (recording C) ro.spec devs p s).2.calls
  unfolding push
  push-AllAllowed [] p s m h = h
  push-AllAllowed (d ∷ ds) p s m h = elim (Bool-cases (i32_leb p.capacity 0)) [
    | inl full ↦ rw (full, push) h
    | inr more ↦ elim (Bool-cases d.spec.rollout_paused) [
      | inl frozen ↦ rw (more, frozen, push) (push-AllAllowed ds p s m.1 h)
      | inr free ↦
          let sent = (recording C).update_device (target ro.spec d) s in
          let h' : AllAllowed ro all false sent.1.calls =
            (targeting d m.0.0 m.0.1 refl free refl, h) in
          elim (Option-cases sent.0) [
            | inl e ↦ rw (more, free, e, push) (push-AllAllowed ds (advance p) sent.1 m.1 h')
            | inr (error, e) ↦ rw (more, free, e, push) h'
          ]
    ]
  ]

  freeze-AllAllowed :
      (devs : List EdgeDevice) (s : Recorded C.World)
      → All (λ d. Memᴰ d all) devs
      → AllAllowed ro all true s.calls
      → AllAllowed ro all true (freeze (recording C) devs s).1.calls
  unfolding freeze
  freeze-AllAllowed [] s m h = h
  freeze-AllAllowed (d ∷ ds) s m h = elim (Bool-cases d.spec.rollout_paused) [
    | inl frozen ↦ rw (frozen, freeze) (freeze-AllAllowed ds s m.1 h)
    | inr free ↦
        let sent = (recording C).update_device (pause d) s in
        let h' : AllAllowed ro all true sent.1.calls = (pausing d m.0 refl free refl, h) in
        elim (Option-cases sent.0) [
          | inl e ↦ rw (free, e, freeze) (freeze-AllAllowed ds sent.1 m.1 h')
          | inr (error, e) ↦ rw (free, e, freeze) h'
        ]
  ]

All-Memᴰ : (devs : List EdgeDevice) → All (λ d. Memᴰ d devs) devs
All-Memᴰ [] = tt
All-Memᴰ (d ∷ ds) = (
  Memᴰ.head refl,
  All-map (λ x. Memᴰ x ds) (λ x. Memᴰ x (d ∷ ds)) ds (λ x h. Memᴰ.tail h) (All-Memᴰ ds),
)

module _ (M : Machinery) (C : Client) (ro : FleetRollout) (all : List EdgeDevice) where
  write_status-AllAllowed :
      (tripped : Bool) (st : FleetRolloutStatus) (s : Recorded C.World)
      → AllAllowed ro all tripped s.calls
      → AllAllowed ro all tripped (write_status M (recording C) ro st s).1.calls
  unfolding write_status
  write_status-AllAllowed tripped st s h = elim (Bool-cases (rollout_status_equal M ro.status st)) [
    | inl same ↦ rw same h
    | inr new ↦ rw new (reporting st refl, h)
  ]

  top_up-AllAllowed :
      (t : Tally) (s : Recorded C.World)
      → All (Chosen (is_untargeted ro.spec.target_version) all) t.untargeted
      → AllAllowed ro all false s.calls
      → AllAllowed ro all false (top_up M (recording C) ro all t s).1.calls
  unfolding top_up
  top_up-AllAllowed t s m h =
      let start : Progress = record {
        capacity = i32_sub ro.spec.max_unavailable (in_flight t);
        targeted = t.targeted;
        in_flight = in_flight t;
      } in
      let pushed = push (recording C) ro.spec t.untargeted start s in
      let allowed = push-AllAllowed C ro all t.untargeted start s m h in
      elim (Option-cases pushed.0) [
        | inl e ↦ rw (e, top_up) (write_status-AllAllowed false _ pushed.2 allowed)
        | inr (error, e) ↦ rw (e, top_up) allowed
      ]

  halt-AllAllowed :
      (t : Tally) (s : Recorded C.World)
      → AllAllowed ro all true s.calls
      → AllAllowed ro all true (halt M (recording C) ro all t s).1.calls
  unfolding halt
  halt-AllAllowed t s h =
      let frozen = freeze (recording C) all s in
      let allowed = freeze-AllAllowed C ro all all s (All-Memᴰ all) h in
      elim (Option-cases frozen.0) [
        | inl e ↦ rw (e, halt) (write_status-AllAllowed true _ frozen.1 allowed)
        | inr (error, e) ↦ rw (e, halt) allowed
      ]

-- Whatever the API server answers, every write of a pass over fewer than 2^31 devices is a status
-- report of its rollout; or, only if the breaker tripped, the pausing of a listed device that was
-- not paused; or, only if it did not trip, the targeting of a listed device that was not paused
-- and neither runs nor was given the target version. So no device is ever unpaused, a paused one
-- is never targeted, and a targeted one is not targeted again.
pub campaign_writes :
    (M : Machinery) (C : Client) (ro : FleetRollout) (devs : List EdgeDevice) (w : C.World)
    → length devs < i32_half
    → let tripped = breaker_tripped ro.spec (tally M ro.spec.target_version devs) in
      AllAllowed ro devs tripped
        (campaign M (recording C) ro devs (record { inner = w; calls = [] })).1.calls
unfolding campaign
campaign_writes M C ro devs w small =
    let t = tally M ro.spec.target_version devs in
    let s : Recorded C.World = record { inner = w; calls = [] } in
    let st = new_status M ro complete (i32 (length devs)) t.targeted t false in
    let unt = (tally_counts M ro.spec.target_version devs small).3 in
    elim (Bool-cases (breaker_tripped ro.spec t)) [
      | inl trip ↦ rw trip (halt-AllAllowed M C ro devs t s tt)
      | inr calm ↦
          rw calm (elim (Bool-cases (ltb 0 (length devs) && t.succeeded == i32 (length devs))) [
            | inl all_done ↦ rw all_done (write_status-AllAllowed M C ro devs false st s tt)
            | inr more ↦ rw more (
                top_up-AllAllowed M C ro devs t s
                  (rw unt (All-keep (is_untargeted ro.spec.target_version) devs)) tt)
          ])
    ]
