-- ===== src/Rollout/Breaker.antt =====
-- The circuit breaker of internal/controller/fleetrollout_controller.go: what a tripped pass does
-- to the fleet, and that a pass keeps no memory of an earlier one.
use mathlib.Core.Path.{subst⁻¹}
use mathlib.Core.List.{Memᴰ}
use edge_fleet_operator_demo.Base.{
  ℕ, ◌≡◌, refl, ap, ◌⊎◌, inl, inr, true, false, none, some, List, [], ◌∷◌, length, All, All-map,
  Bool-cases, Option-cases,
}
use edge_fleet_operator_demo.Base.Words.{i32}
use edge_fleet_operator_demo.Api.{EdgeDevice, FleetRollout, FleetRolloutStatus, paused}
use edge_fleet_operator_demo.Api.Client.{ApiError, done, Client}
use edge_fleet_operator_demo.Api.Recording.{device, Call, Recorded, recording}
use edge_fleet_operator_demo.Api.Machinery.{Machinery}
use edge_fleet_operator_demo.Rollout.Fleet.{
  Tally, pause, tally, breaker_tripped, rollout_status_equal, new_status,
}
use edge_fleet_operator_demo.Rollout.{freeze, write_status, halt, campaign}

-- The device was paused already, or a write that pauses it was accepted.
abbrev pub Frozen : List Call → EdgeDevice → Type 0
Frozen calls d =
    (d.spec.rollout_paused ≡ true) ⊎ Memᴰ (record { write = device (pause d); answer = none }) calls

-- One list of calls goes on from another.
abbrev pub Extends : List Call → List Call → Type 0
Extends older newer = (c : Call) → Memᴰ c older → Memᴰ c newer

module _ (C : Client) where
  freeze-Extends :
      (devs : List EdgeDevice) (s : Recorded C.World)
      → Extends s.calls (freeze (recording C) devs s).1.calls
  unfolding freeze
  freeze-Extends [] s c m = m
  freeze-Extends (d ∷ ds) s c m = elim (Bool-cases d.spec.rollout_paused) [
    | inl frozen ↦ rw (frozen, freeze) (freeze-Extends ds s c m)
    | inr free ↦
        let sent = (recording C).update_device (pause d) s in
        elim (Option-cases sent.0) [
          | inl e ↦ rw (free, e, freeze) (freeze-Extends ds sent.1 c (Memᴰ.tail m))
          | inr (error, e) ↦ rw (free, e, freeze) (Memᴰ.tail m)
        ]
  ]

  -- The world after a write that was accepted.
  abbrev accepted : EdgeDevice → Recorded C.World → Recorded C.World
  accepted d s = record {
    inner = (C.update_device (pause d) s.inner).1;
    calls = record { write = device (pause d); answer = none } ∷ s.calls;
  }

  -- The three ways of a round.
  freeze_paused :
      (d : EdgeDevice) (ds : List EdgeDevice) (s : Recorded C.World)
      → d.spec.rollout_paused ≡ true
      → freeze (recording C) (d ∷ ds) s ≡ freeze (recording C) ds s
  unfolding freeze
  freeze_paused d ds s frozen = rw (frozen, freeze)

  freeze-accepted :
      (d : EdgeDevice) (ds : List EdgeDevice) (s : Recorded C.World)
      → d.spec.rollout_paused ≡ false
      → (C.update_device (pause d) s.inner).0 ≡ none
      → freeze (recording C) (d ∷ ds) s ≡ freeze (recording C) ds (accepted d s)
  unfolding freeze
  freeze-accepted d ds s free e =
      rw (free, e, freeze)
        (ap
          (λ a. freeze (recording C) ds (record {
            inner = (C.update_device (pause d) s.inner).1;
            calls = record { write = device (pause d); answer = a } ∷ s.calls;
          }))
          e)

  freeze_refused :
      (d : EdgeDevice) (ds : List EdgeDevice) (s : Recorded C.World) {error : ApiError}
      → d.spec.rollout_paused ≡ false
      → (C.update_device (pause d) s.inner).0 ≡ some error
      → (freeze (recording C) (d ∷ ds) s).0 ≡ some error
  unfolding freeze
  freeze_refused d ds s free e = rw (free, e, freeze)

  -- The loop that ends with no error has frozen every device.
  freeze-Frozen :
      (devs : List EdgeDevice) (s : Recorded C.World)
      → (freeze (recording C) devs s).0 ≡ none
      → All (Frozen (freeze (recording C) devs s).1.calls) devs
  freeze-Frozen [] s h = tt
  freeze-Frozen (d ∷ ds) s h = elim (Bool-cases d.spec.rollout_paused) [
    | inl frozen ↦
        let e = freeze_paused d ds s frozen in
        subst⁻¹ (λ r. All (Frozen r.1.calls) (d ∷ ds)) e
          (inl frozen, freeze-Frozen ds s (rw e at h))
    | inr free ↦ elim (Option-cases (C.update_device (pause d) s.inner).0) [
      | inl ok ↦
          let e = freeze-accepted d ds s free ok in
          subst⁻¹ (λ r. All (Frozen r.1.calls) (d ∷ ds)) e
            (
              inr (freeze-Extends ds (accepted d s) _ (Memᴰ.head refl)),
              freeze-Frozen ds (accepted d s) (rw e at h),
            )
      | inr (error, bad) ↦ absurd (cc (freeze_refused d ds s free bad))
    ]
  ]

Frozen-Extends :
    (older newer : List Call)
    → Extends older newer
    → (d : EdgeDevice) → Frozen older d
    → Frozen newer d
Frozen-Extends older newer f d (inl frozen) = inl frozen
Frozen-Extends older newer f d (inr m) = inr (f _ m)

module _ (M : Machinery) (C : Client) where
  write_status-Extends :
      (ro : FleetRollout) (st : FleetRolloutStatus) (s : Recorded C.World)
      → Extends s.calls (write_status M (recording C) ro st s).1.calls
  unfolding write_status
  write_status-Extends ro st s c m = elim (Bool-cases (rollout_status_equal M ro.status st)) [
    | inl same ↦ rw same m
    | inr new ↦ rw new (Memᴰ.tail m)
  ]

  halt-Frozen :
      (ro : FleetRollout) (devs : List EdgeDevice) (t : Tally) (s : Recorded C.World) {after : ℕ}
      → (halt M (recording C) ro devs t s).0 ≡ done after
      → All (Frozen (halt M (recording C) ro devs t s).1.calls) devs
  unfolding halt
  halt-Frozen ro devs t s h =
      let frozen = freeze (recording C) devs s in
      let st = new_status M ro paused (i32 (length devs)) t.targeted t true in
      elim (Option-cases frozen.0) [
        | inl e ↦
            let later = (write_status M (recording C) ro st frozen.1).1.calls in
            let all : All (Frozen later) devs =
              All-map (Frozen frozen.1.calls) (Frozen later) devs
                (Frozen-Extends frozen.1.calls later (write_status-Extends ro st frozen.1))
                (freeze-Frozen C devs s e) in
            let same : halt M (recording C) ro devs t s
                ≡ write_status M (recording C) ro st frozen.1 =
              rw (e, halt) in
            subst⁻¹ (λ r. All (Frozen r.1.calls) devs) same all
        | inr (error, e) ↦ absurd (cc (rw (e, halt) at h))
      ]

  -- A pass in which the breaker trips and that ends without an error leaves every listed device
  -- paused: it was before, or a write that pauses it was accepted.
  pub tripped_fleet-Frozen :
      (ro : FleetRollout) (devs : List EdgeDevice) (w : C.World) {after : ℕ}
      → breaker_tripped ro.spec (tally M ro.spec.target_version devs) ≡ true
      → (campaign M (recording C) ro devs (record { inner = w; calls = [] })).0 ≡ done after
      → All
          (Frozen (campaign M (recording C) ro devs (record { inner = w; calls = [] })).1.calls)
          devs
  unfolding campaign
  tripped_fleet-Frozen ro devs w {after} trip h =
      let s : Recorded C.World = record { inner = w; calls = [] } in
      let t = tally M ro.spec.target_version devs in
      let e : campaign M (recording C) ro devs s ≡ halt M (recording C) ro devs t s = rw trip in
      subst⁻¹ (λ r. All (Frozen r.1.calls) devs) e
        (halt-Frozen ro devs t s {after = after} (rw e at h))
