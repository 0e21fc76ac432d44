-- ===== src/Rollout/Gives.antt =====
-- What a pass of internal/controller/fleetrollout_controller.go gives, when nothing has failed.
use mathlib.Core.List.{Memᴰ}
use mathlib.Core.Path.{subst⁻¹}
use edge_fleet_operator_demo.Base.{
  ℕ, zero, suc, ◌*◌, ◌≤◌, ◌<◌, ◌≡◌, refl, sym, ap, ◌∙◌, inl, inr, Bool, true, false, ◌&&◌,
  Bool-cases, Option, Option-cases, none, some, List, [], ◌∷◌, length, count_if, keep, All, arith,
  ltb, ◌==◌,
}
use edge_fleet_operator_demo.Base.Words.{i32, i32_half, i32_leb, i32_sub}
use edge_fleet_operator_demo.Api.{EdgeDevice, FleetRollout, FleetRolloutSpec, FleetRolloutStatus}
use edge_fleet_operator_demo.Api.Client.{ApiError, Client}
use edge_fleet_operator_demo.Api.Recording.{device, Call, Recorded, recording}
use edge_fleet_operator_demo.Api.Machinery.{Machinery}
use edge_fleet_operator_demo.Rollout.Fleet.{
  Progress, advance, Tally, target, tally, breaker_tripped, in_flight, rollout_status_equal,
}
use edge_fleet_operator_demo.Rollout.{push, write_status, top_up, campaign}
use edge_fleet_operator_demo.Rollout.Counts.{
  is_untargeted, is_failed, is_in_flight, tally_counts, breaker_tripped_iff,
}
use edge_fleet_operator_demo.Rollout.Liveness.{Accepts, IsOpen, given}

none_under_way :
    (M : Machinery) (ro : FleetRolloutSpec) (ds : List EdgeDevice)
    → All (IsOpen ro) ds
    → (count_if (is_failed M ro.target_version) ds ≡ 0)
      × (count_if (is_in_flight M ro.target_version) ds ≡ 0)
none_under_way M ro [] all = (refl, refl)
none_under_way M ro (d ∷ ds) all =
    let rest = none_under_way M ro ds all.1 in let here = all.0 in ground (arith, rest, here)

positive_product : (p t : ℕ) → 0 < p → 0 < t → 0 < p * t
positive_product zero t hp ht = elim hp [ ]
positive_product (suc p) zero hp ht = elim ht [ ]
positive_product (suc p) (suc t) hp ht = grind arith

-- A rollout that can go on: a threshold of one to a hundred percent, and at least one device may be
-- upgraded at a time.
pub record CanGo (ro : FleetRolloutSpec) : Type 0 where
  pub low : 0 < ro.failure_threshold_percent
  pub high : ro.failure_threshold_percent ≤ 100
  pub batch : 0 < ro.max_unavailable
  pub small : ro.max_unavailable < i32_half

pub calm :
    (M : Machinery) (ro : FleetRolloutSpec) (ds : List EdgeDevice)
    → CanGo ro
    → length ds ≤ 21474836
    → All (IsOpen ro) ds
    → breaker_tripped ro (tally M ro.target_version ds) ≡ false
calm M ro ds go few all =
    let none_failed = (none_under_way M ro ds all).0 in
    elim (Bool-cases (breaker_tripped ro (tally M ro.target_version ds))) [
      | inr off ↦ off
      | inl trips ↦
          let (some_aimed, share) =
            (breaker_tripped_iff M ro.target_version ds ro few go.high).0 trips in
          let positive = positive_product ro.failure_threshold_percent _ go.low some_aimed in
          absurd (omega (arith, positive, share, none_failed))
    ]

module _ (C : Client) (ro : FleetRolloutSpec) (accepts : Accepts C) where
  push-keeps :
      (ds : List EdgeDevice) (p : Progress) (s : Recorded C.World) (c : Call)
      → Memᴰ c s.calls
      → Memᴰ c (push (recording C) ro ds p s).2.calls
  unfolding push
  push-keeps [] p s c m = m
  push-keeps (d ∷ ds) p s c m = elim (Bool-cases (i32_leb p.capacity 0)) [
    | inl full ↦ rw (full, push) m
    | inr more ↦ elim (Bool-cases d.spec.rollout_paused) [
      | inl frozen ↦ rw (more, frozen, push) (push-keeps ds p s c m)
      | inr free ↦
          let sent = (recording C).update_device (target ro d) s in
          let answered : sent.0 ≡ none = accepts (target ro d) s.inner in
          rw (more, free, answered, push) (push-keeps ds (advance p) sent.1 c (Memᴰ.tail m))
    ]
  ]

  push_gives_first :
      (d : EdgeDevice) (ds : List EdgeDevice) (p : Progress) (s : Recorded C.World)
      → i32_leb p.capacity 0 ≡ false
      → d.spec.rollout_paused ≡ false
      → Memᴰ (given ro d) (push (recording C) ro (d ∷ ds) p s).2.calls
  unfolding push
  push_gives_first d ds p s more free =
      let sent = (recording C).update_device (target ro d) s in
      let answered : sent.0 ≡ none = accepts (target ro d) s.inner in
      let body : Bool → Bool → Option ApiError → Option ApiError × Progress × Recorded C.World =
        λ full frozen o. elim full as (λ _. Option ApiError × Progress × Recorded C.World) [
          | true ↦ (none, p, s)
          | false ↦ elim frozen as (λ _. Option ApiError × Progress × Recorded C.World) [
            | true ↦ push (recording C) ro ds p s
            | false ↦ elim o as (λ _. Option ApiError × Progress × Recorded C.World) [
              | some error ↦ (some error, p, sent.1)
              | none ↦ push (recording C) ro ds (advance p) sent.1
            ]
          ]
        ] in
      let same : push (recording C) ro (d ∷ ds) p s ≡ push (recording C) ro ds (advance p) sent.1 =
        ap (λ b. body b d.spec.rollout_paused sent.0) more
        ∙ ap (λ b. body false b sent.0) free
        ∙ ap (body false false) answered in
      let logged : Call = record { write = device (target ro d); answer = sent.0 } in
      let it : given ro d ≡ logged =
        ap (λ a. record { write = device (target ro d); answer = a }) (sym answered) in
      subst⁻¹ (λ r. Memᴰ (given ro d) r.2.calls) same
        (push-keeps ds (advance p) sent.1 (given ro d) (Memᴰ.head it))

module _ (M : Machinery) (C : Client) (ro : FleetRollout) (accepts : Accepts C) where
  write_status-keeps :
      (st : FleetRolloutStatus) (s : Recorded C.World) (c : Call)
      → Memᴰ c s.calls
      → Memᴰ c (write_status M (recording C) ro st s).1.calls
  unfolding write_status
  write_status-keeps st s c m = elim (Bool-cases (rollout_status_equal M ro.status st)) [
    | inl same ↦ rw (write_status, same) m
    | inr new ↦ rw (write_status, new) (Memᴰ.tail m)
  ]

  top_up_gives :
      (x : EdgeDevice) (xs all : List EdgeDevice) (t : Tally) (s : Recorded C.World)
      → t.untargeted ≡ x ∷ xs
      → i32_leb (i32_sub ro.spec.max_unavailable (in_flight t)) 0 ≡ false
      → x.spec.rollout_paused ≡ false
      → Memᴰ (given ro.spec x) (top_up M (recording C) ro all t s).1.calls
  unfolding top_up
  top_up_gives x xs all t s first more free =
      let start : Progress = record {
        capacity = i32_sub ro.spec.max_unavailable (in_flight t);
        targeted = t.targeted;
        in_flight = in_flight t;
      } in
      let pushed = push (recording C) ro.spec t.untargeted start s in
      let m : Memᴰ (given ro.spec x) pushed.2.calls =
        subst⁻¹ (λ l. Memᴰ (given ro.spec x) (push (recording C) ro.spec l start s).2.calls) first
          (push_gives_first C ro.spec accepts x xs start s more free) in
      elim (Option-cases pushed.0) [
        | inl e ↦ rw (e, top_up) (write_status-keeps _ pushed.2 _ m)
        | inr (error, e) ↦ rw (e, top_up) m
      ]

  -- A pass over a fleet with a device that is still to be given the version gives it to the first.
  pub campaign_gives :
      (ds : List EdgeDevice) (x : EdgeDevice) (xs : List EdgeDevice) (w : C.World)
      → CanGo ro.spec
      → length ds ≤ 21474836
      → All (IsOpen ro.spec) ds
      → keep (is_untargeted ro.spec.target_version) ds ≡ x ∷ xs
      → x.spec.rollout_paused ≡ false
      → Memᴰ
          (given ro.spec x)
          (campaign M (recording C) ro ds (record { inner = w; calls = [] })).1.calls
  unfolding campaign
  campaign_gives ds x xs w go few all first free =
      let t = tally M ro.spec.target_version ds in
      let (succeeded, bad, targeted, untargeted, flying, whole) =
        tally_counts M ro.spec.target_version ds (omega arith) in
      let none_flying : in_flight t ≡ 0 = flying ∙ (none_under_way M ro.spec ds all).1 in
      let left : length t.untargeted ≡ suc (length xs) = ap length (untargeted ∙ first) in
      let unfinished : (ltb 0 (length ds) && t.succeeded == i32 (length ds)) ≡ false =
        ground arith in
      let go_small = go.small in
      let go_batch = go.batch in
      let more : i32_leb (i32_sub ro.spec.max_unavailable (in_flight t)) 0 ≡ false =
        rw none_flying (ground arith) in
      rw (campaign, calm M ro.spec ds go few all, unfinished)
        (top_up_gives x xs ds t _ (untargeted ∙ first) more free)
