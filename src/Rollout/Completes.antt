-- ===== src/Rollout/Completes.antt =====
-- A rollout of internal/controller/fleetrollout_controller.go whose upgrades succeed comes to its end.
use mathlib.Core.List.{Memᴰ}
use edge_fleet_operator_demo.Base.{
  ℕ, zero, suc, ◌+◌, ◌≤◌, ◌<◌, ◌≡◌, refl, ◌∙◌, ◌⊎◌, inl, inr, true, false, ◌&&◌, List, [], ◌∷◌,
  length, count_if, keep, All, arith, ltb, ◌==◌,
}
use edge_fleet_operator_demo.Base.Words.{i32}
use edge_fleet_operator_demo.Api.{EdgeDevice, FleetRollout, FleetRolloutSpec, complete}
use edge_fleet_operator_demo.Api.Client.{Client}
use edge_fleet_operator_demo.Api.Recording.{recording}
use edge_fleet_operator_demo.Api.Machinery.{Machinery}
use edge_fleet_operator_demo.Rollout.Fleet.{tally, new_status}
use edge_fleet_operator_demo.Rollout.{write_status, campaign}
use edge_fleet_operator_demo.Rollout.Counts.{is_upgraded, is_untargeted, tally_counts}
use edge_fleet_operator_demo.Rollout.Liveness.{
  Accepts, IsOpen, Upgrades, remaining, Upgrades-IsOpen, Upgrades-length, fewer_or_same, fewer,
}
use edge_fleet_operator_demo.Rollout.Gives.{CanGo, calm, campaign_gives}

-- The first device that is still to be given the version, if there is one.
abbrev Waiting : FleetRolloutSpec → List EdgeDevice → Type 0
Waiting ro ds =
    (x : EdgeDevice) × (xs : List EdgeDevice) × (keep (is_untargeted ro.target_version) ds ≡ x ∷ xs)
    × Memᴰ x ds
    × (is_untargeted ro.target_version x ≡ true)
    × (x.spec.rollout_paused ≡ false)

first_open :
    (ro : FleetRolloutSpec) (ds : List EdgeDevice)
    → All (IsOpen ro) ds
    → (remaining ro ds ≡ 0) ⊎ Waiting ro ds
first_open ro [] all = inl refl
first_open ro (d ∷ ds) (inr (un, free), all) =
    inr (d, keep (is_untargeted ro.target_version) ds, rw un refl, Memᴰ.head refl, un, free)
first_open ro (d ∷ ds) (inl up, all) =
    let not_here : is_untargeted ro.target_version d ≡ false = ground (arith, up) in
    elim (first_open ro ds all) [
      | inl none_left ↦ inl (rw not_here (omega (arith, none_left)))
      | inr (x, xs, first, m, un, free) ↦ inr (x, xs, rw not_here first, Memᴰ.tail m, un, free)
    ]

all_upgraded :
    (ro : FleetRolloutSpec) (ds : List EdgeDevice)
    → All (IsOpen ro) ds
    → remaining ro ds ≤ 0
    → All (λ d. is_upgraded ro.target_version d ≡ true) ds
all_upgraded ro [] all h = tt
all_upgraded ro (d ∷ ds) (inl up, all) h = (up, all_upgraded ro ds all (omega (arith, h)))
all_upgraded ro (d ∷ ds) (inr (un, free), all) h =
    let one : count_if (is_untargeted ro.target_version) (d ∷ ds)
        ≡ 1 + count_if (is_untargeted ro.target_version) ds =
      rw un refl in
    absurd (omega (arith, one, h))

count_all :
    (ro : FleetRolloutSpec) (ds : List EdgeDevice)
    → All (λ d. is_upgraded ro.target_version d ≡ true) ds
    → count_if (is_upgraded ro.target_version) ds ≡ length ds
count_all ro [] all = refl
count_all ro (d ∷ ds) (up, all) = rw (up, count_all ro ds all) (omega arith)

module _ (M : Machinery) (C : Client) (ro : FleetRollout) where
  -- Passes, each from some world of the server, with the upgrades that they start done before the
  -- next.
  pub data Rounds : ℕ → List EdgeDevice → List EdgeDevice → Type 0 where
    stop : {ds : List EdgeDevice} → Rounds zero ds ds
    pass :
        {n : ℕ} {ds es fs : List EdgeDevice} (w : C.World)
        → Upgrades ro.spec
            (campaign M (recording C) ro ds (record { inner = w; calls = [] })).1.calls
            ds
            es
        → Rounds n es fs
        → Rounds (suc n) ds fs

  one_less :
      {n : ℕ} {ds es : List EdgeDevice} (w : C.World)
      → Accepts C
      → CanGo ro.spec
      → length ds ≤ 21474836
      → All (IsOpen ro.spec) ds
      → Upgrades ro.spec
          (campaign M (recording C) ro ds (record { inner = w; calls = [] })).1.calls
          ds
          es
      → remaining ro.spec ds ≤ suc n
      → remaining ro.spec es ≤ n
  one_less {n} {ds} {es} w accepts go few all u h = elim (first_open ro.spec ds all) [
    | inl none_left ↦ let same = fewer_or_same ro.spec u in omega (arith, same, none_left)
    | inr (x, xs, first, m, un, free) ↦
        let given_it = campaign_gives M C ro accepts ds x xs w go few all first free in
        let less = fewer ro.spec x u m un given_it in omega (arith, less, h)
  ]

  upgraded_after :
      {n : ℕ} {ds es : List EdgeDevice}
      → Accepts C
      → CanGo ro.spec
      → length ds ≤ 21474836
      → All (IsOpen ro.spec) ds
      → Rounds n ds es
      → remaining ro.spec ds ≤ n
      → All (IsOpen ro.spec) es × (remaining ro.spec es ≤ 0) × (length es ≡ length ds)
  upgraded_after accepts go few all stop h = (all, h, refl)
  upgraded_after accepts go few all (pass w u rounds) h =
      let same = Upgrades-length ro.spec u in
      let (open_then, done_then, length_then) =
        upgraded_after accepts go (omega (arith, same, few)) (Upgrades-IsOpen ro.spec u all) rounds
          (one_less w accepts go few all u h) in
      (open_then, done_then, length_then ∙ same)

  -- On a server that accepts every write of a device, for a rollout with a threshold of one to a
  -- hundred percent and room for at least one upgrade, over a fleet of one to 21,474,836 devices,
  -- each of which runs the version or is to be given it and is not paused: if what every pass starts
  -- succeeds before the next, then after at most as many passes as devices were to be given the
  -- version every device runs it, and the pass after that writes the status with the phase Complete,
  -- unless it is there already, and nothing else.
  pub rollout_completes :
      (n : ℕ) (ds es : List EdgeDevice) (w : C.World)
      → Accepts C
      → CanGo ro.spec
      → 0 < length ds
      → length ds ≤ 21474836
      → All (IsOpen ro.spec) ds
      → Rounds n ds es
      → remaining ro.spec ds ≤ n
      → All (λ d. is_upgraded ro.spec.target_version d ≡ true) es
        × (let t = tally M ro.spec.target_version es in
            campaign M C ro es w
            ≡ write_status M C ro (new_status M ro complete (i32 (length es)) t.targeted t false) w)
  unfolding campaign
  rollout_completes n ds es w accepts go some_device few all rounds h =
      let (open_then, left, same) = upgraded_after accepts go few all rounds h in
      let upgraded = all_upgraded ro.spec es open_then left in
      let counts = tally_counts M ro.spec.target_version es (omega (arith, same, few)) in
      let succeeded = counts.0 ∙ count_all ro.spec es upgraded in
      let finished : (ltb 0 (length es)
            && (tally M ro.spec.target_version es).succeeded == i32 (length es))
          ≡ true =
        ground (arith, succeeded, same, some_device, few) in
      (
        upgraded,
        rw (campaign, calm M ro.spec es go (omega (arith, same, few)) open_then, finished) refl,
      )
