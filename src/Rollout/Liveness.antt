-- ===== src/Rollout/Liveness.antt =====
-- A rollout of internal/controller/fleetrollout_controller.go whose upgrades succeed.
use mathlib.Core.List.{Memᴰ}
use mathlib.Core.Path.{subst}
use edge_fleet_operator_demo.Base.{
  ℕ, suc, ◌≤◌, ◌<◌, ◌≡◌, refl, ap, ◌⊎◌, inl, true, false, none, List, [], ◌∷◌, length, count_if,
  All, arith,
}
use edge_fleet_operator_demo.Api.{EdgeDevice, FleetRolloutSpec}
use edge_fleet_operator_demo.Api.Client.{Client}
use edge_fleet_operator_demo.Api.Recording.{device, Call}
use edge_fleet_operator_demo.Rollout.Fleet.{target}
use edge_fleet_operator_demo.Rollout.Counts.{is_upgraded, is_untargeted}

-- A server that accepts every write of a device.
abbrev pub Accepts : Client → Type 0
Accepts C = (d : EdgeDevice) (w : C.World) → (C.update_device d w).0 ≡ none

-- The version runs on the device, or the device is still to be given it and is not paused.
abbrev pub IsOpen : FleetRolloutSpec → EdgeDevice → Type 0
IsOpen ro d =
    (is_upgraded ro.target_version d ≡ true)
    ⊎ ((is_untargeted ro.target_version d ≡ true) × (d.spec.rollout_paused ≡ false))

-- The accepted write that gives the target to a device.
abbrev pub given : FleetRolloutSpec → EdgeDevice → Call
given ro d = record { write = device (target ro d); answer = none }

-- The fleet at the next pass: the devices that were given the target run it, and the others are as
-- they were.
pub data Upgrades (ro : FleetRolloutSpec) (calls : List Call)
    : List EdgeDevice → List EdgeDevice → Type 0 where
  finished : Upgrades ro calls [] []
  kept :
      {d : EdgeDevice} {ds es : List EdgeDevice}
      → (Memᴰ (given ro d) calls → ⊥)
      → Upgrades ro calls ds es
      → Upgrades ro calls (d ∷ ds) (d ∷ es)
  ran :
      {d e : EdgeDevice} {ds es : List EdgeDevice}
      → Memᴰ (given ro d) calls
      → is_upgraded ro.target_version e ≡ true
      → Upgrades ro calls ds es
      → Upgrades ro calls (d ∷ ds) (e ∷ es)

module _ (ro : FleetRolloutSpec) where
  abbrev pub remaining : List EdgeDevice → ℕ
  remaining = count_if (is_untargeted ro.target_version)

  upgraded_not_untargeted :
      (d : EdgeDevice)
      → is_upgraded ro.target_version d ≡ true
      → is_untargeted ro.target_version d ≡ false
  upgraded_not_untargeted d e = ground (arith, e)

  pub Upgrades-IsOpen :
      {calls : List Call} {ds es : List EdgeDevice}
      → Upgrades ro calls ds es
      → All (IsOpen ro) ds
      → All (IsOpen ro) es
  Upgrades-IsOpen finished all = tt
  Upgrades-IsOpen (kept n u) all = (all.0, Upgrades-IsOpen u all.1)
  Upgrades-IsOpen (ran m e u) all = (inl e, Upgrades-IsOpen u all.1)

  pub Upgrades-length :
      {calls : List Call} {ds es : List EdgeDevice}
      → Upgrades ro calls ds es
      → length es ≡ length ds
  Upgrades-length finished = refl
  Upgrades-length (kept n u) = ap suc (Upgrades-length u)
  Upgrades-length (ran m e u) = ap suc (Upgrades-length u)

  pub fewer_or_same :
      {calls : List Call} {ds es : List EdgeDevice}
      → Upgrades ro calls ds es
      → remaining es ≤ remaining ds
  fewer_or_same finished = omega arith
  fewer_or_same (kept n u) = omega (arith, fewer_or_same u)
  fewer_or_same (ran {d} {e} m up u) = ground (arith, fewer_or_same u, upgraded_not_untargeted e up)

  pub fewer :
      {calls : List Call} {ds es : List EdgeDevice} (x : EdgeDevice)
      → Upgrades ro calls ds es
      → Memᴰ x ds
      → is_untargeted ro.target_version x ≡ true
      → Memᴰ (given ro x) calls
      → remaining es < remaining ds
  fewer x finished m un w = elim m [ ]
  fewer {calls} x (kept n u) (Memᴰ.head e) un w =
      absurd (n (subst (λ d. Memᴰ (given ro d) calls) e w))
  fewer x (kept n u) (Memᴰ.tail m) un w = omega (arith, fewer x u m un w)
  fewer x (ran {d} {e} k up u) (Memᴰ.head same) un w =
      let first : is_untargeted ro.target_version d ≡ true =
        subst (λ d. is_untargeted ro.target_version d ≡ true) same un in
      let after = upgraded_not_untargeted e up in
      let rest = fewer_or_same u in rw (first, after) (omega (arith, rest))
  fewer x (ran {d} {e} k up u) (Memᴰ.tail m) un w =
      let after = upgraded_not_untargeted e up in
      let rest = fewer x u m un w in rw after (ground (arith, rest))
