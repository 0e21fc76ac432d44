-- ===== src/Device/Issues.antt =====
-- Reconcile of internal/controller/edgedevice_controller.go: to which devices a credential is issued.
use mathlib.Core.List.{Memᴰ}
use mathlib.Core.Path.{subst}
use edge_fleet_operator_demo.Base.{
  String, ◌≡◌, ◌⊎◌, refl, inl, inr, true, Bool-cases, Option, Option-cases, none, List, [], ◌∷◌,
}
use edge_fleet_operator_demo.Api.{EdgeDevice}
use edge_fleet_operator_demo.Api.Client.{ApiError, ApiResult, ok, err, NamespacedName, Client}
use edge_fleet_operator_demo.Api.Recording.{
  Write, device, device_status, rollout_status, secret_created, secret_updated, secret_deleted,
  Call, Recorded, recording,
}
use edge_fleet_operator_demo.Api.Machinery.{Machinery, IsLawful}
use edge_fleet_operator_demo.Device.Status.{Config, Clock}
use edge_fleet_operator_demo.Device.{device_finalizer, drive, release, reconcile}
use edge_fleet_operator_demo.Device.Release.{Releases, idle, holding, letting_go, release-Releases}

-- A write that stores a token.
abbrev pub IsIssue : Write → Type 0
IsIssue (secret_created s) = Unit {0}
IsIssue (secret_updated s) = Unit {0}
IsIssue (secret_deleted n) = ⊥
IsIssue (device d) = ⊥
IsIssue (device_status d) = ⊥
IsIssue (rollout_status r) = ⊥

-- The device that was read is not being deleted, and the finalizer is stored on it.
abbrev pub MayOwn : Machinery → EdgeDevice → Type 0
MayOwn M dev =
    (dev.metadata.deletion_timestamp ≡ none)
    × (M.contains_finalizer dev.metadata device_finalizer ≡ true)

module _ (M : Machinery) (lawful : IsLawful M) (C : Client) where
  released_none :
      (dev : EdgeDevice) (c : Call) (calls : List Call)
      → Releases M dev calls
      → Memᴰ c calls
      → IsIssue c.write
      → ⊥
  released_none dev c _ idle m is = elim m [ ]
  released_none dev c _ (holding b) (Memᴰ.head e) is = subst (λ c. IsIssue c.write) e is
  released_none dev c _ (holding b) (Memᴰ.tail m) is = elim m [ ]
  released_none dev c _ (letting_go a b g) (Memᴰ.head e) is = subst (λ c. IsIssue c.write) e is
  released_none dev c _ (letting_go a b g) (Memᴰ.tail (Memᴰ.head e)) is =
      subst (λ c. IsIssue c.write) e is
  released_none dev c _ (letting_go a b g) (Memᴰ.tail (Memᴰ.tail m)) is = elim m [ ]

  driven :
      (cfg : Config) (clock : Clock) (token : String) (dev : EdgeDevice) (w : C.World) (c : Call)
      → Memᴰ c
          (drive M (recording C) cfg clock token dev (record { inner = w; calls = [] })).1.calls
      → IsIssue c.write
      → M.contains_finalizer dev.metadata device_finalizer ≡ true
  unfolding drive
  driven cfg clock token dev w c m is =
      elim (Bool-cases (M.contains_finalizer dev.metadata device_finalizer)) [
        | inl held ↦ held
        | inr free ↦ absurd (adopting (rw (drive, free) at m))
      ]
    where
      adopting :
          {d : EdgeDevice} {a : Option ApiError}
          → Memᴰ c (record { write = device d; answer = a } ∷ [])
          → ⊥
      adopting (Memᴰ.head e) = subst (λ c. IsIssue c.write) e is
      adopting (Memᴰ.tail m) = elim m [ ]

  found_cases :
      (r : ApiResult EdgeDevice)
      → ((e : ApiError) × (r ≡ err e)) ⊎ ((dev : EdgeDevice) × (r ≡ ok dev))
  found_cases (err e) = inl (e, refl)
  found_cases (ok dev) = inr (dev, refl)

  -- Whatever the server answers: if a pass writes a secret, the device that it read is not being
  -- deleted and already has the finalizer stored, so that its deletion will revoke the secret.
  pub issues_only :
      (cfg : Config) (clock : Clock) (token : String) (req : NamespacedName) (w : C.World)
      (c : Call)
      → Memᴰ c
          (reconcile M (recording C) cfg clock token req (record { inner = w; calls = [] })).1.calls
      → IsIssue c.write
      → (dev : EdgeDevice) × ((C.get_device req w).0 ≡ ok dev) × MayOwn M dev
  unfolding reconcile
  issues_only cfg clock token req w c m is =
      let start : Recorded C.World = record { inner = w; calls = [] } in
      let after : Recorded C.World = record { inner = (C.get_device req w).1; calls = [] } in
      let pass = reconcile M (recording C) cfg clock token req start in
      elim (found_cases (C.get_device req w).0) [
        | inl (e, gone) ↦
            let none_made : pass.1.calls ≡ [] = rw (reconcile, gone) refl in
            absurd (elim (subst (λ l. Memᴰ c l) none_made m) [ ])
        | inr (dev, found) ↦ (
          dev,
          found,
          elim (Option-cases dev.metadata.deletion_timestamp) [
            | inr (t, deleting) ↦
                let same : pass ≡ release M (recording C) dev after =
                  simp (reconcile, found, deleting) in
                absurd (
                  released_none dev c _ (release-Releases M lawful C dev (C.get_device req w).1)
                    (subst (λ r. Memᴰ c r.1.calls) same m) is)
            | inl alive ↦
                let same : pass ≡ drive M (recording C) cfg clock token dev after =
                  simp (reconcile, found, alive) in
                (
                  alive,
                  driven cfg clock token dev (C.get_device req w).1 c
                      (subst (λ r. Memᴰ c r.1.calls) same m) is,
                )
          ],
        )
      ]
