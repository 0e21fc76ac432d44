-- ===== src/Device/Converges.antt =====
-- Reconcile of internal/controller/edgedevice_controller.go, pass after pass, with no other writer.
use edge_fleet_operator_demo.Base.{ℕ, ◌≡◌, String, true, none, some}
use edge_fleet_operator_demo.Api.{EdgeDevice, ObjectMeta}
use edge_fleet_operator_demo.Api.Client.{
  ApiResult, ok, err, NamespacedName, Outcome, done, panicked, Client,
}
use edge_fleet_operator_demo.Api.Faithful.{IsCurrent, IsFaithful}
use edge_fleet_operator_demo.Api.Machinery.{Machinery, IsLawful}
use edge_fleet_operator_demo.Device.Status.{Config, Clock, project_status, status_equal}
use edge_fleet_operator_demo.Device.{
  device_finalizer, secret_key, Ensured, secured, refused, publish, drive, release, nil_map,
  reconcile,
}
use edge_fleet_operator_demo.Device.Provision.{Owned}

module _ (M : Machinery) (lawful : IsLawful M) (C : Client) (req : NamespacedName)
    (F : IsFaithful C req secret_key) where
  open F use {device_of, secret_of}

  -- A device that is not being deleted and has the finalizer.
  abbrev pub HeldBy : EdgeDevice → Type 0
  HeldBy dev =
      (dev.metadata.deletion_timestamp ≡ none)
      × (M.contains_finalizer dev.metadata device_finalizer ≡ true)

  abbrev pub Held : C.World → Type 0
  Held w = HeldBy (device_of w)

  -- The status is what the projection gives.
  abbrev pub ShownBy : Config → Clock → EdgeDevice → Type 0
  ShownBy cfg clock dev = status_equal M dev.status (project_status M cfg clock dev).0 ≡ true

  abbrev pub Shown : Config → Clock → C.World → Type 0
  Shown cfg clock w = ShownBy cfg clock (device_of w)

  -- The rest of Reconcile, by what was read.
  abbrev with_device : Config → Clock → String → ApiResult EdgeDevice × C.World → Outcome × C.World
  with_device cfg clock token r =
      let (found, w') = r in
      elim found [
        | err e ↦
            (elim (M.ignore_not_found e) [ none ↦ done 0 | some error ↦ Outcome.failed error ], w')
        | ok dev ↦ elim dev.metadata.deletion_timestamp [
          | some _ ↦ release M C dev w'
          | none ↦ drive M C cfg clock token dev w'
        ]
      ]

  abbrev with_ensured : Config → Clock → EdgeDevice → Ensured × C.World → Outcome × C.World
  with_ensured cfg clock dev r =
      let (e, w') = r in
      elim e [
        | secured ↦ publish M C cfg clock dev w'
        | refused error ↦ (Outcome.failed error, w')
        | nil_map ↦ (panicked, w')
      ]

  -- The pass that adds the finalizer.
  record Adopted (cfg : Config) (clock : Clock) (token : String) (w : C.World) : Type 0 where
    pub after : C.World
    pub goes : reconcile M C cfg clock token req w ≡ (done 0, after)
    pub held : Held after
    pub status_kept : (device_of after).status ≡ (device_of w).status
    pub secret_kept : secret_of after ≡ secret_of w

  -- The two functions on finalizers leave the rest alone, as controllerutil documents it.
  abbrev pub IsPlain : Type 0
  IsPlain =
      ((m : ObjectMeta) (v : ℕ)
        → M.contains_finalizer (record m { resource_version = v }) device_finalizer
          ≡ M.contains_finalizer m device_finalizer)
      × ((m : ObjectMeta) → IsCurrent (M.add_finalizer m device_finalizer) m)

  -- The pass that writes the secret and the status, if they are not as they should be.
  record Settled (cfg : Config) (clock clock2 : Clock) (token : String) (w : C.World) : Type 0 where
    pub after : C.World
    pub next : ℕ
    pub goes : reconcile M C cfg clock token req w ≡ (done next, after)
    pub held : Held after
    pub owned : Owned M C req F after
    pub shown : Shown cfg clock2 after
