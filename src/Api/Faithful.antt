-- ===== src/Api/Faithful.antt =====
-- An API server of which the controller is the only writer: it answers with what was written last,
-- as the Kubernetes API documents it. It is asked to accept only a write that carries the resource
-- version that is stored, and to keep as it came only what a client may change: the finalizers, the
-- labels, the annotations and the status. Such a write gives a new resource version, and leaves the
-- generation, which a change of the Spec would raise. The transition times that it stores may differ
-- from those that it is sent: the wire carries whole seconds.
use edge_fleet_operator_demo.Base.{ℕ, ◌≡◌, Option, none, some, List, [], ◌∷◌}
use edge_fleet_operator_demo.Api.{Condition, ObjectMeta, EdgeDevice}
use edge_fleet_operator_demo.Api.Client.{
  ApiError, ApiResult, ok, err, not_found, NamespacedName, Secret, Client,
}

abbrev pub versioned : ℕ → EdgeDevice → EdgeDevice
versioned v d = record d { metadata = record d.metadata { resource_version = v } }

abbrev pub found_of : Option Secret → ApiResult Secret
found_of none = err not_found
found_of (some s) = ok s

abbrev pub key_of : Secret → NamespacedName
key_of s = record { namespace = s.metadata.namespace; name = s.metadata.name }

abbrev pub untimed : Condition → Condition
untimed c = record c { last_transition_time = 0 }

abbrev pub untimed_all : List Condition → List Condition
untimed_all [] = []
untimed_all (c ∷ cs) = untimed c ∷ untimed_all cs

abbrev pub restamped : EdgeDevice → List Condition → EdgeDevice
restamped d cs = record d { status = record d.status { conditions = cs } }

-- The part of the metadata that the server sets, with the resource version that was read.
abbrev pub IsCurrent : ObjectMeta → ObjectMeta → Type 0
IsCurrent sent stored =
    (sent.name ≡ stored.name)
    × (sent.namespace ≡ stored.namespace)
    × (sent.uid ≡ stored.uid)
    × (sent.generation ≡ stored.generation)
    × (sent.resource_version ≡ stored.resource_version)
    × (sent.deletion_timestamp ≡ stored.deletion_timestamp)

module _ (C : Client) (device_of : C.World → EdgeDevice) (secret_of : C.World → Option Secret) where
  -- A write of the device that was accepted.
  pub record DeviceStored (d : EdgeDevice) (w : C.World) (r : Option ApiError × C.World)
      : Type 0 where
    pub after : C.World
    pub version : ℕ
    pub accepted : r ≡ (none, after)
    pub stored : device_of after ≡ versioned version d
    pub other : secret_of after ≡ secret_of w

  -- A write of the status that was accepted: its conditions are stored with times of their own.
  pub record StatusStored (d : EdgeDevice) (w : C.World) (r : Option ApiError × C.World)
      : Type 0 where
    pub after : C.World
    pub version : ℕ
    pub conditions : List Condition
    pub same : untimed_all conditions ≡ untimed_all d.status.conditions
    pub accepted : r ≡ (none, after)
    pub stored : device_of after ≡ versioned version (restamped d conditions)
    pub other : secret_of after ≡ secret_of w

  -- A write of the secret that was accepted.
  pub record SecretStored (s : Secret) (w : C.World) (r : Option ApiError × C.World) : Type 0 where
    pub after : C.World
    pub secret : Secret
    pub accepted : r ≡ (none, after)
    pub stored : secret_of after ≡ some secret
    pub annotated : secret.metadata.annotations ≡ s.metadata.annotations
    pub other : device_of after ≡ device_of w

-- The device of a request and its secret, which is kept under a key that the device tells. An update
-- does not change the status, and an update of the status changes nothing else, so that they are
-- asked for with that part as it is stored. Nothing is asked about a write with a stale version, to
-- another object, with a changed Spec, or to a device that is being deleted.
pub record IsFaithful (C : Client) (req : NamespacedName) (key : EdgeDevice → NamespacedName)
    : Type 0 where
  pub device_of : C.World → EdgeDevice
  pub secret_of : C.World → Option Secret
  pub reads_device : (w : C.World) → C.get_device req w ≡ (ok (device_of w), w)
  pub reads_secret :
      (w : C.World) → C.get_secret (key (device_of w)) w ≡ (found_of (secret_of w), w)
  pub updates_device :
      (d : EdgeDevice) (w : C.World)
      → d.spec ≡ (device_of w).spec
      → d.status ≡ (device_of w).status
      → IsCurrent d.metadata (device_of w).metadata
      → d.metadata.deletion_timestamp ≡ none
      → DeviceStored C device_of secret_of d w (C.update_device d w)
  pub updates_status :
      (d : EdgeDevice) (w : C.World)
      → d.spec ≡ (device_of w).spec
      → d.metadata ≡ (device_of w).metadata
      → d.status.last_heartbeat ≡ (device_of w).status.last_heartbeat
      → StatusStored C device_of secret_of d w (C.update_device_status d w)
  pub creates_secret :
      (s : Secret) (w : C.World)
      → secret_of w ≡ none
      → key_of s ≡ key (device_of w)
      → s.metadata.uid ≡ ""
      → s.metadata.resource_version ≡ 0
      → SecretStored C device_of secret_of s w (C.create_secret s w)
  pub updates_secret :
      (s old : Secret) (w : C.World)
      → secret_of w ≡ some old
      → IsCurrent s.metadata old.metadata
      → SecretStored C device_of secret_of s w (C.update_secret s w)
