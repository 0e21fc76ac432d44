-- ===== src/Device.antt =====
-- internal/controller/edgedevice_controller.go: one pass of the device controller.
pub mod Status
pub mod Projection
pub mod Cases
pub mod Settles
pub mod Steady
pub mod Restamped
pub mod Provision
pub mod Converges
pub mod Release
pub mod Issues
pub mod Credentials
use edge_fleet_operator_demo.Base.{
  ℕ, ◌+◌, ◌-◌, String, ◌<>◌, Bool, true, false, not, ◌&&◌, Option, none, some, List, [], ◌∷◌,
  StringMap, lookup_or_empty, str_eq, ltb, leb, ◌==◌, if◌then◌else◌,
}
use edge_fleet_operator_demo.Base.Words.{i64_add, i64_sub, i64_ltb, i64_half, i64_mod}
use edge_fleet_operator_demo.Api.{
  ObjectMeta, EdgeDevice, EdgeDeviceStatus, Condition, DevicePhase, provisioning, ready, upgrading,
  degraded, ConditionStatus, holds, fails, unknown, condition_healthy, condition_firmware_synced,
  phase_eq, status_eq,
}
use edge_fleet_operator_demo.Api.Client.{
  ApiError, ApiResult, ok, err, NamespacedName, Secret, Outcome, done, failed, panicked, Client,
}
use edge_fleet_operator_demo.Api.Machinery.{Machinery}
use edge_fleet_operator_demo.Device.Status.{
  second, default_heartbeat_timeout, time_sub, timeout_of, healthy, reports_failure, requeue_of,
  live_phase, judged, project_heartbeat, project_status, same_health, status_equal, Config, Clock,
}

abbrev pub device_finalizer : String
device_finalizer = "edge.example.com/device-cleanup"

abbrev pub cred_fingerprint_key : String
cred_fingerprint_key = "edge.example.com/device-uid"

-- `m[k] = v`
pub set_entry : String → String → StringMap → StringMap
set_entry k v [] = (k, v) ∷ []
set_entry k v ((j, u) ∷ m) = if str_eq j k then (k, v) ∷ m else (j, u) ∷ set_entry k v m

unfoldable pub credential_secret_name : String → String
credential_secret_name device_name = "device-cred-" <> device_name

abbrev pub secret_key : EdgeDevice → NamespacedName
secret_key dev = record {
  namespace = dev.metadata.namespace;
  name = credential_secret_name dev.metadata.name;
}

-- The fingerprint of a secret; the empty text for a nil map and for a missing key.
pub fingerprint : Option StringMap → String
fingerprint none = ""
fingerprint (some m) = lookup_or_empty cred_fingerprint_key m

-- The secret with the fingerprint of a device and a new token, given its annotations.
pub rotate : EdgeDevice → String → StringMap → Secret → Secret
rotate dev token m existing = record {
  metadata = record existing.metadata {
    annotations = some (set_entry cred_fingerprint_key dev.metadata.uid m);
  };
  token = token;
}

pub new_secret : EdgeDevice → String → Secret
new_secret dev token = record {
  metadata = record {
    name = credential_secret_name dev.metadata.name;
    namespace = dev.metadata.namespace;
    uid = "";
    generation = 0;
    resource_version = 0;
    deletion_timestamp = none;
    finalizers = [];
    labels = ("edge.example.com/device", dev.metadata.name) ∷ [];
    annotations = some ((cred_fingerprint_key, dev.metadata.uid) ∷ []);
  };
  token = token;
}

-- How ensureCredentialSecret ends. A write to a nil map panics.
pub data Ensured : Type 0 where
  secured : Ensured
  refused : ApiError → Ensured
  nil_map : Ensured

abbrev pub ensured_of : Option ApiError → Ensured
ensured_of none = secured
ensured_of (some e) = refused e

module _ (M : Machinery) (C : Client) where
  open C use {
    World, get_device, get_secret, update_device, update_device_status, create_secret,
    update_secret, delete_secret,
  }

  -- The credential is given to this device, in a secret that already exists.
  pub take_over : EdgeDevice → String → Secret → World → Ensured × World
  unfolding rotate
  take_over dev token existing w = elim existing.metadata.annotations [
    | none ↦ (nil_map, w)
    | some m ↦ let (e, w') = update_secret (rotate dev token m existing) w in (ensured_of e, w')
  ]

  -- ensureCredentialSecret, where `token` is the value of newToken.
  unfoldable pub ensure_credential_secret : EdgeDevice → String → World → Ensured × World
  unfolding fingerprint take_over new_secret
  ensure_credential_secret dev token w =
      let (found, w') = get_secret (secret_key dev) w in
      elim found [
        | ok existing ↦ elim (str_eq (fingerprint existing.metadata.annotations) dev.metadata.uid) [
          | true ↦ (secured, w')
          | false ↦ take_over dev token existing w'
        ]
        | err error ↦ elim (M.is_not_found error) [
          | false ↦ (refused error, w')
          | true ↦
              let (e, w2) = create_secret (new_secret dev token) w' in
              (
                elim e [ none ↦ secured | some lost ↦ ensured_of (M.ignore_already_exists lost) ],
                w2,
              )
        ]
      ]

  unfoldable pub revoke_credential : EdgeDevice → World → Option ApiError × World
  revoke_credential dev w =
      let (e, w') = delete_secret (secret_key dev) w in
      (elim e [ none ↦ none | some error ↦ M.ignore_not_found error ], w')

  -- The end of a pass that made one write and wants no other run.
  abbrev pub after_write : Option ApiError → Outcome
  after_write none = done 0
  after_write (some e) = Outcome.failed e

  -- The deletion path.
  unfoldable pub release : EdgeDevice → World → Outcome × World
  unfolding revoke_credential
  release dev w = elim (M.contains_finalizer dev.metadata device_finalizer) [
    | false ↦ (done 0, w)
    | true ↦
        let (e, w') = revoke_credential dev w in
        elim e [
          | some error ↦ (Outcome.failed error, w')
          | none ↦
              let (f, w2) =
                update_device
                  (record dev { metadata = M.remove_finalizer dev.metadata device_finalizer }) w' in
              (after_write f, w2)
        ]
  ]

  -- The projection, gated by a comparison, and the end of the pass.
  unfoldable pub publish : Config → Clock → EdgeDevice → World → Outcome × World
  unfolding project_status status_equal
  publish cfg clock dev w =
      let (st, requeue_after) = project_status M cfg clock dev in
      elim (status_equal M dev.status st) [
        | true ↦ (done requeue_after, w)
        | false ↦
            let (e, w') =
              update_device_status
                (record dev {
                  status = record dev.status { phase = st.phase; conditions = st.conditions };
                })
                w in
            (elim e [ none ↦ done requeue_after | some error ↦ Outcome.failed error ], w')
      ]

  -- The path of a device that is not being deleted.
  unfoldable pub drive : Config → Clock → String → EdgeDevice → World → Outcome × World
  unfolding ensure_credential_secret publish
  drive cfg clock token dev w = elim (M.contains_finalizer dev.metadata device_finalizer) [
    | false ↦
        let (e, w') =
          update_device (record dev { metadata = M.add_finalizer dev.metadata device_finalizer })
            w in
        (after_write e, w')
    | true ↦
        let (r, w') = ensure_credential_secret dev token w in
        elim r [
          | secured ↦ publish cfg clock dev w'
          | refused error ↦ (Outcome.failed error, w')
          | nil_map ↦ (panicked, w')
        ]
  ]

  -- Reconcile.
  unfoldable pub reconcile : Config → Clock → String → NamespacedName → World → Outcome × World
  unfolding release drive
  reconcile cfg clock token req w =
      let (found, w') = get_device req w in
      elim found [
        | err e ↦
            (elim (M.ignore_not_found e) [ none ↦ done 0 | some error ↦ Outcome.failed error ], w')
        | ok dev ↦ elim dev.metadata.deletion_timestamp [
          | some _ ↦ release dev w'
          | none ↦ drive cfg clock token dev w'
        ]
      ]
