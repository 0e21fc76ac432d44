-- ===== src/Tests.antt =====
-- The theorems on concrete fleets, devices and disks.
mod Commands
mod Rollouts
mod Retries
mod Server
mod Agents
mod Devices
mod Downloads
mod Kube
mod Kubeconfigs
mod Transactions
mod Wire
mod Timeless
use Prim.Native.Nat.{max}
use mathlib.Core.List.{Memᴰ}
use edge_fleet_operator_demo.Base.{
  ℕ, ◌+◌, ◌≤◌, ◌<◌, ◌≡◌, ◌≢◌, ◌↔◌, ◌⊎◌, refl, str_eq, eq_iff, inl, inr, String, ◌<>◌, Bool, true,
  false, Option, none, some, List, [], ◌∷◌, All, StringMap, length, count_if, keep, arith, ◌*◌,
}
use edge_fleet_operator_demo.Api.{
  ObjectMeta, EdgeDevice, EdgeDeviceSpec, EdgeDeviceStatus, Condition, FleetRollout,
  FleetRolloutSpec, FleetRolloutStatus, phase_eq, status_eq, DevicePhase, ready, degraded, fails,
  holds, condition_firmware_synced, condition_healthy, RolloutPhase,
}
use edge_fleet_operator_demo.Api.Client.{Client, done, NamespacedName, Secret, ok}
use edge_fleet_operator_demo.Api.Recording.{recording, Recorded, Call, secret_created}
use edge_fleet_operator_demo.Api.Machinery.{Machinery}
use edge_fleet_operator_demo.Rollout.Fleet.{
  tally, tally_loop, tally_device, device_failed, upgrade_failed, breaker_tripped,
  breaker_condition, in_flight, new_status, pause, rollout_status_equal,
}
use edge_fleet_operator_demo.Rollout.{rollouts_for_device, campaign, halt, write_status, freeze}
use edge_fleet_operator_demo.Rollout.Order.{InOrder, order_free}
use edge_fleet_operator_demo.Rollout.Selection.{Selected, key_of, rollouts_for_device_iff}
use edge_fleet_operator_demo.Rollout.Counts.{
  is_upgraded, is_failed, is_in_flight, is_untargeted, tally_counts, breaker_tripped_iff,
}
use edge_fleet_operator_demo.Rollout.Batch.{batch_bounded, apply_calls}
use edge_fleet_operator_demo.Rollout.Writes.{campaign_writes, AllAllowed}
use edge_fleet_operator_demo.Rollout.Breaker.{tripped_fleet-Frozen, Frozen}
use edge_fleet_operator_demo.Rollout.Written.{status_after}
use edge_fleet_operator_demo.Rollout.Report.{campaign-IsReport, IsReport}
use edge_fleet_operator_demo.Tests.Server.{machinery, machinery-IsLawful, server, Cluster}

abbrev pub metadata : String → ObjectMeta
metadata name = record {
  name = name;
  namespace = "fleet";
  uid = "uid of " <> name;
  generation = 1;
  resource_version = 1;
  deletion_timestamp = none;
  finalizers = "edge.example.com/device-cleanup" ∷ [];
  labels = [];
  annotations = none;
}

-- A device that was told to run one version, and runs another.
abbrev pub sample : String → String → String → List Condition → EdgeDevice
sample name desired current conditions = record {
  metadata = metadata name;
  spec = record {
    desired_firmware_version = desired;
    firmware_url = "";
    checksum_sha256 = "";
    region = "";
    device_labels = [];
    rollout_paused = false;
  };
  status = record {
    phase = ready;
    conditions = conditions;
    current_firmware_version = current;
    active_slot = "A";
    last_heartbeat = some 100000000000;
    observed_generation = 1;
  };
}

abbrev pub not_synced : Condition
not_synced = record {
  kind = "FirmwareSynced";
  status = fails;
  observed_generation = 1;
  last_transition_time = 0;
  reason = "ChecksumMismatch";
  message = "";
}

abbrev pub upgraded_device : EdgeDevice
upgraded_device = sample "a" "v2" "v2" []

abbrev pub failed_device : EdgeDevice
failed_device = sample "b" "v2" "v1" (not_synced ∷ [])

abbrev pub old_device : EdgeDevice
old_device = sample "c" "v1" "v1" []

abbrev devices : List EdgeDevice
devices = upgraded_device ∷ failed_device ∷ old_device ∷ []

-- A rollout with a threshold.
abbrev pub rollout : ℕ → FleetRollout
rollout threshold = record {
  metadata = metadata "to-v2";
  spec = record {
    selector = [];
    target_version = "v2";
    firmware_url = "http://firmware/v2";
    checksum_sha256 = "2";
    max_unavailable = 1;
    failure_threshold_percent = threshold;
  };
  status = record {
    phase = RolloutPhase.unset;
    selected = 0;
    targeted = 0;
    succeeded = 0;
    failed = 0;
    conditions = [];
    observed_generation = 0;
  };
}

abbrev pub cluster : Cluster
cluster = record {
  stored = upgraded_device;
  fleet = devices;
  campaign = rollout 50;
  credential = none;
}

tally_counts_example :
    let t = tally machinery "v2" devices in
    (t.succeeded ≡ count_if (is_upgraded "v2") devices)
    × (t.failed ≡ count_if (is_failed machinery "v2") devices)
    × (t.targeted ≡ t.succeeded + t.failed + count_if (is_in_flight machinery "v2") devices)
    × (t.untargeted ≡ keep (is_untargeted "v2") devices)
    × (in_flight t ≡ count_if (is_in_flight machinery "v2") devices)
    × (t.targeted + length t.untargeted ≡ length devices)
tally_counts_example = tally_counts machinery "v2" devices (omega arith)

breaker_tripped_iff_example :
    let aimed =
      count_if (is_upgraded "v2") devices
      + count_if (is_failed machinery "v2") devices
      + count_if (is_in_flight machinery "v2") devices in
    (breaker_tripped (rollout 50).spec (tally machinery "v2" devices) ≡ true)
    ↔ ((0 < aimed) × (50 * aimed ≤ 100 * count_if (is_failed machinery "v2") devices))
breaker_tripped_iff_example =
    breaker_tripped_iff machinery "v2" devices (rollout 50).spec (omega arith) (omega arith)

stays_closed : breaker_tripped (rollout 80).spec (tally machinery "v2" devices) ≡ false
unfolding breaker_tripped tally tally_loop tally_device device_failed upgrade_failed phase_eq
    status_eq
stays_closed = refl

trips : breaker_tripped (rollout 50).spec (tally machinery "v2" devices) ≡ true
unfolding breaker_tripped tally tally_loop tally_device device_failed upgrade_failed phase_eq
    status_eq
trips = refl

abbrev start : Recorded Cluster
start = record { inner = cluster; calls = [] }

ends_well : (campaign machinery (recording server) (rollout 50) devices start).0 ≡ done 30000000000
unfolding campaign halt write_status new_status freeze pause breaker_tripped breaker_condition
    rollout_status_equal tally tally_loop tally_device device_failed upgrade_failed
ends_well = refl

batch_bounded_example :
    let s = (campaign machinery (recording server) (rollout 80) devices start).1 in
    count_if (is_in_flight machinery "v2") (apply_calls s.calls devices)
    ≤ max 1 (count_if (is_in_flight machinery "v2") devices)
batch_bounded_example =
    batch_bounded machinery server (rollout 80) devices cluster (omega arith) (omega arith)
      stays_closed

campaign_writes_example :
    AllAllowed
      (rollout 50)
      devices
      (breaker_tripped (rollout 50).spec (tally machinery "v2" devices))
      (campaign machinery (recording server) (rollout 50) devices start).1.calls
campaign_writes_example =
    campaign_writes machinery server (rollout 50) devices cluster (omega arith)

tripped_fleet-Frozen_example :
    All (Frozen (campaign machinery (recording server) (rollout 50) devices start).1.calls) devices
tripped_fleet-Frozen_example =
    tripped_fleet-Frozen machinery server (rollout 50) devices cluster trips ends_well

campaign-IsReport_example :
    IsReport machinery
      (rollout 50)
      devices
      (campaign machinery (recording server) (rollout 50) devices start).1.calls
      (status_after
        (rollout 50).status
        (campaign machinery (recording server) (rollout 50) devices start).1.calls)
campaign-IsReport_example =
    campaign-IsReport machinery server (rollout 50) devices cluster (omega arith) (omega arith)
      ends_well

abbrev picky : FleetRollout
picky = record (rollout 50) { spec = record (rollout 50).spec { selector = ("tier", "edge") ∷ [] } }

abbrev busy_cluster : Cluster
busy_cluster = record cluster { campaign = picky }

rollouts_for_device_iff_example :
    Memᴰ (key_of picky) (rollouts_for_device server old_device busy_cluster).0 ↔ (
      (ro : FleetRollout) × Memᴰ ro (picky ∷ [])
      × (key_of picky ≡ key_of ro)
      × Selected old_device.metadata.labels ro.spec.selector)
rollouts_for_device_iff_example =
    rollouts_for_device_iff server old_device busy_cluster (picky ∷ []) (key_of picky) refl

-- The server lists its devices against their order.
abbrev turned : List EdgeDevice
turned = old_device ∷ failed_device ∷ upgraded_device ∷ []

abbrev shuffled : Cluster
shuffled = record {
  stored = upgraded_device;
  fleet = turned;
  campaign = rollout 50;
  credential = none;
}

apart : (s t : String) → str_eq s t ≡ false → s ≢ t
apart s t off e = cc ((eq_iff s t).1 e, off)

order_free_example :
    InOrder machinery server (key_of (rollout 50)) (rollout 50) turned shuffled shuffled
order_free_example =
    order_free machinery server (key_of (rollout 50)) shuffled shuffled shuffled (rollout 50) turned
      refl refl
      ((apart "c" "b" refl, (apart "c" "a" refl, tt)), ((apart "b" "a" refl, tt), (tt, tt)))
