-- ===== src/Api.antt =====
-- The resources of api/v1alpha1: edgedevice_types.go and fleetrollout_types.go, with the fields of
-- Kubernetes' ObjectMeta and Condition that the controllers read or write.
pub mod Client
pub mod Machinery
pub mod Recording
pub mod Faithful
use edge_fleet_operator_demo.Base.{ℕ, String, Bool, true, false, Option, List, StringMap}

-- DevicePhase; `unset` is the empty text of a status that nobody has written yet.
pub data DevicePhase : Type 0 where
  unset provisioning ready upgrading degraded : DevicePhase

pub data ConditionStatus : Type 0 where
  holds fails unknown : ConditionStatus

-- metav1.Condition
pub record Condition : Type 0 where
  pub kind : String
  pub status : ConditionStatus
  pub observed_generation : ℕ
  pub last_transition_time : ℕ
  pub reason : String
  pub message : String

abbrev pub condition_healthy : String
condition_healthy = "Healthy"

abbrev pub condition_firmware_synced : String
condition_firmware_synced = "FirmwareSynced"

abbrev pub condition_breaker_tripped : String
condition_breaker_tripped = "BreakerTripped"

-- metav1.ObjectMeta. A nil annotations map is `none`.
pub record ObjectMeta : Type 0 where
  pub name : String
  pub namespace : String
  pub uid : String
  pub generation : ℕ
  pub resource_version : ℕ
  pub deletion_timestamp : Option ℕ
  pub finalizers : List String
  pub labels : StringMap
  pub annotations : Option StringMap

pub record EdgeDeviceSpec : Type 0 where
  pub desired_firmware_version : String
  pub firmware_url : String
  pub checksum_sha256 : String
  pub region : String
  pub device_labels : StringMap
  pub rollout_paused : Bool

-- A heartbeat is a time in nanoseconds.
pub record EdgeDeviceStatus : Type 0 where
  pub phase : DevicePhase
  pub conditions : List Condition
  pub current_firmware_version : String
  pub active_slot : String
  pub last_heartbeat : Option ℕ
  pub observed_generation : ℕ

pub record EdgeDevice : Type 0 where
  pub metadata : ObjectMeta
  pub spec : EdgeDeviceSpec
  pub status : EdgeDeviceStatus

pub data RolloutPhase : Type 0 where
  unset progressing paused complete : RolloutPhase

-- The two numbers are int32 values, as bit patterns.
pub record FleetRolloutSpec : Type 0 where
  pub selector : StringMap
  pub target_version : String
  pub firmware_url : String
  pub checksum_sha256 : String
  pub max_unavailable : ℕ
  pub failure_threshold_percent : ℕ

-- The four counters are int32 values, as bit patterns.
pub record FleetRolloutStatus : Type 0 where
  pub phase : RolloutPhase
  pub selected : ℕ
  pub targeted : ℕ
  pub succeeded : ℕ
  pub failed : ℕ
  pub conditions : List Condition
  pub observed_generation : ℕ

pub record FleetRollout : Type 0 where
  pub metadata : ObjectMeta
  pub spec : FleetRolloutSpec
  pub status : FleetRolloutStatus

-- `==` on the string types of the API.
unfoldable pub phase_eq : DevicePhase → DevicePhase → Bool
phase_eq unset unset = true
phase_eq provisioning provisioning = true
phase_eq ready ready = true
phase_eq upgrading upgrading = true
phase_eq degraded degraded = true
phase_eq _ _ = false

unfoldable pub status_eq : ConditionStatus → ConditionStatus → Bool
status_eq holds holds = true
status_eq fails fails = true
status_eq unknown unknown = true
status_eq _ _ = false

unfoldable pub rollout_phase_eq : RolloutPhase → RolloutPhase → Bool
rollout_phase_eq unset unset = true
rollout_phase_eq progressing progressing = true
rollout_phase_eq paused paused = true
rollout_phase_eq complete complete = true
rollout_phase_eq _ _ = false
