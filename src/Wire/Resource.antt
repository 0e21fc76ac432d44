-- ===== src/Wire/Resource.antt =====
-- The struct tags of api/v1alpha1/edgedevice_types.go, with those of metav1.Condition: the status and
-- the Spec of a device as the controllers write and read them.
pub mod RoundTrip
use edge_fleet_operator_demo.Base.{
  ℕ, ◌%◌, ◌≡◌, ◌≢◌, String, Option, none, some, List, [], false, str_eq, if◌then◌else◌,
}
use edge_fleet_operator_demo.Api.{
  EdgeDeviceSpec, EdgeDeviceStatus, Condition, DevicePhase, unset, provisioning, ready, upgrading,
  degraded, ConditionStatus, holds, fails, unknown,
}
use edge_fleet_operator_demo.Wire.Json.{
  Json, null, str, obj, Fields, no_fields, field, opt_str, opt_num, opt_bool, opt_items, opt_fields,
  write_items, write_map, read_str, read_num, read_bool, read_array, read_struct, read_map,
  and_then, then_set,
}

-- metav1.Time as text: RFC 3339 in UTC, in whole seconds.
pub record TimeFormat : Type 0 where
  pub print : ℕ → String
  pub parse : String → Option ℕ

abbrev pub IsWhole : ℕ → Type 0
IsWhole t = t % 1000000000 ≡ 0

pub record IsFaithful (F : TimeFormat) : Type 0 where
  pub parse-print : (t : ℕ) → IsWhole t → F.parse (F.print t) ≡ some t
  pub print-ne-empty : (t : ℕ) → F.print t ≢ ""

-- The texts of the two string types.
pub show_phase : DevicePhase → String
show_phase unset = ""
show_phase provisioning = "Provisioning"
show_phase ready = "Ready"
show_phase upgrading = "Upgrading"
show_phase degraded = "Degraded"

unfoldable pub show_condition_status : ConditionStatus → String
show_condition_status holds = "True"
show_condition_status fails = "False"
show_condition_status unknown = "Unknown"

-- Other texts are refused by the schema, so that no stored object has them.
pub phase_named : String → Option DevicePhase
phase_named s =
    if str_eq s ""
    then some unset
    else if str_eq s "Provisioning"
    then some provisioning
    else if str_eq s "Ready"
    then some ready
    else if str_eq s "Upgrading"
    then some upgrading
    else if str_eq s "Degraded"
    then some degraded
    else none

pub condition_status_of : String → Option ConditionStatus
condition_status_of s =
    if str_eq s "True"
    then some holds
    else if str_eq s "False"
    then some fails
    else if str_eq s "Unknown"
    then some unknown
    else none

unfoldable pub marshal_spec : EdgeDeviceSpec → Json
marshal_spec spec = obj (
    field "desiredFirmwareVersion" (str spec.desired_firmware_version) (
      field "firmwareURL" (str spec.firmware_url) (
        field "checksumSHA256" (str spec.checksum_sha256) (
          opt_str "region" spec.region (
            opt_fields "deviceLabels" (write_map spec.device_labels)
              (opt_bool "rolloutPaused" spec.rollout_paused no_fields))))))

module _ (F : TimeFormat) where
  unfoldable pub marshal_condition : Condition → Json
  unfolding show_condition_status
  marshal_condition c = obj (
      field "type" (str c.kind) (
        field "status" (str (show_condition_status c.status)) (
          opt_num "observedGeneration" c.observed_generation (
            field "lastTransitionTime" (str (F.print c.last_transition_time))
              (field "reason" (str c.reason) (field "message" (str c.message) no_fields))))))

  -- A pointer that is nil is left out.
  unfoldable pub opt_time : String → Option ℕ → Fields → Fields
  opt_time key none rest = rest
  opt_time key (some t) rest = field key (str (F.print t)) rest

  unfoldable pub marshal_status : EdgeDeviceStatus → Json
  unfolding marshal_condition opt_time show_phase
  marshal_status st = obj (
      opt_str "phase" (show_phase st.phase) (
        opt_items "conditions" (write_items marshal_condition st.conditions) (
          opt_str "currentFirmwareVersion" st.current_firmware_version (
            opt_str "activeSlot" st.active_slot (
              opt_time "lastHeartbeat" st.last_heartbeat
                (opt_num "observedGeneration" st.observed_generation no_fields))))))

  abbrev pub zero_condition : Condition
  zero_condition = record {
    kind = "";
    status = unknown;
    observed_generation = 0;
    last_transition_time = 0;
    reason = "";
    message = "";
  }

  abbrev pub zero_status : EdgeDeviceStatus
  zero_status = record {
    phase = unset;
    conditions = [];
    current_firmware_version = "";
    active_slot = "";
    last_heartbeat = none;
    observed_generation = 0;
  }

  -- Every condition has a status and a time.
  pub read_time : Json → Option ℕ
  read_time (str s) = F.parse s
  read_time _ = none

  pub read_condition_status : Json → Option ConditionStatus
  unfolding condition_status_of
  read_condition_status (str s) = condition_status_of s
  read_condition_status _ = none

  pub read_phase : Json → DevicePhase → Option DevicePhase
  unfolding phase_named
  read_phase (str s) old = phase_named s
  read_phase null old = some old
  read_phase _ old = none

  pub set_resource_condition : String → Json → Condition → Option Condition
  unfolding read_time read_condition_status
  set_resource_condition key v c =
      if str_eq key "type"
      then then_set (read_str v c.kind) (λ x. record c { kind = x })
      else if str_eq key "status"
      then then_set (read_condition_status v) (λ x. record c { status = x })
      else if str_eq key "observedGeneration"
      then then_set (read_num v c.observed_generation) (λ x. record c { observed_generation = x })
      else if str_eq key "lastTransitionTime"
      then then_set (read_time v) (λ x. record c { last_transition_time = x })
      else if str_eq key "reason"
      then then_set (read_str v c.reason) (λ x. record c { reason = x })
      else if str_eq key "message"
      then then_set (read_str v c.message) (λ x. record c { message = x })
      else some c

  pub unmarshal_condition : Json → Option Condition
  unfolding set_resource_condition
  unmarshal_condition v = read_struct set_resource_condition v zero_condition

  pub set_resource_status : String → Json → EdgeDeviceStatus → Option EdgeDeviceStatus
  unfolding read_phase unmarshal_condition read_time
  set_resource_status key v st =
      if str_eq key "phase"
      then then_set (read_phase v st.phase) (λ x. record st { phase = x })
      else if str_eq key "conditions"
      then then_set (read_array unmarshal_condition v) (λ x. record st { conditions = x })
      else if str_eq key "currentFirmwareVersion"
      then then_set (read_str v st.current_firmware_version)
          (λ x. record st { current_firmware_version = x })
      else if str_eq key "activeSlot"
      then then_set (read_str v st.active_slot) (λ x. record st { active_slot = x })
      else if str_eq key "lastHeartbeat"
      then then_set (read_time v) (λ x. record st { last_heartbeat = some x })
      else if str_eq key "observedGeneration"
      then then_set (read_num v st.observed_generation) (λ x. record st { observed_generation = x })
      else some st

  pub unmarshal_status : Json → Option EdgeDeviceStatus
  unfolding set_resource_status
  unmarshal_status v = read_struct set_resource_status v zero_status
