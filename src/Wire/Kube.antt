-- ===== src/Wire/Kube.antt =====
-- The struct tags of internal/agent/kube.go: the status in the body of PutStatus, and the Spec and the
-- status that Get decodes.
pub mod RoundTrip
use edge_fleet_operator_demo.Base.{
  ℕ, String, Option, some, List, StringMap, [], false, str_eq, if◌then◌else◌,
}
use edge_fleet_operator_demo.Agent.Kube.{Device, ObjectMeta, DeviceSpec, DeviceStatus, Condition}
use edge_fleet_operator_demo.Wire.Json.{
  Json, num, str, bool, obj, Fields, no_fields, field, opt_str, opt_num, opt_bool, opt_items,
  opt_fields, write_items, write_map, read_str, read_num, read_bool, read_array, read_struct,
  read_map, and_then, then_set,
}

unfoldable pub encode_condition : Condition → Json
encode_condition c = obj (
    field "type" (str c.kind) (
      field "status" (str c.status) (
        opt_num "observedGeneration" c.observed_generation (
          field "lastTransitionTime" (str c.last_transition_time)
            (field "reason" (str c.reason) (field "message" (str c.message) no_fields))))))

unfoldable pub encode_status : DeviceStatus → Json
unfolding encode_condition
encode_status st = obj (
    opt_str "phase" st.phase (
      opt_items "conditions" (write_items encode_condition st.conditions) (
        opt_str "currentFirmwareVersion" st.current_firmware_version (
          opt_str "activeSlot" st.active_slot (
            opt_str "lastHeartbeat" st.last_heartbeat
              (opt_num "observedGeneration" st.observed_generation no_fields))))))

unfoldable pub encode_spec : DeviceSpec → Json
encode_spec spec = obj (
    field "desiredFirmwareVersion" (str spec.desired_firmware_version) (
      field "firmwareURL" (str spec.firmware_url) (
        field "checksumSHA256" (str spec.checksum_sha256) (
          opt_str "region" spec.region (
            opt_fields "deviceLabels" (write_map spec.device_labels)
              (opt_bool "rolloutPaused" spec.rollout_paused no_fields))))))

-- The zero values that are decoded into.
abbrev pub no_condition : Condition
no_condition = record {
  kind = "";
  status = "";
  observed_generation = 0;
  last_transition_time = "";
  reason = "";
  message = "";
}

abbrev pub no_status : DeviceStatus
no_status = record {
  phase = "";
  conditions = [];
  current_firmware_version = "";
  active_slot = "";
  last_heartbeat = "";
  observed_generation = 0;
}

abbrev pub no_spec : DeviceSpec
no_spec = record {
  desired_firmware_version = "";
  firmware_url = "";
  checksum_sha256 = "";
  region = "";
  device_labels = [];
  rollout_paused = false;
}

-- What a key sets; other keys are skipped.
pub set_condition_field : String → Json → Condition → Option Condition
unfolding read_str read_num
set_condition_field key v c =
    if str_eq key "type"
    then then_set (read_str v c.kind) (λ x. record c { kind = x })
    else if str_eq key "status"
    then then_set (read_str v c.status) (λ x. record c { status = x })
    else if str_eq key "observedGeneration"
    then then_set (read_num v c.observed_generation) (λ x. record c { observed_generation = x })
    else if str_eq key "lastTransitionTime"
    then then_set (read_str v c.last_transition_time) (λ x. record c { last_transition_time = x })
    else if str_eq key "reason"
    then then_set (read_str v c.reason) (λ x. record c { reason = x })
    else if str_eq key "message"
    then then_set (read_str v c.message) (λ x. record c { message = x })
    else some c

pub decode_condition : Json → Option Condition
unfolding set_condition_field read_struct
decode_condition v = read_struct set_condition_field v no_condition

pub set_status_field : String → Json → DeviceStatus → Option DeviceStatus
unfolding read_str read_num read_array decode_condition
set_status_field key v st =
    if str_eq key "phase"
    then then_set (read_str v st.phase) (λ x. record st { phase = x })
    else if str_eq key "conditions"
    then then_set (read_array decode_condition v) (λ x. record st { conditions = x })
    else if str_eq key "currentFirmwareVersion"
    then then_set (read_str v st.current_firmware_version)
        (λ x. record st { current_firmware_version = x })
    else if str_eq key "activeSlot"
    then then_set (read_str v st.active_slot) (λ x. record st { active_slot = x })
    else if str_eq key "lastHeartbeat"
    then then_set (read_str v st.last_heartbeat) (λ x. record st { last_heartbeat = x })
    else if str_eq key "observedGeneration"
    then then_set (read_num v st.observed_generation) (λ x. record st { observed_generation = x })
    else some st

pub decode_status : Json → DeviceStatus → Option DeviceStatus
unfolding set_status_field read_struct
decode_status v old = read_struct set_status_field v old

pub set_spec_field : String → Json → DeviceSpec → Option DeviceSpec
unfolding read_str read_bool read_map
set_spec_field key v spec =
    if str_eq key "desiredFirmwareVersion"
    then then_set (read_str v spec.desired_firmware_version)
        (λ x. record spec { desired_firmware_version = x })
    else if str_eq key "firmwareURL"
    then then_set (read_str v spec.firmware_url) (λ x. record spec { firmware_url = x })
    else if str_eq key "checksumSHA256"
    then then_set (read_str v spec.checksum_sha256) (λ x. record spec { checksum_sha256 = x })
    else if str_eq key "region"
    then then_set (read_str v spec.region) (λ x. record spec { region = x })
    else if str_eq key "deviceLabels"
    then then_set (read_map v spec.device_labels) (λ x. record spec { device_labels = x })
    else if str_eq key "rolloutPaused"
    then then_set (read_bool v spec.rollout_paused) (λ x. record spec { rollout_paused = x })
    else some spec
