-- ===== src/Wire/Kube/RoundTrip.antt =====
-- The agent reads the Spec and the status as it writes them, by the struct tags of
-- internal/agent/kube.go.
use edge_fleet_operator_demo.Base.{◌<◌, ◌≡◌, refl, ◌∙◌, some, All}
use edge_fleet_operator_demo.Base.Words.{i64_half}
use edge_fleet_operator_demo.Agent.Kube.{DeviceSpec, DeviceStatus, Condition}
use edge_fleet_operator_demo.Wire.Json.{
  read_struct, read_str, read_bool, read_map, read_fields, read_array,
}
use edge_fleet_operator_demo.Wire.Json.Reads.{
  read-opt_str, read-opt_num, read-opt_bool, read-opt_items, read-opt_fields, read_num-num,
  read_items-write, write_items-nil, read_entries-write, write_map-nil,
}
use edge_fleet_operator_demo.Wire.Kube.{
  no_condition, no_status, no_spec, encode_condition, decode_condition, set_condition_field,
  encode_status, decode_status, set_status_field, encode_spec, set_spec_field,
}

-- The numbers are int64.
abbrev pub FitsCondition : Condition → Type 0
FitsCondition c = c.observed_generation < i64_half

abbrev pub FitsStatus : DeviceStatus → Type 0
FitsStatus st = All FitsCondition st.conditions × (st.observed_generation < i64_half)

pub decode-encode_condition :
    (c : Condition) → FitsCondition c → decode_condition (encode_condition c) ≡ some c
unfolding decode_condition encode_condition set_condition_field read_struct read_str read_fields
decode-encode_condition c fits =
    let start : Condition = record no_condition { kind = c.kind; status = c.status } in
    let number = read_num-num c.observed_generation 0 fits in
    read-opt_num set_condition_field "observedGeneration" start
      (record start { observed_generation = c.observed_generation }) c.observed_generation _
      (rw number refl) (λ e. rw e refl)

pub decode-encode_status :
    (st : DeviceStatus) → FitsStatus st → decode_status (encode_status st) no_status ≡ some st
unfolding decode_status encode_status set_status_field read_struct read_str read_array read_fields
decode-encode_status st fits =
    let s1 : DeviceStatus = record no_status { phase = st.phase } in
    let s2 : DeviceStatus = record s1 { conditions = st.conditions } in
    let s3 : DeviceStatus = record s2 { current_firmware_version = st.current_firmware_version } in
    let s4 : DeviceStatus = record s3 { active_slot = st.active_slot } in
    let s5 : DeviceStatus = record s4 { last_heartbeat = st.last_heartbeat } in
    let items =
      read_items-write decode_condition encode_condition FitsCondition st.conditions
        decode-encode_condition fits.0 in
    let number = read_num-num st.observed_generation 0 fits.1 in
    read-opt_str set_status_field "phase" no_status s1 st.phase _ refl (λ e. rw e refl)
    ∙ read-opt_items set_status_field "conditions" s1 s2 _ _ (rw items refl)
        (λ e. rw (write_items-nil encode_condition st.conditions e) refl)
    ∙ read-opt_str set_status_field "currentFirmwareVersion" s2 s3 st.current_firmware_version _
        refl (λ e. rw e refl)
    ∙ read-opt_str set_status_field "activeSlot" s3 s4 st.active_slot _ refl (λ e. rw e refl)
    ∙ read-opt_str set_status_field "lastHeartbeat" s4 s5 st.last_heartbeat _ refl (λ e. rw e refl)
    ∙ read-opt_num set_status_field "observedGeneration" s5 st st.observed_generation _
        (rw number refl) (λ e. rw e refl)

pub decode-encode_spec :
    (spec : DeviceSpec) → read_struct set_spec_field (encode_spec spec) no_spec ≡ some spec
unfolding encode_spec set_spec_field read_struct read_str read_bool read_map read_fields
decode-encode_spec spec =
    let s1 : DeviceSpec = record no_spec {
      desired_firmware_version = spec.desired_firmware_version;
      firmware_url = spec.firmware_url;
      checksum_sha256 = spec.checksum_sha256;
    } in
    let s2 : DeviceSpec = record s1 { region = spec.region } in
    let s3 : DeviceSpec = record s2 { device_labels = spec.device_labels } in
    read-opt_str set_spec_field "region" s1 s2 spec.region _ refl (λ e. rw e refl)
    ∙ read-opt_fields set_spec_field "deviceLabels" s2 s3 _ _
        (rw (read_entries-write spec.device_labels) refl)
        (λ e. rw (write_map-nil spec.device_labels e) refl)
    ∙ read-opt_bool set_spec_field "rolloutPaused" s3 spec spec.rollout_paused _ refl
        (λ e. rw e refl)
