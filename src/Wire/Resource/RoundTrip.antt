-- ===== src/Wire/Resource/RoundTrip.antt =====
-- The controllers read the statuses that they write, by the struct tags of
-- api/v1alpha1/edgedevice_types.go.
use edge_fleet_operator_demo.Base.{ℕ, ◌<◌, ◌≡◌, refl, ap, ◌∙◌, Option, none, some, All}
use edge_fleet_operator_demo.Base.Words.{i64_half}
use edge_fleet_operator_demo.Api.{
  EdgeDeviceStatus, Condition, DevicePhase, unset, provisioning, ready, upgrading, degraded,
  ConditionStatus, holds, fails, unknown,
}
use edge_fleet_operator_demo.Wire.Json.{Fields, read_struct, read_str, read_fields, read_array}
use edge_fleet_operator_demo.Wire.Json.Reads.{
  read-opt_str, read-opt_num, read-opt_items, read_num-num, read_items-write, write_items-nil,
}
use edge_fleet_operator_demo.Wire.Resource.{
  TimeFormat, IsWhole, IsFaithful, show_phase, show_condition_status, phase_named,
  condition_status_of, zero_condition, zero_status, opt_time, marshal_condition, marshal_status,
  unmarshal_condition, set_resource_condition, unmarshal_status, set_resource_status,
}

pub phase_named-show : (p : DevicePhase) → phase_named (show_phase p) ≡ some p
unfolding phase_named show_phase
phase_named-show unset = refl
phase_named-show provisioning = refl
phase_named-show ready = refl
phase_named-show upgrading = refl
phase_named-show degraded = refl

show_phase-empty : (p : DevicePhase) → show_phase p ≡ "" → p ≡ unset
unfolding show_phase
show_phase-empty unset e = refl
show_phase-empty provisioning e = absurd (cc e)
show_phase-empty ready e = absurd (cc e)
show_phase-empty upgrading e = absurd (cc e)
show_phase-empty degraded e = absurd (cc e)

condition_status_of-show :
    (s : ConditionStatus) → condition_status_of (show_condition_status s) ≡ some s
unfolding condition_status_of show_condition_status
condition_status_of-show holds = refl
condition_status_of-show fails = refl
condition_status_of-show unknown = refl

-- A condition whose time is in whole seconds and whose number is an int64.
abbrev pub StoredCondition : Condition → Type 0
StoredCondition c = IsWhole c.last_transition_time × (c.observed_generation < i64_half)

abbrev pub WholeTime : Option ℕ → Type 0
WholeTime none = Unit
WholeTime (some t) = IsWhole t

-- A status as a server stores it: times in whole seconds, numbers that are int64.
pub record Stored (st : EdgeDeviceStatus) : Type 0 where
  pub conditions : All StoredCondition st.conditions
  pub beat : WholeTime st.last_heartbeat
  pub generation : st.observed_generation < i64_half

module _ (F : TimeFormat) (faithful : IsFaithful F) where
  unmarshal-condition :
      (c : Condition) → StoredCondition c → unmarshal_condition F (marshal_condition F c) ≡ some c
  unfolding unmarshal_condition marshal_condition set_resource_condition read_struct read_str
      read_fields
  unmarshal-condition c stored =
      let start : Condition = record (zero_condition F) { kind = c.kind; status = c.status } in
      let full : Condition = record start { observed_generation = c.observed_generation } in
      let shown = condition_status_of-show c.status in
      let number = read_num-num c.observed_generation 0 stored.1 in
      let time = faithful.parse-print c.last_transition_time stored.0 in
      rw shown (
        read-opt_num (set_resource_condition F) "observedGeneration" start full
          c.observed_generation _ (rw number refl) (λ e. rw e refl)
        ∙ rw time refl)

  read-heartbeat :
      (o : Option ℕ) (rest : Fields) (st : EdgeDeviceStatus)
      → WholeTime o
      → st.last_heartbeat ≡ none
      → read_fields (set_resource_status F) (opt_time F "lastHeartbeat" o rest) st
        ≡ read_fields (set_resource_status F) rest (record st { last_heartbeat = o })
  unfolding read_fields opt_time set_resource_status
  read-heartbeat none rest st whole e =
      ap (λ o. read_fields (set_resource_status F) rest (record st { last_heartbeat = o })) e
  read-heartbeat (some t) rest st whole e = rw (faithful.parse-print t whole) refl

  -- A status that a server stores is read as it was written.
  pub unmarshal-marshal :
      (st : EdgeDeviceStatus) → Stored st → unmarshal_status F (marshal_status F st) ≡ some st
  unfolding unmarshal_status marshal_status set_resource_status read_struct read_str read_array
      read_fields
  unmarshal-marshal st stored =
      let set = set_resource_status F in
      let s1 : EdgeDeviceStatus = record (zero_status F) { phase = st.phase } in
      let s2 : EdgeDeviceStatus = record s1 { conditions = st.conditions } in
      let s3 : EdgeDeviceStatus = record s2 {
        current_firmware_version = st.current_firmware_version;
      } in
      let s4 : EdgeDeviceStatus = record s3 { active_slot = st.active_slot } in
      let s5 : EdgeDeviceStatus = record s4 { last_heartbeat = st.last_heartbeat } in
      let items =
        read_items-write (unmarshal_condition F) (marshal_condition F) StoredCondition st.conditions
          unmarshal-condition stored.conditions in
      let number = read_num-num st.observed_generation 0 stored.generation in
      read-opt_str set "phase" (zero_status F) s1 (show_phase st.phase) _
        (rw (phase_named-show st.phase) refl) (λ e. rw (show_phase-empty st.phase e) refl)
      ∙ read-opt_items set "conditions" s1 s2 _ _ (rw items refl)
          (λ e. rw (write_items-nil (marshal_condition F) st.conditions e) refl)
      ∙ read-opt_str set "currentFirmwareVersion" s2 s3 st.current_firmware_version _ refl
          (λ e. rw e refl)
      ∙ read-opt_str set "activeSlot" s3 s4 st.active_slot _ refl (λ e. rw e refl)
      ∙ read-heartbeat st.last_heartbeat _ s4 stored.beat refl
      ∙ read-opt_num set "observedGeneration" s5 st st.observed_generation _ (rw number refl)
          (λ e. rw e refl)
