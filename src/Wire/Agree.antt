-- ===== src/Wire/Agree.antt =====
-- The struct tags of internal/agent/kube.go against those of api/v1alpha1/edgedevice_types.go: what
-- one side writes is the JSON of the same fields on the other.
use mathlib.Core.List.{map}
use edge_fleet_operator_demo.Base.{
  ℕ, ◌≡◌, refl, sym, ap, ◌∙◌, String, Option, none, some, List, All, [], ◌∷◌, Bool-cases, inl, inr,
  eq_iff, str_eq,
}
use edge_fleet_operator_demo.Api.{EdgeDeviceSpec, EdgeDeviceStatus}
use edge_fleet_operator_demo.Api
use edge_fleet_operator_demo.Agent.Kube.{DeviceSpec, DeviceStatus, Condition}
use edge_fleet_operator_demo.Wire.Json.{Fields, opt_str, write_items, read_struct}
use edge_fleet_operator_demo.Wire.Kube.{
  no_status, no_spec, encode_condition, encode_status, decode_status, encode_spec, set_spec_field,
}
use edge_fleet_operator_demo.Wire.Kube.RoundTrip.{
  FitsCondition, FitsStatus, decode-encode_status, decode-encode_spec,
}
use edge_fleet_operator_demo.Wire.Resource.{
  TimeFormat, IsFaithful, show_phase, show_condition_status, opt_time, marshal_condition,
  marshal_status, marshal_spec, unmarshal_status,
}
use edge_fleet_operator_demo.Wire.Resource.RoundTrip.{StoredCondition, Stored, unmarshal-marshal}

-- A Spec as the agent sees it.
abbrev pub seen_spec : EdgeDeviceSpec → DeviceSpec
seen_spec spec = record {
  desired_firmware_version = spec.desired_firmware_version;
  firmware_url = spec.firmware_url;
  checksum_sha256 = spec.checksum_sha256;
  region = spec.region;
  device_labels = spec.device_labels;
  rollout_paused = spec.rollout_paused;
}

decode-marshal_spec :
    (spec : EdgeDeviceSpec)
    → read_struct set_spec_field (marshal_spec spec) no_spec ≡ some (seen_spec spec)
unfolding marshal_spec encode_spec
decode-marshal_spec spec = decode-encode_spec (seen_spec spec)

module _ (F : TimeFormat) where
  abbrev pub seen_condition : Api.Condition → Condition
  seen_condition c = record {
    kind = c.kind;
    status = show_condition_status c.status;
    observed_generation = c.observed_generation;
    last_transition_time = F.print c.last_transition_time;
    reason = c.reason;
    message = c.message;
  }

  abbrev pub seen_time : Option ℕ → String
  seen_time none = ""
  seen_time (some t) = F.print t

  abbrev pub seen_status : EdgeDeviceStatus → DeviceStatus
  seen_status st = record {
    phase = show_phase st.phase;
    conditions = map seen_condition st.conditions;
    current_firmware_version = st.current_firmware_version;
    active_slot = st.active_slot;
    last_heartbeat = seen_time st.last_heartbeat;
    observed_generation = st.observed_generation;
  }

  same_conditions :
      (cs : List Api.Condition)
      → write_items (marshal_condition F) cs ≡ write_items encode_condition (map seen_condition cs)
  unfolding write_items marshal_condition encode_condition
  same_conditions [] = refl
  same_conditions (c ∷ cs) = rw (same_conditions cs) refl

  fits_conditions :
      (cs : List Api.Condition) → All StoredCondition cs → All FitsCondition (map seen_condition cs)
  fits_conditions [] h = tt
  fits_conditions (c ∷ cs) h = (h.0.1, fits_conditions cs h.1)

  same_time :
      IsFaithful F
      → (o : Option ℕ) (rest : Fields)
      → opt_time F "lastHeartbeat" o rest ≡ opt_str "lastHeartbeat" (seen_time o) rest
  unfolding opt_time opt_str
  same_time faithful none rest = refl
  same_time faithful (some t) rest = elim (Bool-cases (str_eq (F.print t) "")) [
    | inl e ↦ absurd (faithful.print-ne-empty t ((eq_iff (F.print t) "").0 e))
    | inr n ↦ rw n refl
  ]

  marshal-seen :
      IsFaithful F → (st : EdgeDeviceStatus) → marshal_status F st ≡ encode_status (seen_status st)
  unfolding marshal_status encode_status
  marshal-seen faithful st =
      rw (same_conditions st.conditions, same_time faithful st.last_heartbeat) refl

  Stored-Fits : (st : EdgeDeviceStatus) → Stored st → FitsStatus (seen_status st)
  Stored-Fits st stored = (fits_conditions st.conditions stored.conditions, stored.generation)

  pub decode-marshal :
      IsFaithful F
      → (st : EdgeDeviceStatus) → Stored st
      → decode_status (marshal_status F st) no_status ≡ some (seen_status st)
  decode-marshal faithful st stored =
      ap (λ v. decode_status v no_status) (marshal-seen faithful st)
      ∙ decode-encode_status (seen_status st) (Stored-Fits st stored)

  pub unmarshal-encode :
      IsFaithful F
      → (st : EdgeDeviceStatus) → Stored st
      → unmarshal_status F (encode_status (seen_status st)) ≡ some st
  unmarshal-encode faithful st stored =
      ap (unmarshal_status F) (sym (marshal-seen faithful st))
      ∙ unmarshal-marshal F faithful st stored

  -- The agent reads each field of the status that the controllers stored, and what it writes back the
  -- controllers read as they stored it; and it reads each field of the Spec. The times in the status
  -- are whole seconds and its numbers are int64, and the format of the times can be read back.
  pub tags_agree :
      IsFaithful F
      → (st : EdgeDeviceStatus) (spec : EdgeDeviceSpec) → Stored st
      → (decode_status (marshal_status F st) no_status ≡ some (seen_status st))
        × (unmarshal_status F (encode_status (seen_status st)) ≡ some st)
        × (read_struct set_spec_field (marshal_spec spec) no_spec ≡ some (seen_spec spec))
  tags_agree faithful st spec stored = (
    decode-marshal faithful st stored,
    unmarshal-encode faithful st stored,
    decode-marshal_spec spec,
  )
