-- ===== src/Wire/Mutations.antt =====
-- The status that the controllers read after each report of runUpgrade in internal/agent/agent.go.
use mathlib.Core.List.{map}
use edge_fleet_operator_demo.Base.{ℕ, ◌<◌, ◌≡◌, ap, String, ◌<>◌}
use edge_fleet_operator_demo.Base.Words.{i64_half}
use edge_fleet_operator_demo.Api.{
  EdgeDeviceStatus, Condition, ConditionStatus, holds, fails, condition_firmware_synced,
}
use edge_fleet_operator_demo.Agent.Kube.{DeviceSpec, DeviceStatus, upsert, set_condition}
use edge_fleet_operator_demo.Agent.Transaction.{started_status, failed_status, upgraded_status}
use edge_fleet_operator_demo.Wire.Resource.{TimeFormat, IsWhole, show_condition_status}
use edge_fleet_operator_demo.Wire.Resource.RoundTrip.{Stored}
use edge_fleet_operator_demo.Wire.Agree.{seen_condition, seen_status}
use edge_fleet_operator_demo.Wire.Exchange.{upserted, seen-upserted, upserted-Stored}

-- The reports of a transaction: its start, its failure with a reason and an error text, and its end
-- in a slot.
pub data Report : Type 0 where
  started : Report
  gave_up : String → String → Report
  upgraded : String → Report

-- The mutation of each, as reportStatus makes it.
abbrev pub mutation : Report → DeviceSpec → String → DeviceStatus → ℕ → DeviceStatus
mutation started spec = started_status spec
mutation (gave_up reason message) spec = failed_status reason message
mutation (upgraded slot) spec = upgraded_status spec slot

abbrev pub reported : Report → DeviceSpec → String → ℕ → DeviceStatus → DeviceStatus
reported r spec now gen st = record (mutation r spec now st gen) { observed_generation = gen }

-- The FirmwareSynced condition of each report, as the controllers see it.
abbrev pub status_of : Report → ConditionStatus
status_of started = fails
status_of (gave_up reason message) = fails
status_of (upgraded slot) = holds

abbrev pub reason_of : Report → String
reason_of started = "UpgradeInProgress"
reason_of (gave_up reason message) = reason
reason_of (upgraded slot) = "Synced"

abbrev pub message_of : Report → String → String
message_of started version = "downloading " <> version
message_of (gave_up reason message) version = message
message_of (upgraded slot) version = "upgraded to " <> version

abbrev pub condition_of : Report → String → ℕ → ℕ → Condition
condition_of r version now gen = record {
  kind = condition_firmware_synced;
  status = status_of r;
  observed_generation = gen;
  last_transition_time = now;
  reason = reason_of r;
  message = message_of r version;
}

-- The version and the slot that a report leaves.
abbrev pub version_of : Report → String → String → String
version_of (upgraded slot) version old = version
version_of _ version old = old

abbrev pub slot_of : Report → String → String
slot_of (upgraded slot) old = slot
slot_of _ old = old

abbrev pub after : Report → String → ℕ → ℕ → EdgeDeviceStatus → EdgeDeviceStatus
after r version now gen st = record st {
  conditions = upserted (condition_of r version now gen) st.conditions;
  current_firmware_version = version_of r version st.current_firmware_version;
  active_slot = slot_of r st.active_slot;
  observed_generation = gen;
}

with_conditions :
    (F : TimeFormat) (r : Report) (spec : DeviceSpec) (now gen : ℕ) (st : EdgeDeviceStatus)
    → let version = spec.desired_firmware_version in
      let c = condition_of r version now gen in
      let new = seen_status F (after r version now gen st) in
      ◌≡◌ {A = DeviceStatus}
        (record new {
          conditions = upsert (seen_condition F c) (map (seen_condition F) st.conditions);
        })
        new
with_conditions F r spec now gen st =
    let version = spec.desired_firmware_version in
    let c = condition_of r version now gen in
    let new = seen_status F (after r version now gen st) in
    ap (λ cs. record new { conditions = cs }) (seen-upserted F c st.conditions)

pub seen-after :
    (F : TimeFormat) (r : Report) (spec : DeviceSpec) (now gen : ℕ) (st : EdgeDeviceStatus)
    → reported r spec (F.print now) gen (seen_status F st)
      ≡ seen_status F (after r spec.desired_firmware_version now gen st)
unfolding set_condition show_condition_status
seen-after F started spec now gen st = with_conditions F started spec now gen st
seen-after F (gave_up reason message) spec now gen st =
    with_conditions F (gave_up reason message) spec now gen st
seen-after F (upgraded slot) spec now gen st = with_conditions F (upgraded slot) spec now gen st

pub after-Stored :
    (r : Report) (version : String) (now gen : ℕ) (st : EdgeDeviceStatus)
    → IsWhole now
    → gen < i64_half
    → Stored st
    → Stored (after r version now gen st)
after-Stored r version now gen st whole small s = record {
  conditions =
      upserted-Stored (condition_of r version now gen) st.conditions (whole, small) s.conditions;
  beat = s.beat;
  generation = small;
}
