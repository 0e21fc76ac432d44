-- ===== src/Tests/Kube.antt =====
-- The theorems of the agent's API client on a server with a conflict.
use edge_fleet_operator_demo.Base.{ℕ, zero, suc, ◌≡◌, ◌≢◌, String, false, none, some, [], ◌∷◌}
use edge_fleet_operator_demo.Agent.Kube.{
  DeviceStatus, Condition, Device, response, Transport, update_status, set_condition, stamped,
}
use edge_fleet_operator_demo.Agent.Kube.Conflict.{Ends, logging, update_status-Ends}
use edge_fleet_operator_demo.Agent.Kube.Conditions.{find, Replaces, set_condition_lem}

abbrev synced : String → Condition
synced status = record {
  kind = "FirmwareSynced";
  status = status;
  observed_generation = 2;
  last_transition_time = "12:00";
  reason = "Synced";
  message = "";
}

abbrev report : DeviceStatus
report = record {
  phase = "Ready";
  conditions = synced "False" ∷ [];
  current_firmware_version = "v1";
  active_slot = "A";
  last_heartbeat = "11:59";
  observed_generation = 1;
}

abbrev pub sensor : Device
sensor = record {
  api_version = "";
  kind = "";
  metadata = record {
    name = "a";
    namespace = "fleet";
    resource_version = "1";
    generation = 2;
    uid = "7";
  };
  spec = record {
    desired_firmware_version = "v2";
    firmware_url = "";
    checksum_sha256 = "";
    region = "";
    device_labels = [];
    rollout_paused = false;
  };
  status = report;
}

-- The number of the answers that will be 409.
abbrev pub busy : Transport
busy = record {
  World = ℕ;
  get_request = λ n. (response 200 (some sensor), n);
  put_request = λ _ n. elim n [ zero ↦ (response 200 none, zero) | suc k ↦ (response 409 none, k) ];
}

abbrev change : Device → Device
change = stamped (λ st _. set_condition (synced "True") st) 2

update_status-Ends_example :
    let r = update_status (logging busy) (λ _. change) (record { inner = 1; log = [] }) in
    Ends {W = ℕ} (λ _. change) r.0 r.1.log
update_status-Ends_example = update_status-Ends busy (λ _. change) 1

set_condition_lem_example :
    ((c : Condition) × (find "FirmwareSynced" (set_condition (synced "True") report).conditions
        ≡ some c)
      × Replaces (find "FirmwareSynced" report.conditions) (synced "True") c)
    × ((k : String)
        → (synced "True").kind ≢ k
        → find k (set_condition (synced "True") report).conditions ≡ find k report.conditions)
    × (record (set_condition (synced "True") report) { conditions = report.conditions } ≡ report)
set_condition_lem_example = set_condition_lem (synced "True") report
