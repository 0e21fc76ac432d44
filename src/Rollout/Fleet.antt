-- ===== src/Rollout/Fleet.antt =====
-- The fleet arithmetic of internal/controller/fleetrollout_controller.go, and the statuses that it
-- computes.
use Prim.Native.String.{compare}
use text.Mathlib.Text.{is_lt}
use edge_fleet_operator_demo.Base.{
  ℕ, String, Bool, true, false, not, ◌&&◌, ◌||◌, Option, none, some, List, [], ◌∷◌, ◌++◌, str_eq,
  ◌==◌, if◌then◌else◌,
}
use edge_fleet_operator_demo.Base.Words.{i32_add, i32_sub, i32_mul, i32_leb, i32_ltb}
use edge_fleet_operator_demo.Api.{
  EdgeDevice, FleetRollout, FleetRolloutSpec, FleetRolloutStatus, Condition, RolloutPhase, degraded,
  holds, fails, condition_firmware_synced, condition_breaker_tripped, phase_eq, status_eq,
  rollout_phase_eq,
}
use edge_fleet_operator_demo.Api.Machinery.{Machinery}

-- The counters of the fleet arithmetic, and the devices that no rollout has reached.
pub record Tally : Type 0 where
  pub targeted : ℕ
  pub succeeded : ℕ
  pub failed : ℕ
  pub untargeted : List EdgeDevice

abbrev pub no_devices : Tally
no_devices = record { targeted = 0; succeeded = 0; failed = 0; untargeted = [] }

-- What the loop over `untargeted` keeps.
pub record Progress : Type 0 where
  pub capacity : ℕ
  pub targeted : ℕ
  pub in_flight : ℕ

-- One more device was targeted.
abbrev pub advance : Progress → Progress
advance p = record {
  capacity = i32_sub p.capacity 1;
  targeted = i32_add p.targeted 1;
  in_flight = i32_add p.in_flight 1;
}

-- `<` on texts, by bytes.
abbrev pub name_before : String → String → Bool
name_before s t = is_lt (compare s t)

-- sort.Slice by name. Names are unique in a namespace, so any sort has this result.
unfoldable pub insert_by_name : EdgeDevice → List EdgeDevice → List EdgeDevice
insert_by_name d [] = d ∷ []
insert_by_name d (e ∷ es) =
    if name_before e.metadata.name d.metadata.name then e ∷ insert_by_name d es else d ∷ e ∷ es

unfoldable pub sort_by_name : List EdgeDevice → List EdgeDevice
unfolding insert_by_name
sort_by_name [] = []
sort_by_name (d ∷ ds) = insert_by_name d (sort_by_name ds)

-- Both writes to a device's Spec.
unfoldable pub pause : EdgeDevice → EdgeDevice
pause dev = record dev { spec = record dev.spec { rollout_paused = true } }

unfoldable pub target : FleetRolloutSpec → EdgeDevice → EdgeDevice
target ro dev = record dev {
  spec = record dev.spec {
    desired_firmware_version = ro.target_version;
    firmware_url = ro.firmware_url;
    checksum_sha256 = ro.checksum_sha256;
  };
}

-- An upgrade that ended in failure, as the agent reports it in the FirmwareSynced condition.
unfoldable pub upgrade_failed : Option Condition → Bool
unfolding status_eq
upgrade_failed none = false
upgrade_failed (some c) = status_eq c.status fails && not (str_eq c.reason "UpgradeInProgress")

-- The comparison of the two BreakerTripped conditions.
unfoldable pub same_breaker : Option Condition → Option Condition → Bool
unfolding status_eq
same_breaker none none = true
same_breaker (some a) (some b) = status_eq a.status b.status && str_eq a.reason b.reason
same_breaker _ _ = false

-- The transition time is filled in by SetStatusCondition.
unfoldable pub breaker_condition : ℕ → Bool → Condition
breaker_condition generation tripped =
    let healthy : Condition = record {
      kind = condition_breaker_tripped;
      status = fails;
      observed_generation = generation;
      last_transition_time = 0;
      reason = "Healthy";
      message = "failure rate below threshold";
    } in
    if tripped
    then record healthy {
      status = holds;
      reason = "FailureRateExceeded";
      message = "rollout halted; fix the cause and unpause devices to resume";
    }
    else healthy

-- failed*100 >= threshold*targeted, in int32.
unfoldable pub breaker_tripped : FleetRolloutSpec → Tally → Bool
breaker_tripped ro t =
    i32_ltb 0 t.targeted
    && i32_leb (i32_mul ro.failure_threshold_percent t.targeted) (i32_mul t.failed 100)

unfoldable pub in_flight : Tally → ℕ
in_flight t = i32_sub (i32_sub t.targeted t.succeeded) t.failed

module _ (M : Machinery) where
  unfoldable pub device_failed : EdgeDevice → Bool
  unfolding upgrade_failed phase_eq status_eq
  device_failed dev =
      if phase_eq dev.status.phase degraded
      then true
      else upgrade_failed (M.find_status_condition dev.status.conditions condition_firmware_synced)

  -- One round of the fleet arithmetic.
  unfoldable pub tally_device : String → EdgeDevice → Tally → Tally
  tally_device version dev t =
      if str_eq dev.status.current_firmware_version version
      then record t { targeted = i32_add t.targeted 1; succeeded = i32_add t.succeeded 1 }
      else if not (str_eq dev.spec.desired_firmware_version version)
      then record t { untargeted = t.untargeted ++ (dev ∷ []) }
      else if device_failed dev
      then record t { targeted = i32_add t.targeted 1; failed = i32_add t.failed 1 }
      else record t { targeted = i32_add t.targeted 1 }

  unfoldable pub tally_loop : String → List EdgeDevice → Tally → Tally
  tally_loop version [] t = t
  tally_loop version (dev ∷ devs) t = tally_loop version devs (tally_device version dev t)

  unfoldable pub tally : String → List EdgeDevice → Tally
  unfolding tally_loop
  tally version devs = tally_loop version devs no_devices

  unfoldable pub rollout_status_equal : FleetRolloutStatus → FleetRolloutStatus → Bool
  unfolding rollout_phase_eq status_eq
  rollout_status_equal a b =
      if not (rollout_phase_eq a.phase b.phase)
        || not (a.selected == b.selected)
        || not (a.targeted == b.targeted)
        || not (a.succeeded == b.succeeded)
        || not (a.failed == b.failed)
        || not (a.observed_generation == b.observed_generation)
      then false
      else same_breaker (M.find_status_condition a.conditions condition_breaker_tripped)
          (M.find_status_condition b.conditions condition_breaker_tripped)

  -- The status that the pass computes, before it is compared with the old one.
  unfoldable pub new_status :
      FleetRollout → RolloutPhase → ℕ → ℕ → Tally → Bool → FleetRolloutStatus
  new_status ro phase selected targeted t tripped = record ro.status {
    phase = phase;
    selected = selected;
    targeted = targeted;
    succeeded = t.succeeded;
    failed = t.failed;
    observed_generation = ro.metadata.generation;
    conditions =
        M.set_status_condition ro.status.conditions
          (breaker_condition ro.metadata.generation tripped);
  }
