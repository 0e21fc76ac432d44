-- ===== src/Device/Status.antt =====
-- The status in internal/controller/edgedevice_controller.go: projectStatus and statusEqual.
use edge_fleet_operator_demo.Base.{
  ℕ, ◌-◌, String, ◌<>◌, Bool, true, false, not, ◌&&◌, Option, none, some, str_eq, ltb, leb, ◌==◌,
  if◌then◌else◌,
}
use edge_fleet_operator_demo.Base.Words.{i64_add, i64_sub, i64_ltb, i64_half, i64_mod}
use edge_fleet_operator_demo.Api.{
  EdgeDevice, EdgeDeviceStatus, Condition, DevicePhase, provisioning, ready, upgrading, degraded,
  ConditionStatus, holds, fails, unknown, condition_healthy, condition_firmware_synced, phase_eq,
  status_eq,
}
use edge_fleet_operator_demo.Api.Machinery.{Machinery}

-- Durations are int64 nanoseconds, as bit patterns.
abbrev pub second : ℕ
second = 1000000000

abbrev pub default_heartbeat_timeout : ℕ
default_heartbeat_timeout = 30000000000

-- The fields of the reconciler: the configured timeout, and how a Duration is printed.
pub record Config : Type 0 where
  pub heartbeat_timeout : ℕ
  pub show_duration : ℕ → String

-- The clock as it is read by a pass, twice where a heartbeat is fresh.
pub record Clock : Type 0 where
  pub first : ℕ
  pub later : ℕ

-- time.Time.Sub: the difference, cut off at the ends of the range.
unfoldable pub time_sub : ℕ → ℕ → ℕ
time_sub t u =
    if leb u t
    then (if ltb (t - u) i64_half then t - u else i64_half - 1)
    else if ltb (u - t) i64_half
    then i64_mod - (u - t)
    else i64_half

unfoldable pub timeout_of : Config → ℕ
timeout_of cfg =
    if cfg.heartbeat_timeout == 0 then default_heartbeat_timeout else cfg.heartbeat_timeout

-- The Healthy condition; the transition time is filled in by SetStatusCondition.
abbrev pub healthy : ℕ → ConditionStatus → String → String → Condition
healthy generation status reason message = record {
  kind = condition_healthy;
  status = status;
  observed_generation = generation;
  last_transition_time = 0;
  reason = reason;
  message = message;
}

-- A FirmwareSynced condition that tells of a failed upgrade.
unfoldable pub reports_failure : Option Condition → Bool
unfolding status_eq
reports_failure none = false
reports_failure (some c) = status_eq c.status fails && not (str_eq c.reason "UpgradeInProgress")

-- How long until the heartbeat is too old, and a second more, if that is in the future.
unfoldable pub requeue_of : ℕ → ℕ → ℕ → ℕ
requeue_of timeout now heartbeat =
    let remaining = i64_add (i64_sub timeout (time_sub now heartbeat)) second in
    if i64_ltb 0 remaining then remaining else timeout

module _ (M : Machinery) where
  -- The phase of a device whose heartbeat is fresh.
  unfoldable pub live_phase : EdgeDevice → DevicePhase
  unfolding reports_failure
  live_phase dev =
      if reports_failure (M.find_status_condition dev.status.conditions condition_firmware_synced)
      then degraded
      else if not (str_eq dev.status.current_firmware_version dev.spec.desired_firmware_version)
      then upgrading
      else ready

  abbrev pub judged : EdgeDevice → DevicePhase → Condition → EdgeDeviceStatus
  judged dev phase c = record dev.status {
    phase = phase;
    conditions = M.set_status_condition dev.status.conditions c;
  }

  -- The three cases of projectStatus.
  unfoldable pub project_heartbeat : Config → Clock → EdgeDevice → Option ℕ → EdgeDeviceStatus × ℕ
  unfolding timeout_of time_sub live_phase requeue_of
  project_heartbeat cfg clock dev none = (
    judged dev provisioning (
        healthy dev.metadata.generation unknown "AwaitingFirstHeartbeat"
          "device has not reported in yet"),
    timeout_of cfg,
  )
  project_heartbeat cfg clock dev (some heartbeat) =
      if i64_ltb (timeout_of cfg) (time_sub clock.first heartbeat)
      then (
        judged dev degraded (
            healthy dev.metadata.generation fails "HeartbeatTimeout"
              ("no heartbeat for more than " <> cfg.show_duration (timeout_of cfg))),
        timeout_of cfg,
      )
      else (
        judged dev (live_phase dev)
            (healthy dev.metadata.generation holds "HeartbeatFresh" "agent is reporting"),
        requeue_of (timeout_of cfg) clock.later heartbeat,
      )

  -- projectStatus
  unfoldable pub project_status : Config → Clock → EdgeDevice → EdgeDeviceStatus × ℕ
  unfolding project_heartbeat
  project_status cfg clock dev = project_heartbeat cfg clock dev dev.status.last_heartbeat

-- The comparison of the two Healthy conditions.
unfoldable pub same_health : Option Condition → Option Condition → Bool
unfolding status_eq
same_health none none = true
same_health (some a) (some b) =
    status_eq a.status b.status
    && str_eq a.reason b.reason
    && a.observed_generation == b.observed_generation
same_health _ _ = false

module _ (M : Machinery) where
  unfoldable pub status_equal : EdgeDeviceStatus → EdgeDeviceStatus → Bool
  unfolding phase_eq same_health
  status_equal a b =
      if not (phase_eq a.phase b.phase)
      then false
      else same_health (M.find_status_condition a.conditions condition_healthy)
          (M.find_status_condition b.conditions condition_healthy)
