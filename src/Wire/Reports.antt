-- ===== src/Wire/Reports.antt =====
-- What the reports of runUpgrade in internal/agent/agent.go are to the two controllers.
use edge_fleet_operator_demo.Base.{
  ℕ, ◌<◌, ◌-◌, ◌≡◌, ◌≢◌, refl, sym, ◌∙◌, String, Option, some, List, Bool-cases, inl, inr, eq_iff,
  eq_refl, str_eq, not, ◌&&◌, arith, if◌then◌else◌,
}
use edge_fleet_operator_demo.Base.Words.{i64_half, i64_ltb}
use edge_fleet_operator_demo.Api.{
  EdgeDevice, EdgeDeviceStatus, Condition, DevicePhase, ready, upgrading, degraded, phase_eq,
  ConditionStatus, fails, status_eq, condition_firmware_synced, condition_healthy,
}
use edge_fleet_operator_demo.Api.Machinery.{Machinery, IsLawful}
use edge_fleet_operator_demo.Device.Status.{
  Config, Clock, timeout_of, time_sub, project_status, live_phase, reports_failure,
}
use edge_fleet_operator_demo.Device.Projection.{IsLive, not_late, phase_fresh}
use edge_fleet_operator_demo.Device.Settles.{projected}
use edge_fleet_operator_demo.Rollout.Fleet.{device_failed}
use edge_fleet_operator_demo.Rollout.Agreement.{degraded_test, failed_iff_degraded}
use edge_fleet_operator_demo.Agent.Kube.{DeviceSpec}
use edge_fleet_operator_demo.Wire.Resource.{TimeFormat, IsFaithful, IsWhole}
use edge_fleet_operator_demo.Wire.Resource.RoundTrip.{Stored}
use edge_fleet_operator_demo.Wire.Exchange.{
  exchange, exchange_lem, upserted, first_of, first_of-upserted, first_of-upserted_ne,
}
use edge_fleet_operator_demo.Wire.Mutations.{
  Report, started, gave_up, upgraded, reported, status_of, reason_of, condition_of, version_of,
  after, seen-after, after-Stored,
}

-- What a report is about: the device is given another version than it runs; an upgrade failed; or
-- it ended with the version that is still desired.
abbrev pub IsTimely : Report → DeviceSpec → EdgeDevice → Type 0
IsTimely started spec dev = dev.status.current_firmware_version ≢ dev.spec.desired_firmware_version
IsTimely (gave_up reason message) spec dev = reason ≢ "UpgradeInProgress"
IsTimely (upgraded slot) spec dev =
    spec.desired_firmware_version ≡ dev.spec.desired_firmware_version

abbrev pub verdict : Report → DevicePhase
verdict started = upgrading
verdict (gave_up reason message) = degraded
verdict (upgraded slot) = ready

-- The device as both controllers take it from the report, and what they leave alone in it.
pub record Verdict (M : Machinery) (lawful : IsLawful M) (cfg : Config) (clock : Clock) (r : Report)
    (dev : EdgeDevice) (st : EdgeDeviceStatus) : Type 0 where
  pub phase : (project_status M cfg clock (record dev { status = st })).0.phase ≡ verdict r
  pub counted :
      device_failed M (projected M lawful cfg clock (record dev { status = st }))
      ≡ phase_eq (verdict r) degraded
  pub beat : st.last_heartbeat ≡ dev.status.last_heartbeat
  pub old_phase : st.phase ≡ dev.status.phase
  pub health :
      M.find_status_condition st.conditions condition_healthy
      ≡ M.find_status_condition dev.status.conditions condition_healthy

-- Whether a failed upgrade is reported, by the two fields of the condition that is found.
failure_of :
    (o : Option Condition) (status : ConditionStatus) (reason : String)
    → (c : Condition) × (o ≡ some c) × (c.status ≡ status) × (c.reason ≡ reason)
    → reports_failure o ≡ status_eq status fails && not (str_eq reason "UpgradeInProgress")
unfolding reports_failure
failure_of o status reason (c, e, s, r) = rw (e, s, r) refl

module _ (M : Machinery)
    (finds : (cs : List Condition) (k : String)
      → M.find_status_condition cs k ≡ first_of k cs) where
  live_phase-verdict :
      (r : Report) (spec : DeviceSpec) (dev : EdgeDevice)
      → IsTimely r spec dev
      → (if status_eq (status_of r) fails && not (str_eq (reason_of r) "UpgradeInProgress")
          then degraded
          else if not (
              str_eq
                (version_of r spec.desired_firmware_version dev.status.current_firmware_version)
                dev.spec.desired_firmware_version)
          then upgrading
          else ready)
        ≡ verdict r
  unfolding status_eq
  live_phase-verdict started spec dev timely =
      ground (arith, eq_iff dev.status.current_firmware_version dev.spec.desired_firmware_version)
  live_phase-verdict (gave_up reason message) spec dev timely =
      ground (arith, eq_iff reason "UpgradeInProgress")
  live_phase-verdict (upgraded slot) spec dev timely =
      rw (timely, eq_refl dev.spec.desired_firmware_version) refl

  live_phase-after :
      (r : Report) (spec : DeviceSpec) (now gen : ℕ) (dev : EdgeDevice)
      → IsTimely r spec dev
      → live_phase M
          (record dev { status = after r spec.desired_firmware_version now gen dev.status })
        ≡ verdict r
  unfolding live_phase
  live_phase-after r spec now gen dev timely =
      let c = condition_of r spec.desired_firmware_version now gen in
      let failure =
        failure_of _ (status_of r) (reason_of r) (first_of-upserted c dev.status.conditions) in
      rw (finds (upserted c dev.status.conditions) condition_firmware_synced, failure)
        (live_phase-verdict r spec dev timely)

  module _ (lawful : IsLawful M) where
    counted_as :
        (cfg : Config) (clock : Clock) (dev : EdgeDevice) (h : ℕ) (p : DevicePhase)
        → dev.status.last_heartbeat ≡ some h
        → (project_status M cfg clock dev).0.phase ≡ p
        → device_failed M (projected M lawful cfg clock dev) ≡ phase_eq p degraded
    unfolding phase_eq
    counted_as cfg clock dev h p beat e =
        let agree = failed_iff_degraded M lawful cfg clock dev h beat in
        let test = degraded_test p in
        elim (Bool-cases (device_failed M (projected M lawful cfg clock dev))) [
          | inl y ↦ rw y (sym (test.1 (sym e ∙ agree.0 y)))
          | inr n ↦ rw n (elim (Bool-cases (phase_eq p degraded)) [
            | inl d ↦ absurd (cc (n, agree.1 (e ∙ test.0 d)))
            | inr o ↦ sym o
          ])
        ]

    -- A device with a fresh heartbeat whose status is stored by the server, a transaction that
    -- reports its start, its failure or its end, with a time in whole seconds: the controllers can
    -- read what the agent sends; the device controller then calls the device Upgrading, Degraded or
    -- Ready, and after that pass the rollout controller counts it as failed exactly after a failure;
    -- and the report leaves the heartbeat, the phase and the Healthy condition alone. At its start
    -- the device runs another version than it should, a failure has another reason than
    -- UpgradeInProgress, and at its end the version is still the desired one. The heartbeat timeout
    -- is a duration, conditions are found by their type, and the format of times can be read back.
    pub report_reaches :
        (F : TimeFormat) (faithful : IsFaithful F) (cfg : Config) (clock : Clock) (r : Report)
        (spec : DeviceSpec) (now gen : ℕ) (dev : EdgeDevice)
        → timeout_of cfg < i64_half - 1
        → IsLive cfg clock.first dev
        → Stored dev.status
        → IsWhole now
        → gen < i64_half
        → IsTimely r spec dev
        → (st : EdgeDeviceStatus) × (exchange F (reported r spec (F.print now) gen) dev.status
            ≡ some st)
          × Verdict M lawful cfg clock r dev st
    report_reaches F faithful cfg clock r spec now gen dev small live stored whole fits timely =
        let st = after r spec.desired_firmware_version now gen dev.status in
        let new : EdgeDevice = record dev { status = st } in
        let c = condition_of r spec.desired_firmware_version now gen in
        let phase : (project_status M cfg clock new).0.phase ≡ verdict r =
          elim (Bool-cases (i64_ltb (timeout_of cfg) (time_sub clock.first live.0))) [
            | inl late ↦ absurd (not_late M cfg clock new live.0 live.1 late small live)
            | inr fresh ↦
                phase_fresh M cfg clock new live.0 live.1 fresh
                ∙ live_phase-after r spec now gen dev timely
          ] in
        (
          st,
          exchange_lem F faithful (reported r spec (F.print now) gen) dev.status st stored
              (after-Stored r spec.desired_firmware_version now gen dev.status whole fits stored)
              (seen-after F r spec now gen dev.status),
          record {
            phase = phase;
            counted = counted_as cfg clock new live.0 (verdict r) live.1 phase;
            beat = refl;
            old_phase = refl;
            health =
                finds (upserted c dev.status.conditions) condition_healthy
                ∙ first_of-upserted_ne c dev.status.conditions condition_healthy refl
                ∙ sym (finds dev.status.conditions condition_healthy);
          },
        )
