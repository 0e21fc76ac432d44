-- ===== src/Rollout/Agreement.antt =====
-- projectStatus of internal/controller/edgedevice_controller.go and deviceFailed of
-- internal/controller/fleetrollout_controller.go: what the two controllers call a failed device.
use edge_fleet_operator_demo.Base.{
  ℕ, ◌≡◌, ◌↔◌, refl, sym, ap, ◌∙◌, inl, inr, true, Bool-cases, Option, none, some, arith,
}
use edge_fleet_operator_demo.Api.{
  EdgeDevice, Condition, DevicePhase, degraded, phase_eq, condition_firmware_synced,
}
use edge_fleet_operator_demo.Api.Machinery.{Machinery, IsLawful}
use edge_fleet_operator_demo.Base.Words.{i64_ltb}
use edge_fleet_operator_demo.Device.Projection.{phase_late, phase_fresh}
use edge_fleet_operator_demo.Device.Status.{
  Config, Clock, project_status, project_heartbeat, live_phase, reports_failure, timeout_of,
  time_sub,
}
use edge_fleet_operator_demo.Device.Settles.{projected, projection_owns}
use edge_fleet_operator_demo.Rollout.Fleet.{device_failed, upgrade_failed}

same_reading : (c : Option Condition) → upgrade_failed c ≡ reports_failure c
unfolding upgrade_failed reports_failure
same_reading none = refl
same_reading (some c) = refl

pub degraded_test : (p : DevicePhase) → (phase_eq p degraded ≡ true) ↔ (p ≡ degraded)
unfolding phase_eq
degraded_test p = (λ h. ground arith, λ h. rw h refl)

module _ (M : Machinery) (lawful : IsLawful M) where
  failure-degraded :
      (cfg : Config) (clock : Clock) (dev : EdgeDevice) (h : ℕ)
      → dev.status.last_heartbeat ≡ some h
      → reports_failure (M.find_status_condition dev.status.conditions condition_firmware_synced)
        ≡ true
      → (project_status M cfg clock dev).0.phase ≡ degraded
  unfolding project_status project_heartbeat live_phase
  failure-degraded cfg clock dev h beat bad =
      elim (Bool-cases (i64_ltb (timeout_of cfg) (time_sub clock.first h))) [
        | inl late ↦ phase_late M cfg clock dev h beat late
        | inr fresh ↦
            let fails : live_phase M dev ≡ degraded = rw (live_phase, bad) refl in
            phase_fresh M cfg clock dev h beat fresh ∙ fails
      ]

  -- The two controllers agree: after a pass of the device controller over a device that has sent a
  -- heartbeat, the rollout controller counts the device as failed exactly if its phase is Degraded.
  pub failed_iff_degraded :
      (cfg : Config) (clock : Clock) (dev : EdgeDevice) (h : ℕ)
      → dev.status.last_heartbeat ≡ some h
      → let new = projected M lawful cfg clock dev in
        (device_failed M new ≡ true) ↔ (new.status.phase ≡ degraded)
  unfolding device_failed
  failed_iff_degraded cfg clock dev h beat =
      let new = projected M lawful cfg clock dev in
      let kept = (projection_owns M lawful cfg clock dev).4 in
      let test = degraded_test new.status.phase in
      elim (Bool-cases (phase_eq new.status.phase degraded)) [
        | inl bad ↦ (λ _. test.0 bad, λ _. rw (device_failed, bad) refl)
        | inr other ↦ (
          λ fails. failure-degraded cfg clock dev h beat (
              sym (same_reading _)
              ∙ ap upgrade_failed (sym kept)
              ∙ rw (device_failed, other) at fails),
          λ is. absurd (cc (test.1 is, other)),
        )
      ]
