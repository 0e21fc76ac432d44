-- ===== src/Device/Projection.antt =====
-- projectStatus of internal/controller/edgedevice_controller.go: the phase that a device is given,
-- and when the next pass is run.
use edge_fleet_operator_demo.Base.{
  ℕ, ◌+◌, ◌-◌, ◌≤◌, ◌<◌, ◌≡◌, ◌↔◌, refl, sym, ◌∙◌, eq_iff, Bool, true, false, none, some, arith,
  str_eq, Bool-cases, Option-cases, inl, inr,
}
use edge_fleet_operator_demo.Base.Words.{i64_ltb, i64_half}
use edge_fleet_operator_demo.Api.{
  EdgeDevice, provisioning, ready, degraded, condition_firmware_synced,
}
use edge_fleet_operator_demo.Api.Machinery.{Machinery}
use edge_fleet_operator_demo.Device.Status.{
  Config, Clock, second, timeout_of, time_sub, reports_failure, live_phase, requeue_of,
  project_heartbeat, project_status,
}

-- The test of the heartbeat is exact, for clocks in any order.
pub stale_exact :
    (timeout now heartbeat : ℕ)
    → timeout < i64_half - 1
    → (i64_ltb timeout (time_sub now heartbeat) ≡ false) ↔ (now ≤ heartbeat + timeout)
unfolding time_sub
stale_exact timeout now heartbeat small = ground arith

-- Every time and timeout is below 2^61.
abbrev pub range : ℕ
range = 2305843009213693952

requeue_exact :
    (timeout now heartbeat : ℕ)
    → timeout < range
    → now < range
    → heartbeat < range
    → now < heartbeat + timeout + second
    → now + requeue_of timeout now heartbeat ≡ heartbeat + timeout + second
unfolding requeue_of time_sub
requeue_exact timeout now heartbeat ht hn hh h = ground arith

-- A heartbeat was received, and it is not older than the timeout.
abbrev pub IsLive : Config → ℕ → EdgeDevice → Type 0
IsLive cfg now dev = (h : ℕ) × (dev.status.last_heartbeat ≡ some h) × (now ≤ h + timeout_of cfg)

module _ (M : Machinery) where
  abbrev pub failure : EdgeDevice → Bool
  failure dev =
      reports_failure (M.find_status_condition dev.status.conditions condition_firmware_synced)

  pub phase_absent :
      (cfg : Config) (clock : Clock) (dev : EdgeDevice)
      → dev.status.last_heartbeat ≡ none
      → (project_status M cfg clock dev).0.phase ≡ provisioning
  unfolding project_status project_heartbeat
  phase_absent cfg clock dev e = rw e refl

  pub phase_late :
      (cfg : Config) (clock : Clock) (dev : EdgeDevice) (h : ℕ)
      → dev.status.last_heartbeat ≡ some h
      → i64_ltb (timeout_of cfg) (time_sub clock.first h) ≡ true
      → (project_status M cfg clock dev).0.phase ≡ degraded
  unfolding project_status project_heartbeat
  phase_late cfg clock dev h e late = rw (e, late) refl

  pub phase_fresh :
      (cfg : Config) (clock : Clock) (dev : EdgeDevice) (h : ℕ)
      → dev.status.last_heartbeat ≡ some h
      → i64_ltb (timeout_of cfg) (time_sub clock.first h) ≡ false
      → (project_status M cfg clock dev).0.phase ≡ live_phase M dev
  unfolding project_status project_heartbeat
  phase_fresh cfg clock dev h e fresh = rw (e, fresh) refl

  pub not_late :
      (cfg : Config) (clock : Clock) (dev : EdgeDevice) (h : ℕ)
      → dev.status.last_heartbeat ≡ some h
      → i64_ltb (timeout_of cfg) (time_sub clock.first h) ≡ true
      → timeout_of cfg < i64_half - 1
      → IsLive cfg clock.first dev
      → ⊥
  not_late cfg clock dev h e late small (g, e2, fresh) =
      let same : some h ≡ some g = sym e ∙ e2 in
      let g_is : g ≡ h = cc same in
      let ok = (stale_exact (timeout_of cfg) clock.first h small).1 (rw (← g_is) fresh) in
      cc (late, ok)

  live_phase_ready :
      (dev : EdgeDevice)
      → (live_phase M dev ≡ ready) ↔ (
          (failure dev ≡ false)
          × (dev.status.current_firmware_version ≡ dev.spec.desired_firmware_version))
  unfolding live_phase
  live_phase_ready dev =
      let same = str_eq dev.status.current_firmware_version dev.spec.desired_firmware_version in
      let meaning = eq_iff dev.status.current_firmware_version dev.spec.desired_firmware_version in
      elim (Bool-cases (failure dev)) [
        | inl bad ↦ rw bad (λ e. absurd (cc e), λ e. absurd (cc (e.0)))
        | inr fine ↦ elim (Bool-cases same) [
          | inl eq ↦ rw (fine, eq) (λ _. (refl, meaning.0 eq), λ _. refl)
          | inr ne ↦ rw (fine, ne) (λ e. absurd (cc e), λ e. absurd (cc (ne, meaning.1 e.1)))
        ]
      ]

  -- A device is called Ready exactly if its heartbeat is fresh, its agent reports no failed upgrade
  -- and the firmware that it runs is the firmware that it should run.
  pub ready_iff :
      (cfg : Config) (clock : Clock) (dev : EdgeDevice)
      → timeout_of cfg < i64_half - 1
      → ((project_status M cfg clock dev).0.phase ≡ ready) ↔ (
          IsLive cfg clock.first dev
          × (failure dev ≡ false)
          × (dev.status.current_firmware_version ≡ dev.spec.desired_firmware_version))
  unfolding project_status project_heartbeat live_phase
  ready_iff cfg clock dev small = elim (Option-cases dev.status.last_heartbeat) [
    | inl e ↦
        (λ r. absurd (cc (phase_absent cfg clock dev e, r)), λ live. absurd (cc (e, live.0.1)))
    | inr (h, e) ↦
        let exact = stale_exact (timeout_of cfg) clock.first h small in
        elim (Bool-cases (i64_ltb (timeout_of cfg) (time_sub clock.first h))) [
          | inl late ↦ (
            λ r. absurd (cc (phase_late cfg clock dev h e late, r)),
            λ live. absurd (not_late cfg clock dev h e late small live.0),
          )
          | inr fresh ↦
              let same = phase_fresh cfg clock dev h e fresh in
              (
                λ r.
                    let (fine, synced) = (live_phase_ready dev).0 (sym same ∙ r) in
                    ((h, e, exact.0 fresh), fine, synced),
                λ live. same ∙ (live_phase_ready dev).1 (live.1, live.2),
              )
        ]
  ]

-- While a heartbeat is fresh, the next run is planned for exactly one second after the heartbeat
-- becomes too old, if neither the times nor the timeout reach 2^61 nanoseconds and the second
-- reading of the clock is not yet at that moment.
pub requeue_deadline :
    (M : Machinery) (cfg : Config) (clock : Clock) (dev : EdgeDevice) (h : ℕ)
    → dev.status.last_heartbeat ≡ some h
    → timeout_of cfg < range
    → clock.first < range
    → clock.later < range
    → h < range
    → clock.first ≤ h + timeout_of cfg
    → clock.later < h + timeout_of cfg + second
    → clock.later + (project_status M cfg clock dev).1 ≡ h + timeout_of cfg + second
unfolding project_status project_heartbeat
requeue_deadline M cfg clock dev h e ht hf hl hh fresh soon =
    let live = (stale_exact (timeout_of cfg) clock.first h (omega arith)).1 fresh in
    rw (e, live) (requeue_exact (timeout_of cfg) clock.later h ht hl hh soon)
