-- ===== src/Device/Cases.antt =====
-- The three cases of projectStatus in internal/controller/edgedevice_controller.go.
use edge_fleet_operator_demo.Base.{
  ℕ, ◌<>◌, ◌-◌, ◌<◌, ◌≡◌, ap, ◌≢◌, ◌↔◌, eq_refl, refl, sym, ◌∙◌, eq_iff, Bool, true, false, Option,
  none, some, arith, Bool-cases, Option-cases, inl, inr,
}
use edge_fleet_operator_demo.Base.Words.{i64_ltb, i64_half}
use edge_fleet_operator_demo.Api.{
  EdgeDevice, DevicePhase, phase_eq, status_eq, ConditionStatus, holds, fails, unknown, unset,
  provisioning, ready, upgrading, degraded, Condition, condition_healthy, condition_firmware_synced,
}
use edge_fleet_operator_demo.Api.Machinery.{Machinery, Shows}
use edge_fleet_operator_demo.Device.Status.{
  Config, Clock, timeout_of, time_sub, live_phase, project_heartbeat, project_status, same_health,
  judged, healthy,
}
use edge_fleet_operator_demo.Device.Projection.{IsLive, stale_exact}

module _ (M : Machinery) (cfg : Config) (clock : Clock) (dev : EdgeDevice) where
  abbrev pub awaiting : Condition
  awaiting =
      healthy dev.metadata.generation unknown "AwaitingFirstHeartbeat"
        "device has not reported in yet"

  abbrev pub overdue : Condition
  overdue =
      healthy dev.metadata.generation fails "HeartbeatTimeout"
        ("no heartbeat for more than " <> cfg.show_duration (timeout_of cfg))

  abbrev pub alive : Condition
  alive = healthy dev.metadata.generation holds "HeartbeatFresh" "agent is reporting"

  pub project_absent :
      dev.status.last_heartbeat ≡ none
      → (project_status M cfg clock dev).0 ≡ judged M dev provisioning awaiting
  unfolding project_status project_heartbeat
  project_absent e = ap (λ o. (project_heartbeat M cfg clock dev o).0) e

  pub project_late :
      (h : ℕ)
      → dev.status.last_heartbeat ≡ some h
      → i64_ltb (timeout_of cfg) (time_sub clock.first h) ≡ true
      → (project_status M cfg clock dev).0 ≡ judged M dev degraded overdue
  unfolding project_status project_heartbeat
  project_late h e late = ap (λ o. (project_heartbeat M cfg clock dev o).0) e ∙ rw late refl

  pub project_fresh :
      (h : ℕ)
      → dev.status.last_heartbeat ≡ some h
      → i64_ltb (timeout_of cfg) (time_sub clock.first h) ≡ false
      → (project_status M cfg clock dev).0 ≡ judged M dev (live_phase M dev) alive
  unfolding project_status project_heartbeat
  project_fresh h e live = ap (λ o. (project_heartbeat M cfg clock dev o).0) e ∙ rw live refl

  -- The projection is a judgement: a phase, and a Healthy condition of this generation.
  pub project-judged :
      (phase : DevicePhase) × (c : Condition) × ((project_status M cfg clock dev).0
        ≡ judged M dev phase c)
      × (c.kind ≡ condition_healthy)
      × (c.observed_generation ≡ dev.metadata.generation)
  project-judged = elim (Option-cases dev.status.last_heartbeat) [
    | inl e ↦ (_, _, project_absent e, refl, refl)
    | inr (h, e) ↦ elim (Bool-cases (i64_ltb (timeout_of cfg) (time_sub clock.first h))) [
      | inl late ↦ (_, _, project_late h e late, refl, refl)
      | inr live ↦ (_, _, project_fresh h e live, refl, refl)
    ]
  ]

fresh_iff :
    (cfg : Config) (now : ℕ) (dev : EdgeDevice) (h : ℕ)
    → dev.status.last_heartbeat ≡ some h
    → timeout_of cfg < i64_half - 1
    → (i64_ltb (timeout_of cfg) (time_sub now h) ≡ false) ↔ IsLive cfg now dev
fresh_iff cfg now dev h e small =
    let exact = stale_exact (timeout_of cfg) now h small in
    (
      λ fresh. (h, e, exact.0 fresh),
      λ (g, e2, live).
          let same : some h ≡ some g = sym e ∙ e2 in
          let g_is : g ≡ h = cc same in exact.1 (rw (← g_is) live),
    )

Bool-ext : (a b : Bool) → ((a ≡ false) ↔ (b ≡ false)) → a ≡ b
Bool-ext true true f = refl
Bool-ext true false f = f.1 refl
Bool-ext false true f = sym (f.0 refl)
Bool-ext false false f = refl

-- The test of the heartbeat comes out the same if the heartbeat is fresh at both times or at none.
pub same_verdict :
    (cfg : Config) (clock clock2 : Clock) (dev : EdgeDevice) (h : ℕ)
    → dev.status.last_heartbeat ≡ some h
    → timeout_of cfg < i64_half - 1
    → (IsLive cfg clock.first dev ↔ IsLive cfg clock2.first dev)
    → i64_ltb (timeout_of cfg) (time_sub clock.first h)
      ≡ i64_ltb (timeout_of cfg) (time_sub clock2.first h)
same_verdict cfg clock clock2 dev h e small agree =
    let first = fresh_iff cfg clock.first dev h e small in
    let again = fresh_iff cfg clock2.first dev h e small in
    Bool-ext _ _ (λ f. again.1 (agree.0 (first.0 f)), λ f. first.1 (agree.1 (again.0 f)))

pub synced-≢-healthy : condition_firmware_synced ≢ condition_healthy
synced-≢-healthy e = cc ((eq_iff condition_firmware_synced condition_healthy).1 e)

pub shown :
    (o : Option Condition) (c : Condition)
    → Shows o c
    → (d : Condition) × (o ≡ some d)
      × (d.status ≡ c.status)
      × (d.reason ≡ c.reason)
      × (d.observed_generation ≡ c.observed_generation)
shown none c s = absurd s
shown (some d) c s = (d, refl, s.0, s.1, s.2)

status_eq_self : (s : ConditionStatus) → status_eq s s ≡ true
unfolding status_eq
status_eq_self holds = refl
status_eq_self fails = refl
status_eq_self unknown = refl

pub phase_eq_self : (p : DevicePhase) → phase_eq p p ≡ true
unfolding phase_eq
phase_eq_self unset = refl
phase_eq_self provisioning = refl
phase_eq_self ready = refl
phase_eq_self upgrading = refl
phase_eq_self degraded = refl

pub same_health_shown :
    (a b : Option Condition) (c : Condition) → Shows a c → Shows b c → same_health a b ≡ true
unfolding same_health
same_health_shown none b c s t = absurd s
same_health_shown (some x) none c s t = absurd t
same_health_shown (some x) (some y) c s t =
    rw (s.0, s.1, s.2, t.0, t.1, t.2, status_eq_self c.status, eq_refl c.reason) (ground arith)
