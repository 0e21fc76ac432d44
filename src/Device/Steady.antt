-- ===== src/Device/Steady.antt =====
-- What projectStatus of internal/controller/edgedevice_controller.go does not depend on.
use edge_fleet_operator_demo.Base.{
  ℕ, ◌-◌, ◌<◌, ◌≡◌, ◌↔◌, refl, sym, ◌∙◌, inl, inr, Bool-cases, Option-cases,
}
use edge_fleet_operator_demo.Base.Words.{i64_ltb, i64_half}
use edge_fleet_operator_demo.Api.{EdgeDevice}
use edge_fleet_operator_demo.Api.Faithful.{versioned}
use edge_fleet_operator_demo.Api.Machinery.{Machinery}
use edge_fleet_operator_demo.Device.Status.{
  Config, Clock, timeout_of, time_sub, live_phase, project_heartbeat, project_status,
}
use edge_fleet_operator_demo.Device.Projection.{IsLive}
use edge_fleet_operator_demo.Device.Cases.{same_verdict}

-- What the projection reads of a device is not the resource version, and of the clock only the
-- verdict on the heartbeat.
pub same_projection :
    (M : Machinery) (cfg : Config) (clock clock2 : Clock) (dev : EdgeDevice) (v : ℕ)
    → timeout_of cfg < i64_half - 1
    → (IsLive cfg clock.first dev ↔ IsLive cfg clock2.first dev)
    → (project_status M cfg clock2 (versioned v dev)).0 ≡ (project_status M cfg clock dev).0
unfolding project_status project_heartbeat live_phase
same_projection M cfg clock clock2 dev v small agree =
    elim (Option-cases dev.status.last_heartbeat) [
      | inl e ↦ rw e refl
      | inr (h, e) ↦
          let same = same_verdict cfg clock clock2 dev h e small agree in
          elim (Bool-cases (i64_ltb (timeout_of cfg) (time_sub clock.first h))) [
            | inl late ↦ rw (e, late) (rw (sym same ∙ late) refl)
            | inr live ↦ rw (e, live) (rw (sym same ∙ live) refl)
          ]
    ]
