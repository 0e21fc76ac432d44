-- ===== src/Device/Settles.antt =====
-- projectStatus and statusEqual of internal/controller/edgedevice_controller.go: what the projection
-- leaves alone, and that a second pass has nothing to write.
use mathlib.Core.Path.{subst⁻¹}
use edge_fleet_operator_demo.Base.{
  ◌-◌, ◌<◌, ◌≡◌, ◌≢◌, ◌↔◌, refl, sym, ◌∙◌, true, some, Bool-cases, Option-cases, inl, inr,
}
use edge_fleet_operator_demo.Base.Words.{i64_ltb, i64_half}
use edge_fleet_operator_demo.Api.{
  EdgeDevice, DevicePhase, provisioning, degraded, Condition, condition_healthy,
  condition_firmware_synced,
}
use edge_fleet_operator_demo.Api.Machinery.{Machinery, IsLawful}
use edge_fleet_operator_demo.Device.Status.{
  Config, Clock, timeout_of, time_sub, live_phase, project_status, status_equal, judged,
}
use edge_fleet_operator_demo.Device.Projection.{IsLive}
use edge_fleet_operator_demo.Device.Cases.{
  awaiting, overdue, alive, project_absent, project_late, project_fresh, project-judged,
  same_verdict, synced-≢-healthy, shown, phase_eq_self, same_health_shown,
}

module _ (M : Machinery) (lawful : IsLawful M) where
  -- The projection leaves alone what the agent owns: its four fields and its condition, which the
  -- status holds as before. The Healthy condition it leaves is of the present generation.
  pub projection_owns :
      (cfg : Config) (clock : Clock) (dev : EdgeDevice)
      → let st = (project_status M cfg clock dev).0 in
        (st.current_firmware_version ≡ dev.status.current_firmware_version)
        × (st.active_slot ≡ dev.status.active_slot)
        × (st.last_heartbeat ≡ dev.status.last_heartbeat)
        × (st.observed_generation ≡ dev.status.observed_generation)
        × (M.find_status_condition st.conditions condition_firmware_synced
            ≡ M.find_status_condition dev.status.conditions condition_firmware_synced)
        × ((c : Condition) × (M.find_status_condition st.conditions condition_healthy ≡ some c)
            × (c.observed_generation ≡ dev.metadata.generation))
  projection_owns cfg clock dev =
      let (phase, c, e, kind, generation) = project-judged M cfg clock dev in
      let new : condition_firmware_synced ≢ c.kind = rw kind synced-≢-healthy in
      let found = shown _ _ (lawful.find-set_self dev.status.conditions c) in
      rw e (
        refl,
        refl,
        refl,
        refl,
        lawful.find-set_ne dev.status.conditions c condition_firmware_synced new,
        (found.0, rw (← kind) found.1, found.4 ∙ generation),
      )

  -- A device with the status that a pass wrote.
  abbrev pub projected : Config → Clock → EdgeDevice → EdgeDevice
  projected cfg clock dev =
      let st = (project_status M cfg clock dev).0 in
      record dev { status = record dev.status { phase = st.phase; conditions = st.conditions } }

  judged_equal :
      (dev : EdgeDevice) (p q : DevicePhase) (c : Condition)
      → p ≡ q
      → c.kind ≡ condition_healthy
      → status_equal M (judged M dev p c) (judged M (record dev { status = judged M dev p c }) q c)
        ≡ true
  unfolding status_equal
  judged_equal dev p q c same kind =
      let once = M.set_status_condition dev.status.conditions c in
      let first = lawful.find-set_self dev.status.conditions c in
      let again = lawful.find-set_self once c in
      rw (← same, phase_eq_self p, ← kind) (same_health_shown _ _ c first again)

  live_phase-judged :
      (dev : EdgeDevice) (p : DevicePhase) (c : Condition)
      → c.kind ≡ condition_healthy
      → live_phase M dev ≡ live_phase M (record dev { status = judged M dev p c })
  unfolding live_phase
  live_phase-judged dev p c kind =
      let new : condition_firmware_synced ≢ c.kind = rw kind synced-≢-healthy in
      rw (lawful.find-set_ne dev.status.conditions c condition_firmware_synced new)

  -- The comparison after a second pass, from the outcomes of both.
  settled :
      (cfg : Config) (clock clock2 : Clock) (dev : EdgeDevice) (p q : DevicePhase) (c : Condition)
      → p ≡ q
      → c.kind ≡ condition_healthy
      → (project_status M cfg clock dev).0 ≡ judged M dev p c
      → let next = record dev { status = judged M dev p c } in
        (project_status M cfg clock2 next).0 ≡ judged M next q c
        → status_equal M
            (projected cfg clock dev).status
            (project_status M cfg clock2 (projected cfg clock dev)).0
          ≡ true
  settled cfg clock clock2 dev p q c same kind first again =
      subst⁻¹
        (λ st.
          let next = record dev {
            status = record dev.status { phase = st.phase; conditions = st.conditions };
          } in
          status_equal M next.status (project_status M cfg clock2 next).0 ≡ true)
        first
        (subst⁻¹ (λ st. status_equal M (judged M dev p c) st ≡ true) again
          (judged_equal dev p q c same kind))

  -- A pass after the one that wrote the status finds nothing to write, unless the heartbeat has
  -- become too old, or was too old and is not any more, between the two.
  pub projection_settles :
      (cfg : Config) (clock clock2 : Clock) (dev : EdgeDevice)
      → timeout_of cfg < i64_half - 1
      → (IsLive cfg clock.first dev ↔ IsLive cfg clock2.first dev)
      → status_equal M
          (projected cfg clock dev).status
          (project_status M cfg clock2 (projected cfg clock dev)).0
        ≡ true
  projection_settles cfg clock clock2 dev small agree =
      elim (Option-cases dev.status.last_heartbeat) [
        | inl e ↦
            settled cfg clock clock2 dev provisioning provisioning (awaiting M cfg clock dev) refl
              refl (project_absent M cfg clock dev e) (project_absent M cfg clock2 _ e)
        | inr (h, e) ↦
            let same = same_verdict cfg clock clock2 dev h e small agree in
            elim (Bool-cases (i64_ltb (timeout_of cfg) (time_sub clock.first h))) [
              | inl late ↦
                  settled cfg clock clock2 dev degraded degraded (overdue M cfg clock dev) refl refl
                    (project_late M cfg clock dev h e late)
                    (project_late M cfg clock2 _ h e (sym same ∙ late))
              | inr live ↦
                  settled cfg clock clock2 dev (live_phase M dev) _ (alive M cfg clock dev)
                    (live_phase-judged dev _ _ refl) refl (project_fresh M cfg clock dev h e live)
                    (project_fresh M cfg clock2 _ h e (sym same ∙ live))
            ]
      ]
