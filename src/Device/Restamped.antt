-- ===== src/Device/Restamped.antt =====
-- projectStatus and statusEqual of internal/controller/edgedevice_controller.go do not read the times
-- of conditions.
use edge_fleet_operator_demo.Base.{
  ◌≡◌, refl, sym, ap, ◌∙◌, inl, inr, Bool-cases, Option, Option-cases, none, some, List, String,
}
use edge_fleet_operator_demo.Base.Words.{i64_ltb}
use edge_fleet_operator_demo.Api.{
  Condition, condition_healthy, condition_firmware_synced, EdgeDevice, DevicePhase, provisioning,
  degraded,
}
use edge_fleet_operator_demo.Api.Faithful.{untimed, untimed_all, restamped}
use edge_fleet_operator_demo.Api.Machinery.{Machinery}
use edge_fleet_operator_demo.Device.Cases.{
  awaiting, overdue, alive, project_absent, project_late, project_fresh,
}
use mathlib.Core.Path.{ap₂}
use edge_fleet_operator_demo.Device.Status.{
  Config, Clock, timeout_of, time_sub, reports_failure, live_phase, judged, project_status,
  same_health, status_equal,
}

abbrev pub untimed_found : Option Condition → Option Condition
untimed_found none = none
untimed_found (some c) = some (untimed c)

-- Finding and setting a condition go by the type, and copy the times or set them: what else they give
-- does not depend on the times, as apimachinery documents it.
pub record IsTimeless (M : Machinery) : Type 0 where
  pub finds :
      (k l : List Condition) (kind : String)
      → untimed_all k ≡ untimed_all l
      → untimed_found (M.find_status_condition k kind)
        ≡ untimed_found (M.find_status_condition l kind)
  pub sets :
      (k l : List Condition) (c : Condition)
      → untimed_all k ≡ untimed_all l
      → untimed_all (M.set_status_condition k c) ≡ untimed_all (M.set_status_condition l c)

same_health_untimed :
    (a b : Option Condition) → same_health (untimed_found a) (untimed_found b) ≡ same_health a b
unfolding same_health
same_health_untimed none none = refl
same_health_untimed (some a) (some b) = refl
same_health_untimed (some a) none = refl
same_health_untimed none (some b) = refl

reports_failure_untimed :
    (a : Option Condition) → reports_failure (untimed_found a) ≡ reports_failure a
unfolding reports_failure
reports_failure_untimed none = refl
reports_failure_untimed (some c) = refl

module _ (M : Machinery) (timeless : IsTimeless M) (dev : EdgeDevice) (cs : List Condition)
    (same : untimed_all cs ≡ untimed_all dev.status.conditions) where
  live_phase-restamped : live_phase M (restamped dev cs) ≡ live_phase M dev
  unfolding live_phase
  live_phase-restamped =
      let synced = condition_firmware_synced in
      let reports : reports_failure (M.find_status_condition cs synced)
          ≡ reports_failure (M.find_status_condition dev.status.conditions synced) =
        sym (reports_failure_untimed (M.find_status_condition cs synced))
        ∙ ap reports_failure (timeless.finds cs dev.status.conditions synced same)
        ∙ reports_failure_untimed (M.find_status_condition dev.status.conditions synced) in
      rw (live_phase, reports) refl

  health-restamped :
      (c : Condition)
      → same_health
          (M.find_status_condition cs condition_healthy)
          (M.find_status_condition (M.set_status_condition cs c) condition_healthy)
        ≡ same_health (M.find_status_condition dev.status.conditions condition_healthy) (
            M.find_status_condition
              (M.set_status_condition dev.status.conditions c)
              condition_healthy)
  health-restamped c =
      let old = dev.status.conditions in
      let new = timeless.sets cs old c same in
      let here = timeless.finds cs old condition_healthy same in
      let there = timeless.finds _ _ condition_healthy new in
      sym (same_health_untimed _ _) ∙ ap₂ same_health here there ∙ same_health_untimed _ _

  judged-restamped :
      (p q : DevicePhase) (c : Condition)
      → p ≡ q
      → status_equal M (restamped dev cs).status (judged M (restamped dev cs) p c)
        ≡ status_equal M dev.status (judged M dev q c)
  unfolding status_equal
  judged-restamped p q c e = rw (e, health-restamped c) refl

  -- By what the projection judges of the two.
  compared :
      (cfg : Config) (clock : Clock) (p q : DevicePhase) (c : Condition)
      → p ≡ q
      → (project_status M cfg clock (restamped dev cs)).0 ≡ judged M (restamped dev cs) p c
      → (project_status M cfg clock dev).0 ≡ judged M dev q c
      → status_equal M (restamped dev cs).status (project_status M cfg clock (restamped dev cs)).0
        ≡ status_equal M dev.status (project_status M cfg clock dev).0
  compared cfg clock p q c same_phase here there =
      ap (status_equal M (restamped dev cs).status) here
      ∙ judged-restamped p q c same_phase
      ∙ sym (ap (status_equal M dev.status) there)

  pub status_equal-restamped :
      (cfg : Config) (clock : Clock)
      → status_equal M (restamped dev cs).status (project_status M cfg clock (restamped dev cs)).0
        ≡ status_equal M dev.status (project_status M cfg clock dev).0
  status_equal-restamped cfg clock =
      let other = restamped dev cs in
      elim (Option-cases dev.status.last_heartbeat) [
        | inl e ↦
            compared cfg clock provisioning provisioning (awaiting M cfg clock dev) refl
              (project_absent M cfg clock other e) (project_absent M cfg clock dev e)
        | inr (h, e) ↦ elim (Bool-cases (i64_ltb (timeout_of cfg) (time_sub clock.first h))) [
          | inl late ↦
              compared cfg clock degraded degraded (overdue M cfg clock dev) refl
                (project_late M cfg clock other h e late) (project_late M cfg clock dev h e late)
          | inr live ↦
              compared cfg clock _ _ (alive M cfg clock dev) live_phase-restamped
                (project_fresh M cfg clock other h e live) (project_fresh M cfg clock dev h e live)
        ]
      ]
