-- ===== src/Agent/Loop/Alive.antt =====
-- A round of the poll loop of internal/agent/agent.go does not panic.
use edge_fleet_operator_demo.Base.{ℕ, ◌≢◌, refl, Bool, true, false, Option, none, some}
use edge_fleet_operator_demo.Agent.Disk.{Disk, Ended, done, failed, died}
use edge_fleet_operator_demo.Agent.Kube.{Device}
use edge_fleet_operator_demo.Agent.Slots.{active, active_version}
use edge_fleet_operator_demo.Agent.Act.{
  Setting, Run, Went, went, powerless, crashed, settled, on_disk, proceed,
}
use edge_fleet_operator_demo.Agent.Guard.{
  Agent, Decision, report_steady, hold, skip_failed, launch, report_drift, report_seen,
  sync_steady_status, act_on, resolve, evaluate,
}

pub settled_alive :
    {S : Setting} {A : Type 0} (r : Ended A × Disk) (s : Run S) → (settled r s).0 ≢ crashed
settled_alive (done a, d) s e = cc e
settled_alive (failed x, d) s e = cc e
settled_alive (died, d) s e = cc e

module _ {S : Setting} where
  proceed_alive :
      {A B : Type 0} (o : Went A × Run S) (K : A → Run S → Went B × Run S)
      → o.0 ≢ crashed
      → ((a : A) (t : Run S) → (K a t).0 ≢ crashed)
      → (proceed o K).0 ≢ crashed
  proceed_alive (went a, t) K h k = k a t
  proceed_alive (powerless, t) K h k = λ e. cc e
  proceed_alive (crashed, t) K h k = absurd (h refl)

  drift_alive :
      (steady : Bool) (gen : ℕ) (current slot : _) (s : Run S)
      → (report_drift S steady gen current slot s).0 ≢ crashed
  unfolding report_drift report_seen
  drift_alive true gen current slot s e = cc e
  drift_alive false gen current slot s e = cc e

  act_on_alive :
      (d : Decision) (dev : Device) (current : _) (a : Agent S)
      → (act_on S d dev current a).0 ≢ crashed
  unfolding act_on sync_steady_status
  act_on_alive report_steady dev current a =
      proceed_alive (on_disk active a.run) _ (settled_alive (active a.run.disk) a.run)
        λ found t. drift_alive _ _ current _ t
  act_on_alive hold dev current a = λ e. cc e
  act_on_alive skip_failed dev current a = λ e. cc e
  act_on_alive launch dev current a = λ e. cc e

  resolve_alive :
      (o : Went (Option _) × Run S) (dev : Device) (a : Agent S)
      → o.0 ≢ crashed
      → (resolve S o dev a).0 ≢ crashed
  resolve_alive (went none, s) dev a h = act_on_alive _ dev "" (record a { run = s })
  resolve_alive (went (some c), s) dev a h = act_on_alive _ dev c (record a { run = s })
  resolve_alive (powerless, s) dev a h = λ e. cc e
  resolve_alive (crashed, s) dev a h = absurd (h refl)

  pub evaluate_alive : (dev : Device) (a : Agent S) → (evaluate S dev a).0 ≢ crashed
  unfolding evaluate
  evaluate_alive dev a =
      resolve_alive (on_disk active_version a.run) dev _
        (settled_alive (active_version a.run.disk) a.run)
