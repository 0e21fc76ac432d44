-- ===== src/Agent/Guard/Keeps.antt =====
-- What a poll and a heartbeat of internal/agent/agent.go leave alone.
use edge_fleet_operator_demo.Base.{
  ℕ, ◌≡◌, refl, ◌∙◌, inl, inr, String, Bool, true, false, Bool-cases, Option, none, some,
}
use edge_fleet_operator_demo.Agent.Disk.{
  FilePath, current_link, Disk, Ended, done, failed, died, Exec,
}
use edge_fleet_operator_demo.Agent.Kube.{Device}
use edge_fleet_operator_demo.Agent.Slots.{active, active_version}
use edge_fleet_operator_demo.Agent.Slots.Effects.{nothing}
use edge_fleet_operator_demo.Agent.Slots.Frame.{
  Frame, Frame-bind, Frame-pure, Frame-attempt, Frame-read_file, Frame-read_link,
}
use edge_fleet_operator_demo.Agent.Act.{
  Setting, Run, Went, went, powerless, crashed, settled, on_disk, proceed,
}
use edge_fleet_operator_demo.Agent.Guard.{
  Agent, Decision, report_steady, hold, skip_failed, launch, start_upgrade, report_seen,
  report_drift, sync_steady_status, act_on, resolve, evaluate,
}

active-Frame : Frame nothing active
unfolding active
active-Frame =
    Frame-bind nothing _ _ (Frame-read_link nothing current_link) λ _. Frame-pure nothing _

pub active_version-Frame : Frame nothing active_version
unfolding active_version
active_version-Frame = Frame-bind nothing _ _ (Frame-attempt nothing active active-Frame) (elim [
  | none ↦ Frame-pure nothing ""
  | some s ↦
      Frame-bind nothing _ _ (Frame-attempt nothing _ (Frame-read_file nothing _))
        (elim [ none ↦ Frame-pure nothing "" | some v ↦ Frame-pure nothing _ ])
])

module _ {S : Setting} where
  -- What a poll or a heartbeat leaves alone: the machine, the failed target, the network
  -- and every file.
  pub record Keeps (s t : Run S) : Type 0 where
    pub fsm : t.fsm ≡ s.fsm
    pub key : t.last_failed_key ≡ s.last_failed_key
    pub net : t.net ≡ s.net
    pub files : (q : FilePath) → t.disk.node q ≡ s.disk.node q

  pub settled-Keeps :
      {A : Type 0} (r : Ended A × Disk) (s : Run S)
      → ((q : FilePath) → r.1.node q ≡ s.disk.node q)
      → Keeps s (settled r s).1
  settled-Keeps (done a, d) s same = record { fsm = refl; key = refl; net = refl; files = same }
  settled-Keeps (failed e, d) s same = record { fsm = refl; key = refl; net = refl; files = same }
  settled-Keeps (died, d) s same = record { fsm = refl; key = refl; net = refl; files = same }

  pub on_disk-Keeps :
      {A : Type 0} (m : Exec A) (s : Run S) → Frame nothing m → Keeps s (on_disk m s).1
  on_disk-Keeps m s frame = settled-Keeps (m s.disk) s (λ q. frame.at s.disk q refl)

  pub Keeps-trans : {s t u : Run S} → Keeps s t → Keeps t u → Keeps s u
  Keeps-trans a b = record {
    fsm = b.fsm ∙ a.fsm;
    key = b.key ∙ a.key;
    net = b.net ∙ a.net;
    files = λ q. b.files q ∙ a.files q;
  }

  proceed-Keeps :
      {A B : Type 0} (o : Went A × Run S) (K : A → Run S → Went B × Run S) (s : Run S)
      → Keeps s o.1
      → ((a : A) (t : Run S) → Keeps t (K a t).1)
      → Keeps s (proceed o K).1
  proceed-Keeps (went a, t) K s k h = Keeps-trans k (h a t)
  proceed-Keeps (powerless, t) K s k h = k
  proceed-Keeps (crashed, t) K s k h = k

  pub Keeps-refl : (s : Run S) → Keeps s s
  Keeps-refl s = record { fsm = refl; key = refl; net = refl; files = λ q. refl }

  report_drift-Keeps :
      (steady : Bool) (gen : ℕ) (current slot : String) (s : Run S)
      → Keeps s (report_drift S steady gen current slot s).1
  unfolding report_drift report_seen
  report_drift-Keeps true gen current slot s = Keeps-refl s
  report_drift-Keeps false gen current slot s = record {
    fsm = refl;
    key = refl;
    net = refl;
    files = λ q. refl;
  }

  sync-Keeps :
      (gen : ℕ) (dev : Device) (current : String) (s : Run S)
      → Keeps s (sync_steady_status S gen dev current s).1
  unfolding sync_steady_status
  sync-Keeps gen dev current s =
      proceed-Keeps (on_disk active s) _ s (on_disk-Keeps active s active-Frame)
        λ found t. report_drift-Keeps _ gen current _ t

  pub act_on-Keeps :
      (d : Decision) (dev : Device) (current : String) (a : Agent S)
      → Keeps a.run (act_on S d dev current a).1.run
  unfolding act_on start_upgrade
  act_on-Keeps report_steady dev current a = sync-Keeps a.last_seen_gen dev current a.run
  act_on-Keeps hold dev current a = Keeps-refl a.run
  act_on-Keeps skip_failed dev current a = Keeps-refl a.run
  act_on-Keeps launch dev current a = elim (Bool-cases a.upgrading) [
    | inl e ↦ rw (start_upgrade, e) (Keeps-refl a.run)
    | inr e ↦ rw (start_upgrade, e) (Keeps-refl a.run)
  ]

  pub resolve-Keeps :
      (o : Went (Option String) × Run S) (dev : Device) (a : Agent S)
      → Keeps a.run o.1
      → Keeps a.run (resolve S o dev a).1.run
  resolve-Keeps (went none, s) dev a k =
      Keeps-trans k (act_on-Keeps _ dev "" (record a { run = s }))
  resolve-Keeps (went (some c), s) dev a k =
      Keeps-trans k (act_on-Keeps _ dev c (record a { run = s }))
  resolve-Keeps (powerless, s) dev a k = k
  resolve-Keeps (crashed, s) dev a k = k

  pub evaluate-Keeps : (dev : Device) (a : Agent S) → Keeps a.run (evaluate S dev a).1.run
  unfolding evaluate
  evaluate-Keeps dev a =
      resolve-Keeps (on_disk active_version a.run) dev
        (record a { last_seen_gen = dev.metadata.generation })
        (on_disk-Keeps active_version a.run active_version-Frame)
