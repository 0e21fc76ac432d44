-- ===== src/Agent/Guard/Launch.antt =====
-- When evaluate of internal/agent/agent.go starts a transaction.
use mathlib.Core.Path.{subst⁻¹}
use edge_fleet_operator_demo.Base.{
  ◌≡◌, ◌≢◌, ◌↔◌, refl, sym, ◌∙◌, ap, inl, inr, String, false, Bool-cases, some, List, ◌∷◌, length,
  eq_iff, arith,
}
use edge_fleet_operator_demo.Agent.Kube.{Device, DeviceSpec}
use edge_fleet_operator_demo.Agent.Slots.{active_version}
use edge_fleet_operator_demo.Agent.Act.{Setting, Run, went, on_disk}
use edge_fleet_operator_demo.Agent.Transaction.{target_key}
use edge_fleet_operator_demo.Agent.Guard.{
  Agent, Decision, report_steady, hold, skip_failed, launch, decide, start_upgrade, act_on, resolve,
  evaluate,
}

-- A target that is not running, not paused and not the one that failed last.
abbrev pub IsWanted : String → String → DeviceSpec → Type 0
IsWanted current failed_key spec =
    (spec.desired_firmware_version ≢ current)
    × (spec.rollout_paused ≡ false)
    × (failed_key ≢ target_key spec)

pub decide_iff :
    (current failed_key : String) (spec : DeviceSpec)
    → (decide current failed_key spec ≡ launch) ↔ IsWanted current failed_key spec
unfolding decide
decide_iff current failed_key spec =
    let version = eq_iff spec.desired_firmware_version current in
    let key = eq_iff failed_key (target_key spec) in
    (λ h. ground (arith, version, key), λ h. ground (arith, version, key))

not_longer : {A : Type 0} (x : A) (l : List A) → l ≢ x ∷ l
not_longer x l e = omega (arith, ap length e)

module _ (S : Setting) (dev : Device) (current : String) (a : Agent S) where
  -- The transactions that run afterwards, by what was decided.
  running-act_on :
      (d : Decision)
      → ((act_on S d dev current a).1.running ≡ dev.spec ∷ a.running)
        ↔ ((a.upgrading ≡ false) × (d ≡ launch))
  unfolding act_on start_upgrade
  running-act_on report_steady =
      (λ e. absurd (not_longer dev.spec a.running e), λ h. absurd (cc (h.1)))
  running-act_on hold = (λ e. absurd (not_longer dev.spec a.running e), λ h. absurd (cc (h.1)))
  running-act_on skip_failed =
      (λ e. absurd (not_longer dev.spec a.running e), λ h. absurd (cc (h.1)))
  running-act_on launch = elim (Bool-cases a.upgrading) [
    | inl on ↦
        let same : (act_on S launch dev current a).1.running ≡ a.running =
          rw (act_on, start_upgrade, on) refl in
        (λ e. absurd (not_longer dev.spec a.running (sym same ∙ e)), λ h. absurd (cc (on, h.0)))
    | inr off ↦
        let more : (act_on S launch dev current a).1.running ≡ dev.spec ∷ a.running =
          rw (act_on, start_upgrade, off) refl in
        (λ e. (off, refl), λ h. more)
  ]

-- A poll that reads the running version starts a transaction exactly if none is running, and the
-- device should run another version, is not paused, and this target, the pair of version and
-- checksum, is not the one that failed last. A Spec that changed only its URL, or that was paused
-- in between, has the same target.
pub evaluate_launches_iff :
    (S : Setting) (dev : Device) (current : String) (a : Agent S) (s : Run S)
    → on_disk active_version a.run ≡ (went (some current), s)
    → ((evaluate S dev a).1.running ≡ dev.spec ∷ a.running)
      ↔ ((a.upgrading ≡ false) × IsWanted current s.last_failed_key dev.spec)
unfolding evaluate
evaluate_launches_iff S dev current a s e =
    let seen : Agent S = record a { last_seen_gen = dev.metadata.generation } in
    let d = decide current s.last_failed_key dev.spec in
    let wanted = decide_iff current s.last_failed_key dev.spec in
    let starts = running-act_on S dev current (record seen { run = s }) d in
    subst⁻¹
      (λ o.
        ((resolve S o dev seen).1.running ≡ dev.spec ∷ a.running)
        ↔ ((a.upgrading ≡ false) × IsWanted current s.last_failed_key dev.spec))
      e (λ r. let (off, is) = starts.0 r in (off, wanted.0 is), λ h. starts.1 (h.0, wanted.1 h.1))
