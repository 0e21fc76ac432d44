-- ===== src/Agent/Guard/Flight.antt =====
-- The goroutines of internal/agent/agent.go, interleaved: at most one transaction is running, and
-- the agent is always ready for the next.
use Prim.Native.String.{len}
use mathlib.Core.Path.{subst}
use edge_fleet_operator_demo.Base.{
  ◌≤◌, ◌≡◌, refl, ◌∙◌, ap, ◌⊎◌, inl, inr, String, true, false, Option, none, some, List, [], ◌∷◌,
  All,
}
use edge_fleet_operator_demo.Agent.Disk.{current_link}
use edge_fleet_operator_demo.Agent.Download.Backoff.{unset_options}
use edge_fleet_operator_demo.Agent.Fsm.{State, idle, Fsm}
use edge_fleet_operator_demo.Agent.Kube.{Device, DeviceSpec}
use edge_fleet_operator_demo.Agent.Slots.{active_version}
use edge_fleet_operator_demo.Agent.Slots.Effects.{Verified}
use edge_fleet_operator_demo.Agent.Slots.Rules.{Boots, Pair, Pair_ab, Pair_ba}
use edge_fleet_operator_demo.Agent.Act.{Setting, Run, Went, went, powerless, crashed, on_disk}
use edge_fleet_operator_demo.Agent.Transaction.{run_upgrade}
use edge_fleet_operator_demo.Agent.Transaction.Refines.{GaveUp, Finished}
use edge_fleet_operator_demo.Agent.Upgrade.Crash.{IsSafe}
use edge_fleet_operator_demo.Agent.Transaction.Safety.{run_upgrade-IsSafe}
use edge_fleet_operator_demo.Agent.Guard.{
  Agent, Decision, report_steady, hold, skip_failed, launch, start_upgrade, report_seen, act_on,
  resolve, evaluate, heartbeat,
}
use edge_fleet_operator_demo.Agent.Guard.Keeps.{Keeps, evaluate-Keeps}

module _ (S : Setting) where
  -- The flag is set exactly while one transaction is running, and no second one is.
  abbrev pub SingleFlight : Agent S → Type 0
  SingleFlight a =
      ((a.upgrading ≡ false) × (a.running ≡ []))
      ⊎ ((a.upgrading ≡ true) × ((spec : DeviceSpec) × (a.running ≡ spec ∷ [])))

  -- What holds between the steps of the goroutines.
  pub record Inv (a : Agent S) : Type 0 where
    pub flight : SingleFlight a
    pub ready : (a.run.fsm.state ≡ idle) ⊎ (a.run.fsm.state ≡ State.failed)
    pub boots : Boots "A" a.run.disk ⊎ Boots "B" a.run.disk
    pub checked : All (λ spec. 12 ≤ len spec.checksum_sha256) a.running

  -- One step of the agent while the power is on: a poll with a device whose checksum the schema
  -- accepts, a heartbeat, or the transaction that is running, up to its end.
  pub data Step (a : Agent S) : Agent S → Type 0 where
    polled :
        (dev : Device) {u : Agent S}
        → 12 ≤ len dev.spec.checksum_sha256
        → evaluate S dev a ≡ (went tt, u)
        → Step a u
    beaten : {u : Agent S} → heartbeat S a ≡ (went tt, u) → Step a u
    ended :
        (spec : DeviceSpec) (rest : List DeviceSpec) {s : Run S}
        → a.running ≡ spec ∷ rest
        → run_upgrade S spec a.run ≡ (went tt, s)
        → Step a (record a { run = s; upgrading = false; running = rest })

  -- The agents that can be reached from a start on some disk, with some servers.
  pub data Reach (a : Agent S) : Agent S → Type 0 where
    here : Reach a a
    later : {b c : Agent S} → Reach a b → Step b c → Reach a c

  act_on-flight :
      (d : Decision) (dev : Device) (current : String) (a : Agent S)
      → SingleFlight a
      → 12 ≤ len dev.spec.checksum_sha256
      → All (λ spec. 12 ≤ len spec.checksum_sha256) a.running
      → let b = (act_on S d dev current a).1 in
        SingleFlight b × All (λ spec. 12 ≤ len spec.checksum_sha256) b.running
  unfolding act_on start_upgrade
  act_on-flight report_steady dev current a f long all = (f, all)
  act_on-flight hold dev current a f long all = (f, all)
  act_on-flight skip_failed dev current a f long all = (f, all)
  act_on-flight launch dev current a (inl (off, none_running)) long all =
      rw (start_upgrade, off)
        (inr (refl, (dev.spec, ap (λ r. dev.spec ∷ r) none_running)), (long, all))
  act_on-flight launch dev current a (inr (on, one)) long all =
      rw (start_upgrade, on) (inr (refl, one), all)

  resolve-flight :
      (o : Went (Option String) × Run S) (dev : Device) (a : Agent S)
      → SingleFlight a
      → 12 ≤ len dev.spec.checksum_sha256
      → All (λ spec. 12 ≤ len spec.checksum_sha256) a.running
      → let b = (resolve S o dev a).1 in
        SingleFlight b × All (λ spec. 12 ≤ len spec.checksum_sha256) b.running
  resolve-flight (went none, s) dev a f long all =
      act_on-flight _ dev "" (record a { run = s }) f long all
  resolve-flight (went (some c), s) dev a f long all =
      act_on-flight _ dev c (record a { run = s }) f long all
  resolve-flight (powerless, s) dev a f long all = (f, all)
  resolve-flight (crashed, s) dev a f long all = (f, all)

  Keeps-Inv :
      (a b : Agent S)
      → Keeps a.run b.run
      → SingleFlight b × All (λ spec. 12 ≤ len spec.checksum_sha256) b.running
      → Inv a
      → Inv b
  Keeps-Inv a b keeps (f, all) inv =
      let same = ap (λ (m : Fsm). m.state) keeps.fsm in
      let link_same = keeps.files current_link in
      record {
        flight = f;
        ready = elim inv.ready [ inl e ↦ inl (same ∙ e) | inr e ↦ inr (same ∙ e) ];
        boots = elim inv.boots [ inl e ↦ inl (link_same ∙ e) | inr e ↦ inr (link_same ∙ e) ];
        checked = all;
      }

  pub evaluate-Inv :
      (dev : Device) (a : Agent S)
      → 12 ≤ len dev.spec.checksum_sha256
      → Inv a
      → Inv (evaluate S dev a).1
  unfolding evaluate
  evaluate-Inv dev a long inv =
      Keeps-Inv a (evaluate S dev a).1 (evaluate-Keeps dev a)
        (resolve-flight (on_disk active_version a.run) dev
          (record a { last_seen_gen = dev.metadata.generation }) inv.flight long inv.checked)
        inv

  pub heartbeat-Inv : (a : Agent S) → Inv a → Inv (heartbeat S a).1
  unfolding heartbeat report_seen
  heartbeat-Inv a inv =
      Keeps-Inv a (heartbeat S a).1
        (record { fsm = refl; key = refl; net = refl; files = λ q. refl }) (inv.flight, inv.checked)
        inv

  ended-Boots :
      {x y : String} (p : Pair x y) (spec : DeviceSpec) (a : Agent S) (s : Run S)
      → S.download ≡ unset_options
      → 12 ≤ len spec.checksum_sha256
      → run_upgrade S spec a.run ≡ (went tt, s)
      → (a.run.fsm.state ≡ idle) ⊎ (a.run.fsm.state ≡ State.failed)
      → Boots x a.run.disk
      → (Boots x s.disk ⊎ Boots y s.disk) × ((s.fsm.state ≡ idle) ⊎ (s.fsm.state ≡ State.failed))
  ended-Boots {x} {y} p spec a s unset long out ready boots =
      let (safe, ends) =
        subst
          (λ o.
            IsSafe S.hash x y p a.run.disk o.1.disk
            × (GaveUp S spec o
                ⊎ (Finished S spec o × Boots y o.1.disk × Verified S.hash y o.1.disk)
                ⊎ (o.0 ≡ powerless)))
          out (run_upgrade-IsSafe S spec p a.run unset ready long boots) in
      (
        elim safe.1 [ inl b ↦ inl b | inr (b, v) ↦ inr b ],
        elim ends [
          | inl gave ↦ inr gave.1
          | inr (inl fin) ↦ inl fin.0.0
          | inr (inr lost) ↦ absurd (cc lost)
        ],
      )

  pub no_more :
      (a : Agent S) (spec : DeviceSpec) (rest : List DeviceSpec)
      → a.running ≡ spec ∷ rest
      → SingleFlight a
      → rest ≡ []
  no_more a spec rest e (inl (off, none_running)) = absurd (cc (e, none_running))
  no_more a spec rest e (inr (on, one)) = let same = one.1 in cc (e, same)

  -- The transaction that was started is the only one, and it leaves the agent ready.
  pub ended-Inv :
      (unset : S.download ≡ unset_options) (a : Agent S) (spec : DeviceSpec)
      (rest : List DeviceSpec) (s : Run S)
      → a.running ≡ spec ∷ rest
      → run_upgrade S spec a.run ≡ (went tt, s)
      → Inv a
      → Inv (record a { run = s; upgrading = false; running = rest })
  ended-Inv unset a spec rest s e out inv =
      let last = no_more a spec rest e inv.flight in
      let long = subst (All (λ (t : DeviceSpec). 12 ≤ len t.checksum_sha256)) e inv.checked in
      let (link_to, ready) : (Boots "A" s.disk ⊎ Boots "B" s.disk)
          × ((s.fsm.state ≡ idle) ⊎ (s.fsm.state ≡ State.failed)) =
        elim inv.boots [
          | inl b ↦ ended-Boots Pair_ab spec a s unset long.0 out inv.ready b
          | inr b ↦
              let r = ended-Boots Pair_ba spec a s unset long.0 out inv.ready b in
              (elim r.0 [ inl c ↦ inr c | inr c ↦ inl c ], r.1)
        ] in
      record { flight = inl (refl, last); ready = ready; boots = link_to; checked = rw last tt }

  Step-Inv : {a b : Agent S} → S.download ≡ unset_options → Step a b → Inv a → Inv b
  Step-Inv {a} unset (polled dev long e) inv = ap_inv e (evaluate-Inv dev a long inv)
    where
      ap_inv : {o : Went (Unit {0}) × Agent S} {u : Agent S} → o ≡ (went tt, u) → Inv o.1 → Inv u
      ap_inv e h = subst (λ p. Inv p.1) e h
  Step-Inv {a} unset (beaten e) inv = subst (λ p. Inv p.1) e (heartbeat-Inv a inv)
  Step-Inv {a} unset (ended spec rest e out) inv = ended-Inv unset a spec rest _ e out inv

  -- Whatever devices the agent polls, each with a checksum of twelve bytes or more, and whenever it
  -- beats, with the download options of the agent and from a state in which this holds: between the
  -- steps the flag is set exactly while one transaction is running, and there is no second one; the
  -- state machine is ready for the next transaction; the device boots one of the two slots; and the
  -- checksums of the running transactions are long enough.
  pub Reach-Inv : {a b : Agent S} → S.download ≡ unset_options → Inv a → Reach a b → Inv b
  Reach-Inv unset inv here = inv
  Reach-Inv unset inv (later r step) = Step-Inv unset step (Reach-Inv unset inv r)
