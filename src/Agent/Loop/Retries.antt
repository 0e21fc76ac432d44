-- ===== src/Agent/Loop/Retries.antt =====
-- Run of internal/agent/agent.go after a failure: lastFailedKey keeps the agent from trying the same
-- target again.
use mathlib.Core.Path.{subst}
use edge_fleet_operator_demo.Base.{
  ◌≡◌, ◌≢◌, refl, sym, ◌∙◌, String, Option, none, some, List, [], ◌∷◌,
}
use edge_fleet_operator_demo.Agent.Disk.{Fault}
use edge_fleet_operator_demo.Agent.Kube.{Device, DeviceSpec, KubeResult, ok, err, get}
use edge_fleet_operator_demo.Agent.Slots.{active_version}
use edge_fleet_operator_demo.Agent.Act.{Setting, Run, Went, went, powerless, crashed, on_disk}
use edge_fleet_operator_demo.Agent.Transaction.{target_key, run_upgrade}
use edge_fleet_operator_demo.Agent.Transaction.Refines.{GaveUp}
use edge_fleet_operator_demo.Agent.Guard.{
  Agent, Decision, report_steady, hold, skip_failed, launch, decide, act_on, resolve, evaluate,
  heartbeat, report_seen,
}
use edge_fleet_operator_demo.Agent.Guard.Keeps.{
  Keeps, Keeps-trans, Keeps-refl, on_disk-Keeps, active_version-Frame, evaluate-Keeps,
}
use edge_fleet_operator_demo.Agent.Guard.Launch.{decide_iff}
use edge_fleet_operator_demo.Agent.Loop.{
  Config, Event, cancels, wakes, ticks, ends, strikes, LoopState, running, Looping, poll,
  polled_with, cut_off, handle, landed, run_loop, carry_on, goes_on, end_first,
}

-- Every device that the server serves has this target.
abbrev pub Serves : Setting → String → Type 0
Serves S key =
    (w : S.transport.World) (dev : Device)
    → (get S.transport w).0 ≡ ok dev
    → target_key dev.spec ≡ key

not_launched :
    (current failed_key : String) (spec : DeviceSpec)
    → failed_key ≡ target_key spec
    → decide current failed_key spec ≢ launch
not_launched current failed_key spec e l = ((decide_iff current failed_key spec).0 l).2 e

module _ (S : Setting) where
  running-act_on :
      (d : Decision) (dev : Device) (current : String) (a : Agent S)
      → d ≢ launch
      → (act_on S d dev current a).1.running ≡ a.running
  unfolding act_on
  running-act_on report_steady dev current a ne = refl
  running-act_on hold dev current a ne = refl
  running-act_on skip_failed dev current a ne = refl
  running-act_on launch dev current a ne = absurd (ne refl)

  running-resolve :
      (o : Went (Option String) × Run S) (dev : Device) (a : Agent S)
      → o.1.last_failed_key ≡ target_key dev.spec
      → (resolve S o dev a).1.running ≡ a.running
  running-resolve (went none, s) dev a e =
      running-act_on _ dev "" (record a { run = s }) (not_launched "" s.last_failed_key dev.spec e)
  running-resolve (went (some c), s) dev a e =
      running-act_on _ dev c (record a { run = s }) (not_launched c s.last_failed_key dev.spec e)
  running-resolve (powerless, s) dev a e = refl
  running-resolve (crashed, s) dev a e = refl

  running-evaluate :
      (dev : Device) (a : Agent S)
      → a.run.last_failed_key ≡ target_key dev.spec
      → (evaluate S dev a).1.running ≡ a.running
  unfolding evaluate
  running-evaluate dev a e =
      running-resolve (on_disk active_version a.run) dev
        (record a { last_seen_gen = dev.metadata.generation })
        ((on_disk-Keeps active_version a.run active_version-Frame).key ∙ e)

  -- No transaction is running, and the machine, the failed target, the network and the files are as
  -- they were.
  abbrev pub Quiet : Run S → Agent S → Type 0
  Quiet s a = (a.running ≡ []) × Keeps s a.run

  module _ (s : Run S) where
    went_on : (o : Went (Unit {0}) × Agent S) → Quiet s o.1 → Quiet s (goes_on S o).1
    went_on (went _, a) q = q
    went_on (powerless, a) q = q
    went_on (crashed, a) q = q

    carried :
        (o : Went LoopState × Looping S) (k : Looping S → Went LoopState × Looping S)
        → ((l : Looping S) → Quiet s l.agent → Quiet s (k l).1.agent)
        → Quiet s o.1.agent
        → Quiet s (carry_on S o k).1.agent
    carried (went running, l) k h q = h l q
    carried (went LoopState.returned, l) k h q = q
    carried (went LoopState.boot_failed, l) k h q = q
    carried (powerless, l) k h q = q
    carried (crashed, l) k h q = q

    heartbeat-Quiet : (a : Agent S) → Quiet s a → Quiet s (heartbeat S a).1
    unfolding heartbeat report_seen
    heartbeat-Quiet a q =
        (q.0, Keeps-trans q.1 (record { fsm = refl; key = refl; net = refl; files = λ p. refl }))

    end-Quiet : (a : Agent S) → Quiet s a → Quiet s (goes_on S (end_first S a.running a)).1
    unfolding end_first
    end-Quiet a q = rw q.0 (refl, q.1)

    cut_off-Quiet :
        (script : List Fault) (a : Agent S) → Quiet s a → Quiet s (cut_off S script a.running a).1
    unfolding cut_off
    cut_off-Quiet script a q = rw q.0 (refl, q.1)

    module _ (serves : Serves S s.last_failed_key) where
      polled_with-Quiet :
          (cancelled : Option (List Fault)) (found : KubeResult Device) (a : Agent S)
          → ((dev : Device) → found ≡ ok dev → target_key dev.spec ≡ s.last_failed_key)
          → Quiet s a
          → Quiet s (polled_with S cancelled found a).1
      unfolding polled_with
      polled_with-Quiet (some script) (err e) a is q = cut_off-Quiet script a q
      polled_with-Quiet none (err e) a is q = q
      polled_with-Quiet cancelled (ok dev) a is q = went_on (evaluate S dev a) (
        running-evaluate dev a (q.1.key ∙ sym (is dev refl)) ∙ q.0,
        Keeps-trans q.1 (evaluate-Keeps dev a),
      )

      poll-Quiet :
          (cancelled : Option (List Fault)) (a : Agent S)
          → Quiet s a
          → Quiet s (poll S cancelled a).1
      unfolding poll
      poll-Quiet cancelled a q =
          let asked = get S.transport a.run.api in
          polled_with-Quiet cancelled asked.0 (record a { run = record a.run { api = asked.1 } })
            (serves a.run.api)
            (
              q.0,
              Keeps-trans q.1 (record { fsm = refl; key = refl; net = refl; files = λ p. refl }),
            )

      handle-Quiet :
          (cfg : Config) (e : Event) (l : Looping S)
          → Quiet s l.agent
          → Quiet s (handle S cfg e l).1.agent
      unfolding handle
      handle-Quiet cfg (cancels script) l q = cut_off-Quiet script l.agent q
      handle-Quiet cfg (wakes draw cancelled) l q = poll-Quiet cancelled l.agent q
      handle-Quiet cfg ticks l q = went_on (heartbeat S l.agent) (heartbeat-Quiet l.agent q)
      handle-Quiet cfg ends l q = end-Quiet l.agent q
      handle-Quiet cfg (strikes script) l q =
          (q.0, Keeps-trans q.1 (record { fsm = refl; key = refl; net = refl; files = λ p. refl }))

      run_loop-Quiet :
          (cfg : Config) (es : List Event) (l : Looping S)
          → Quiet s l.agent
          → Quiet s (run_loop S cfg es l).1.agent
      unfolding run_loop
      run_loop-Quiet cfg [] l q = q
      run_loop-Quiet cfg (e ∷ es) l q =
          carried (handle S cfg e l) (run_loop S cfg es) (run_loop-Quiet cfg es)
            (handle-Quiet cfg e l q)

  landed-Quiet :
      (cfg : Config) (spec : DeviceSpec) (l : Looping S)
      → l.agent.running ≡ spec ∷ []
      → Quiet (run_upgrade S spec l.agent.run).1 (handle S cfg ends l).1.agent
  unfolding handle end_first
  landed-Quiet cfg spec l only =
      let o = run_upgrade S spec l.agent.run in
      rw (handle, only, end_first)
        (went_on o.1 (landed S o (record l.agent { running = [] })) (refl, Keeps-refl o.1))

  -- A transaction that is the only one gives up, and every device that the server serves from then
  -- on has the version and the checksum that it had; its URL may be another, and it may have been
  -- paused and unpaused. Whatever happens to the loops after its end, no transaction is running,
  -- nothing was downloaded and no file was changed, and the state machine and the failed target are
  -- as the transaction left them.
  pub failed_target_rests :
      (cfg : Config) (spec : DeviceSpec) (es : List Event) (l : Looping S)
      → l.agent.running ≡ spec ∷ []
      → GaveUp S spec (run_upgrade S spec l.agent.run)
      → Serves S (target_key spec)
      → let s = (run_upgrade S spec l.agent.run).1 in Quiet s (run_loop S cfg (ends ∷ es) l).1.agent
  unfolding run_loop
  failed_target_rests cfg spec es l only gave serves =
      let s = (run_upgrade S spec l.agent.run).1 in
      let here : Serves S s.last_failed_key = subst (Serves S) (sym gave.2) serves in
      carried s (handle S cfg ends l) (run_loop S cfg es) (run_loop-Quiet s here cfg es)
        (landed-Quiet cfg spec l only)
