-- ===== src/Agent/Guard.antt =====
-- The poll loop of internal/agent/agent.go: evaluate, syncSteadyStatus, startUpgrade with its
-- single-flight guard, and the heartbeat.
pub mod Keeps
pub mod Flight
pub mod Launch
use edge_fleet_operator_demo.Base.{
  ℕ, String, Bool, true, false, ◌&&◌, Option, none, some, List, [], ◌∷◌, ◌++◌, str_eq,
  if◌then◌else◌,
}
use edge_fleet_operator_demo.Agent.Disk.{Disk}
use edge_fleet_operator_demo.Agent.Fsm.{Fsm, new}
use edge_fleet_operator_demo.Agent.Kube.{
  Device, DeviceSpec, DeviceStatus, set_condition, stamped, update_status,
}
use edge_fleet_operator_demo.Agent.Slots.{active, active_version}
use edge_fleet_operator_demo.Agent.Act.{
  Setting, Run, Went, went, powerless, crashed, Act, pure, ◌>>=◌, ◌>>◌, on_disk, proceed,
}
use edge_fleet_operator_demo.Agent.Transaction.{firmware_synced, target_key}

-- The agent. `running` holds the targets whose goroutines have been started and have not ended.
pub record Agent (S : Setting) : Type 0 where
  pub run : Run S
  pub upgrading : Bool
  pub last_seen_gen : ℕ
  pub running : List DeviceSpec

-- What evaluate decides to do.
pub data Decision : Type 0 where
  report_steady hold skip_failed launch : Decision

-- The tests of evaluate, by the version that runs and the target that failed last.
unfoldable pub decide : String → String → DeviceSpec → Decision
unfolding target_key
decide current failed_key spec =
    if str_eq spec.desired_firmware_version current
    then report_steady
    else if spec.rollout_paused
    then hold
    else if str_eq failed_key (target_key spec)
    then skip_failed
    else launch

-- startUpgrade: the goroutine is started unless one is running.
unfoldable pub start_upgrade : {S : Setting} → DeviceSpec → Agent S → Agent S
start_upgrade spec a =
    if a.upgrading then a else record a { upgrading = true; running = spec ∷ a.running }

module _ (S : Setting) where
  open S use {transport, now}

  -- reportStatus in the goroutine that stores the generation.
  unfoldable pub report_seen : ℕ → (String → DeviceStatus → ℕ → DeviceStatus) → Act S (Unit {0})
  report_seen gen mutate s =
      let (r, w) = update_status transport (λ w dev. stamped (mutate (now w)) gen dev) s.api in
      (went tt, record s { api = w })

  -- The report of syncSteadyStatus, unless the status shows the slot and the version.
  unfoldable pub report_drift : Bool → ℕ → String → String → Act S (Unit {0})
  unfolding report_seen
  report_drift true gen current slot = pure tt
  report_drift false gen current slot = report_seen gen (λ time st g.
      set_condition
        (firmware_synced "True" "Synced" "device firmware matches desired version" g time)
        (record st { current_firmware_version = current; active_slot = slot }))

  -- syncSteadyStatus
  unfoldable pub sync_steady_status : ℕ → Device → String → Act S (Unit {0})
  unfolding report_drift
  sync_steady_status gen dev current = do
    found ← on_disk active
    let slot = elim found as (λ _. String) [ none ↦ "" | some s ↦ s ]
    report_drift
        (str_eq dev.status.current_firmware_version current && str_eq dev.status.active_slot slot)
        gen current slot

  abbrev pub with_run : Went (Unit {0}) × Run S → Agent S → Went (Unit {0}) × Agent S
  with_run (r, s) a = (r, record a { run = s })

  -- What evaluate does once the running version is known.
  unfoldable pub act_on : Decision → Device → String → Agent S → Went (Unit {0}) × Agent S
  unfolding start_upgrade
  act_on report_steady dev current a =
      with_run (sync_steady_status a.last_seen_gen dev current a.run) a
  act_on hold dev current a = (went tt, a)
  act_on skip_failed dev current a = (went tt, a)
  act_on launch dev current a = (went tt, start_upgrade dev.spec a)

  abbrev pub resolve : Went (Option String) × Run S → Device → Agent S → Went (Unit {0}) × Agent S
  resolve (went none, s) dev a =
      act_on (decide "" s.last_failed_key dev.spec) dev "" (record a { run = s })
  resolve (went (some current), s) dev a =
      act_on (decide current s.last_failed_key dev.spec) dev current (record a { run = s })
  resolve (powerless, s) dev a = (powerless, record a { run = s })
  resolve (crashed, s) dev a = (crashed, record a { run = s })

  -- evaluate
  unfoldable pub evaluate : Device → Agent S → Went (Unit {0}) × Agent S
  unfolding act_on decide
  evaluate dev a =
      let seen = record a { last_seen_gen = dev.metadata.generation } in
      resolve (on_disk active_version seen.run) dev seen

  -- One round of heartbeatLoop.
  unfoldable pub heartbeat : Agent S → Went (Unit {0}) × Agent S
  unfolding report_seen
  heartbeat a =
      with_run
        (report_seen a.last_seen_gen (λ time st gen. record st { last_heartbeat = time }) a.run) a
