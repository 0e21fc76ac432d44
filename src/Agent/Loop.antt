-- ===== src/Agent/Loop.antt =====
-- Run of internal/agent/agent.go: the boot sequence and the poll loop, with heartbeatLoop and the
-- transaction's goroutine beside it.
pub mod Alive
pub mod Safe
pub mod Started
pub mod Upgrades
pub mod Retries
use edge_fleet_operator_demo.Base.{
  ℕ, ◌/◌, Bool, true, false, Option, none, some, List, [], ◌∷◌, if◌then◌else◌, ◌&&◌,
}
use edge_fleet_operator_demo.Base.Words.{i64_add, i64_ltb}
use edge_fleet_operator_demo.Agent.Disk.{Fault}
use edge_fleet_operator_demo.Agent.Kube.{Device, DeviceSpec, KubeResult, ok, err, get}
use edge_fleet_operator_demo.Agent.Slots.{boot_sequence}
use edge_fleet_operator_demo.Agent.Act.{Setting, Run, Went, went, powerless, crashed, on_disk}
use edge_fleet_operator_demo.Agent.Transaction.{run_upgrade}
use edge_fleet_operator_demo.Agent.Guard.{Agent, evaluate, heartbeat}

-- The intervals of Config, int64 nanoseconds as bit patterns.
pub record Config : Type 0 where
  pub poll_interval : ℕ
  pub heartbeat_interval : ℕ

-- What the goroutines wait for: the context is cancelled; the wait of the poll loop is over, with
-- the number that rand.N drew for it, and whether the context is cancelled once Get has returned;
-- the ticker of the heartbeat; and the end of a transaction. A context that is cancelled carries what
-- becomes of the disk calls of a transaction that is running, up to the one at which the exit of the
-- program stops it. Beside them, the disk takes a script for the calls that follow.
pub data Event : Type 0 where
  cancels : List Fault → Event
  wakes : ℕ → Option (List Fault) → Event
  ticks : Event
  ends : Event
  strikes : List Fault → Event

-- Run has not returned, or it has returned nil, or the error of the boot sequence.
pub data LoopState : Type 0 where
  running returned boot_failed : LoopState

-- The agent, and the waits of the poll loop, the last one first.
pub record Looping (S : Setting) : Type 0 where
  pub agent : Agent S
  pub waits : List ℕ

-- PollInterval/2 + rand.N(PollInterval)
pub wait_of : Config → ℕ → ℕ
wait_of cfg draw = i64_add (cfg.poll_interval / 2) draw

module _ (S : Setting) where
  open S use {transport, hash}

  abbrev pub now_at : Went LoopState × Agent S → List ℕ → Went LoopState × Looping S
  now_at (r, a) waits = (r, record { agent = a; waits = waits })

  abbrev pub goes_on : Went (Unit {0}) × Agent S → Went LoopState × Agent S
  goes_on (went _, a) = (went running, a)
  goes_on (powerless, a) = (powerless, a)
  goes_on (crashed, a) = (crashed, a)

  -- The disk with a script for its next calls.
  abbrev pub struck : List Fault → Run S → Run S
  struck script s = record s { disk = record s.disk { script = script } }

  -- What is left of a transaction that the exit of the program may have stopped.
  abbrev pub stopped : Went (Unit {0}) × Run S → Agent S → Went LoopState × Agent S
  stopped (went _, s) a = (went returned, record a { run = s })
  stopped (powerless, s) a = (went returned, record a { run = s })
  stopped (crashed, s) a = (crashed, record a { run = s })

  -- Run returns, and the program exits, whatever transactions are running.
  pub cut_off : List Fault → List DeviceSpec → Agent S → Went LoopState × Agent S
  cut_off script [] a = (went returned, a)
  cut_off script (spec ∷ rest) a = stopped (run_upgrade S spec (struck script a.run)) a

  -- What a round makes of the answer of Get.
  pub polled_with : Option (List Fault) → KubeResult Device → Agent S → Went LoopState × Agent S
  unfolding cut_off
  polled_with (some script) (err e) a = cut_off script a.running a
  polled_with none (err e) a = (went running, a)
  polled_with cancelled (ok dev) a = goes_on (evaluate S dev a)

  -- A round of the poll loop, after its wait.
  pub poll : Option (List Fault) → Agent S → Went LoopState × Agent S
  unfolding polled_with
  poll cancelled a =
      let (found, w) = get transport a.run.api in
      polled_with cancelled found (record a { run = record a.run { api = w } })

  abbrev pub landed : Went (Unit {0}) × Run S → Agent S → Went (Unit {0}) × Agent S
  landed (r, s) a = (r, record a { run = s; upgrading = false })

  -- By the transactions that are running.
  pub end_first : List DeviceSpec → Agent S → Went (Unit {0}) × Agent S
  end_first [] a = (went tt, a)
  end_first (spec ∷ rest) a = landed (run_upgrade S spec a.run) (record a { running = rest })

  -- The goroutine of startUpgrade, up to its end.
  abbrev pub end_upgrade : Agent S → Went (Unit {0}) × Agent S
  end_upgrade a = end_first a.running a

  pub handle : Config → Event → Looping S → Went LoopState × Looping S
  unfolding poll end_first wait_of cut_off
  handle cfg (cancels script) l = now_at (cut_off script l.agent.running l.agent) l.waits
  handle cfg (wakes draw cancelled) l = now_at (poll cancelled l.agent) (wait_of cfg draw ∷ l.waits)
  handle cfg ticks l = now_at (goes_on (heartbeat S l.agent)) l.waits
  handle cfg ends l = now_at (goes_on (end_upgrade l.agent)) l.waits
  handle cfg (strikes script) l =
      (went running, record l { agent = record l.agent { run = struck script l.agent.run } })

  abbrev pub carry_on :
      Went LoopState × Looping S
      → (Looping S → Went LoopState × Looping S)
      → Went LoopState × Looping S
  carry_on (went running, l) k = k l
  carry_on (went returned, l) k = (went returned, l)
  carry_on (went boot_failed, l) k = (went boot_failed, l)
  carry_on (powerless, l) k = (powerless, l)
  carry_on (crashed, l) k = (crashed, l)

  -- The loops, by what happens.
  pub run_loop : Config → List Event → Looping S → Went LoopState × Looping S
  unfolding handle
  run_loop cfg [] l = (went running, l)
  run_loop cfg (e ∷ es) l = carry_on (handle cfg e l) (run_loop cfg es)

  abbrev pub booted :
      Went (Option (Unit {0})) × Run S
      → Agent S
      → (Looping S → Went LoopState × Looping S)
      → Went LoopState × Looping S
  booted (went none, s) a k =
      (went boot_failed, record { agent = record a { run = s }; waits = [] })
  booted (went (some _), s) a k = k (record { agent = record a { run = s }; waits = [] })
  booted (powerless, s) a k = (powerless, record { agent = record a { run = s }; waits = [] })
  booted (crashed, s) a k = (crashed, record { agent = record a { run = s }; waits = [] })

  -- Run. A ticker or a draw with an interval that is not positive panics.
  pub run : Config → List Event → Agent S → Went LoopState × Looping S
  unfolding run_loop
  run cfg es a = booted (on_disk (boot_sequence hash) a.run) a λ l.
      if i64_ltb 0 cfg.heartbeat_interval && i64_ltb 0 cfg.poll_interval
      then run_loop cfg es l
      else (crashed, l)
