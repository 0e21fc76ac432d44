-- ===== src/Agent/Loop/Safe.antt =====
-- Whatever happens to the loops of internal/agent/agent.go: what Run leaves.
use Prim.Native.String.{len}
use mathlib.Core.Path.{subst}
use edge_fleet_operator_demo.Base.{
  ℕ, ◌+◌, ◌*◌, ◌≤◌, ◌<◌, ◌≡◌, ◌≢◌, refl, ◌⊎◌, inl, inr, Option, none, some, List, [], ◌∷◌, All,
  arith,
}
use edge_fleet_operator_demo.Agent.Disk.{Disk, Fault}
use edge_fleet_operator_demo.Agent.Download.Backoff.{unset_options}
use edge_fleet_operator_demo.Agent.Fsm.{State, idle}
use edge_fleet_operator_demo.Agent.Kube.{Device, DeviceSpec, KubeResult, ok, err, Transport, get}
use edge_fleet_operator_demo.Agent.Slots.Rules.{Boots, Pair, Pair_ab, Pair_ba}
use edge_fleet_operator_demo.Agent.Act.{Setting, Run, Went, went, powerless, crashed}
use edge_fleet_operator_demo.Agent.Transaction.{run_upgrade}
use edge_fleet_operator_demo.Agent.Transaction.Safety.{run_upgrade-IsSafe}
use edge_fleet_operator_demo.Agent.Guard.{Agent, report_seen, evaluate, heartbeat}
use edge_fleet_operator_demo.Agent.Guard.Flight.{Inv, evaluate-Inv, heartbeat-Inv, ended-Inv}
use edge_fleet_operator_demo.Agent.Loop.Alive.{evaluate_alive}
use edge_fleet_operator_demo.Agent.Loop.{
  Config, Event, cancels, wakes, ticks, ends, strikes, LoopState, running, returned, boot_failed,
  Looping, wait_of, now_at, goes_on, struck, stopped, cut_off, polled_with, poll, landed, end_first,
  handle, carry_on, run_loop,
}

-- Every device that the server sends has a checksum of twelve bytes or more.
abbrev pub SendsLong : Transport → Type 0
SendsLong T =
    (w : T.World) (dev : Device) → (get T w).0 ≡ ok dev → 12 ≤ len dev.spec.checksum_sha256

-- What rand.N is documented to give: a number below the interval.
abbrev pub IsDrawn : Config → Event → Type 0
IsDrawn cfg (cancels script) = Unit {0}
IsDrawn cfg (wakes draw cancelled) = draw < cfg.poll_interval
IsDrawn cfg ticks = Unit {0}
IsDrawn cfg ends = Unit {0}
IsDrawn cfg (strikes script) = Unit {0}

-- From half an interval to one and a half.
abbrev pub IsJittered : Config → ℕ → Type 0
IsJittered cfg d = (cfg.poll_interval ≤ 2 * d + 1) × (2 * d < 3 * cfg.poll_interval)

pub jitter :
    (cfg : Config) (draw : ℕ)
    → cfg.poll_interval ≤ 4611686018427387904
    → draw < cfg.poll_interval
    → IsJittered cfg (wait_of cfg draw)
unfolding wait_of
jitter cfg draw top h = (omega arith, omega arith)

abbrev BootsOne : Disk → Type 0
BootsOne d = Boots "A" d ⊎ Boots "B" d

-- How a piece of the loops ends: the device boots one of the two slots; the program has not
-- panicked; the invariant holds while it runs; and the waits are in range.
pub record Kept (S : Setting) (cfg : Config) (o : Went LoopState × Looping S) : Type 0 where
  pub boots : Boots "A" o.1.agent.run.disk ⊎ Boots "B" o.1.agent.run.disk
  pub alive : o.0 ≢ crashed
  pub no_error : o.0 ≢ went boot_failed
  pub inv : o.0 ≡ went running → Inv S o.1.agent
  pub waits : All (IsJittered cfg) o.1.waits

module _ (S : Setting) (unset : S.download ≡ unset_options) (long : SendsLong S.transport)
    (cfg : Config) (top : cfg.poll_interval ≤ 4611686018427387904) where
  -- From the agent to the loops.
  stays :
      (o : Went (Unit {0}) × Agent S) (waits : List ℕ)
      → BootsOne o.1.run.disk
      → o.0 ≢ crashed
      → (o.0 ≡ went tt → Inv S o.1)
      → All (IsJittered cfg) waits
      → Kept S cfg (now_at S (goes_on S o) waits)
  stays (went _, a) waits boots alive inv all = record {
    boots = boots;
    alive = λ e. cc e;
    no_error = λ e. cc e;
    inv = λ e. inv refl;
    waits = all;
  }
  stays (powerless, a) waits boots alive inv all = record {
    boots = boots;
    alive = λ e. cc e;
    no_error = λ e. cc e;
    inv = λ e. absurd (cc e);
    waits = all;
  }
  stays (crashed, a) waits boots alive inv all = absurd (alive refl)

  upgraded :
      {x y : _} (p : Pair x y) (spec : DeviceSpec) (a : Agent S)
      → 12 ≤ len spec.checksum_sha256
      → (a.run.fsm.state ≡ idle) ⊎ (a.run.fsm.state ≡ State.failed)
      → Boots x a.run.disk
      → let o = run_upgrade S spec a.run in (Boots x o.1.disk ⊎ Boots y o.1.disk) × (o.0 ≢ crashed)
  upgraded p spec a enough ready boots =
      let (safe, how) = run_upgrade-IsSafe S spec p a.run unset ready enough boots in
      (
        elim safe.1 [ inl b ↦ inl b | inr (b, v) ↦ inr b ],
        elim how [
          | inl gave ↦ λ e. cc (e, gave.0)
          | inr (inl fin) ↦ elim fin.0.1 [ inl is ↦ λ e. cc (e, is) | inr is ↦ λ e. cc (e, is) ]
          | inr (inr lost) ↦ λ e. cc (e, lost)
        ],
      )

  swap : {P Q : Type 0} → P ⊎ Q → Q ⊎ P
  swap (inl p) = inr p
  swap (inr q) = inl q

  -- The transaction that runs, on whichever slot the device boots, and whatever its disk does.
  run_upgrade_sound :
      (spec : DeviceSpec) (rest : List DeviceSpec) (a : Agent S) (script : List Fault)
      → a.running ≡ spec ∷ rest
      → Inv S a
      → let o = run_upgrade S spec (struck S script a.run) in BootsOne o.1.disk × (o.0 ≢ crashed)
  run_upgrade_sound spec rest a script e inv =
      let enough = subst (All (λ (t : DeviceSpec). 12 ≤ len t.checksum_sha256)) e inv.checked in
      let b = record a { run = struck S script a.run } in
      elim inv.boots [
        | inl at_a ↦ upgraded Pair_ab spec b enough.0 inv.ready at_a
        | inr at_b ↦
            let (boots, alive) = upgraded Pair_ba spec b enough.0 inv.ready at_b in
            (swap boots, alive)
      ]

  ended-Kept :
      (spec : DeviceSpec) (rest : List DeviceSpec) (a : Agent S) (waits : List ℕ)
      → a.running ≡ spec ∷ rest
      → Inv S a
      → All (IsJittered cfg) waits
      → Kept S cfg (
          now_at S
            (goes_on S (landed S (run_upgrade S spec a.run) (record a { running = rest })))
            waits)
  ended-Kept spec rest a waits e inv all =
      let o = run_upgrade S spec a.run in
      let (boots, alive) = run_upgrade_sound spec rest a a.run.disk.script e inv in
      stays (landed S o (record a { running = rest })) waits boots alive
        (λ is. ended-Inv S unset a spec rest o.1 e (cc is) inv) all

  stopped-Kept :
      (o : Went (Unit {0}) × Run S) (a : Agent S) (waits : List ℕ)
      → BootsOne o.1.disk
      → o.0 ≢ crashed
      → All (IsJittered cfg) waits
      → Kept S cfg (now_at S (stopped S o a) waits)
  stopped-Kept (went _, s) a waits boots alive all = record {
    boots = boots;
    alive = λ e. cc e;
    no_error = λ e. cc e;
    inv = λ e. absurd (cc e);
    waits = all;
  }
  stopped-Kept (powerless, s) a waits boots alive all = record {
    boots = boots;
    alive = λ e. cc e;
    no_error = λ e. cc e;
    inv = λ e. absurd (cc e);
    waits = all;
  }
  stopped-Kept (crashed, s) a waits boots alive all = absurd (alive refl)

  -- The exit of the program stops the transaction anywhere.
  cut_off-Kept :
      (script : List Fault) (l : List DeviceSpec) (a : Agent S) (waits : List ℕ)
      → a.running ≡ l
      → Inv S a
      → All (IsJittered cfg) waits
      → Kept S cfg (now_at S (cut_off S script l a) waits)
  unfolding cut_off
  cut_off-Kept script [] a waits e inv all = record {
    boots = inv.boots;
    alive = λ e. cc e;
    no_error = λ e. cc e;
    inv = λ e. inv;
    waits = all;
  }
  cut_off-Kept script (spec ∷ rest) a waits e inv all =
      let (boots, alive) = run_upgrade_sound spec rest a script e inv in
      stopped-Kept (run_upgrade S spec (struck S script a.run)) a waits boots alive all

  polled_with-Kept :
      (cancelled : Option (List Fault)) (found : KubeResult Device) (a : Agent S) (waits : List ℕ)
      → ((dev : Device) → found ≡ ok dev → 12 ≤ len dev.spec.checksum_sha256)
      → Inv S a
      → All (IsJittered cfg) waits
      → Kept S cfg (now_at S (polled_with S cancelled found a) waits)
  unfolding polled_with
  polled_with-Kept (some script) (err e) a waits h inv all =
      cut_off-Kept script a.running a waits refl inv all
  polled_with-Kept none (err e) a waits h inv all = record {
    boots = inv.boots;
    alive = λ e. cc e;
    no_error = λ e. cc e;
    inv = λ e. inv;
    waits = all;
  }
  polled_with-Kept cancelled (ok dev) a waits h inv all =
      let kept = evaluate-Inv S dev a (h dev refl) inv in
      stays (evaluate S dev a) waits kept.boots (evaluate_alive dev a) (λ e. kept) all

  end_first-Kept :
      (l : List DeviceSpec) (a : Agent S) (waits : List ℕ)
      → a.running ≡ l
      → Inv S a
      → All (IsJittered cfg) waits
      → Kept S cfg (now_at S (goes_on S (end_first S l a)) waits)
  unfolding end_first
  end_first-Kept [] a waits e inv all =
      stays (went tt, a) waits inv.boots (λ e. cc e) (λ e. inv) all
  end_first-Kept (spec ∷ rest) a waits e inv all = ended-Kept spec rest a waits e inv all

  handle-Kept :
      (e : Event) (l : Looping S)
      → IsDrawn cfg e
      → Inv S l.agent
      → All (IsJittered cfg) l.waits
      → Kept S cfg (handle S cfg e l)
  unfolding handle poll heartbeat report_seen
  handle-Kept (cancels script) l drawn inv all =
      cut_off-Kept script l.agent.running l.agent l.waits refl inv all
  handle-Kept (wakes draw cancelled) l drawn inv all =
      let (found, w) = get S.transport l.agent.run.api in
      polled_with-Kept cancelled found (record l.agent { run = record l.agent.run { api = w } }) _
        (λ dev e. long l.agent.run.api dev e)
        (record {
          flight = inv.flight;
          ready = inv.ready;
          boots = inv.boots;
          checked = inv.checked;
        })
        (jitter cfg draw top drawn, all)
  handle-Kept ticks l drawn inv all =
      let kept = heartbeat-Inv S l.agent inv in
      stays (heartbeat S l.agent) l.waits kept.boots (λ e. cc e) (λ e. kept) all
  handle-Kept ends l drawn inv all = end_first-Kept l.agent.running l.agent l.waits refl inv all
  handle-Kept (strikes script) l drawn inv all = record {
    boots = inv.boots;
    alive = λ e. cc e;
    no_error = λ e. cc e;
    inv = λ e. record {
      flight = inv.flight;
      ready = inv.ready;
      boots = inv.boots;
      checked = inv.checked;
    };
    waits = all;
  }

  carried :
      (o : Went LoopState × Looping S) (k : Looping S → Went LoopState × Looping S)
      → Kept S cfg o
      → ((l : Looping S) → Inv S l.agent → All (IsJittered cfg) l.waits → Kept S cfg (k l))
      → Kept S cfg (carry_on S o k)
  carried (went running, l) k kept h = h l (kept.inv refl) kept.waits
  carried (went returned, l) k kept h = kept
  carried (went boot_failed, l) k kept h = kept
  carried (powerless, l) k kept h = kept
  carried (crashed, l) k kept h = kept

  pub run_loop-Kept :
      (es : List Event) (l : Looping S)
      → All (IsDrawn cfg) es
      → Inv S l.agent
      → All (IsJittered cfg) l.waits
      → Kept S cfg (run_loop S cfg es l)
  unfolding run_loop
  run_loop-Kept [] l drawn inv all = record {
    boots = inv.boots;
    alive = λ e. cc e;
    no_error = λ e. cc e;
    inv = λ e. inv;
    waits = all;
  }
  run_loop-Kept (e ∷ es) l drawn inv all =
      carried (handle S cfg e l) (run_loop S cfg es) (handle-Kept e l drawn.0 inv all)
        (λ m inv2 all2. run_loop-Kept es m drawn.1 inv2 all2)
