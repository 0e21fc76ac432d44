-- ===== src/Agent/Loop/Started.antt =====
-- Run of internal/agent/agent.go from the boot sequence on, on a disk that works.
use mathlib.Core.Path.{subst, subst⁻¹}
use edge_fleet_operator_demo.Base.{
  ◌≤◌, ◌≡◌, ◌∙◌, ap, ◌⊎◌, inl, inr, String, true, false, ◌&&◌, List, [], All, if◌then◌else◌,
}
use edge_fleet_operator_demo.Base.Words.{i64_ltb}
use edge_fleet_operator_demo.Agent.Disk.{done, Disk}
use edge_fleet_operator_demo.Agent.Download.Backoff.{unset_options}
use edge_fleet_operator_demo.Agent.Fsm.{idle}
use edge_fleet_operator_demo.Agent.Slots.{boot_sequence}
use edge_fleet_operator_demo.Agent.Slots.Rules.{Boots}
use edge_fleet_operator_demo.Agent.Slots.Working.{Files, working}
use edge_fleet_operator_demo.Agent.Slots.Recovery.{boot_sequence-Rests}
use edge_fleet_operator_demo.Agent.Slots.Ready.{Ready}
use edge_fleet_operator_demo.Agent.Slots.PowerOn.{names, swapped}
use edge_fleet_operator_demo.Agent.Act.{Setting, crashed, settled}
use edge_fleet_operator_demo.Agent.Guard.{Agent}
use edge_fleet_operator_demo.Agent.Loop.{Config, Event, booted, run_loop, run}
use edge_fleet_operator_demo.Agent.Loop.Safe.{SendsLong, IsDrawn, Kept, run_loop-Kept}

-- An agent that New has made.
pub record IsNew {S : Setting} (a : Agent S) : Type 0 where
  pub off : a.upgrading ≡ false
  pub none_running : a.running ≡ []
  pub resting : a.run.fsm.state ≡ idle

-- What is asked of the flags: positive intervals, the one of the polls below 146 years.
pub record IsConfigured (cfg : Config) : Type 0 where
  pub polls : i64_ltb 0 cfg.poll_interval ≡ true
  pub beats : i64_ltb 0 cfg.heartbeat_interval ≡ true
  pub top : cfg.poll_interval ≤ 4611686018427387904

named : {x : String} (d : Disk) → (x ≡ "A") ⊎ (x ≡ "B") → Boots x d → Boots "A" d ⊎ Boots "B" d
named d (inl e) b = inl (subst (λ s. Boots s d) e b)
named d (inr e) b = inr (subst (λ s. Boots s d) e b)

pub run-Kept :
    (S : Setting) (cfg : Config) (es : List Event) (a : Agent S) (n : Files)
    → S.download ≡ unset_options
    → SendsLong S.transport
    → IsConfigured cfg
    → All (IsDrawn cfg) es
    → IsNew a
    → a.run.disk ≡ working n
    → Ready n
    → Kept S cfg (run S cfg es a)
unfolding run
run-Kept S cfg es a n unset long conf drawn fresh e (x, y, p, boots, ok, dir) =
    let (u, n2, ended, rests) = boot_sequence-Rests p S.hash n boots ok dir in
    let link_to : Boots "A" (working n2) ⊎ Boots "B" (working n2) = elim rests [
      | inl here ↦ named (working n2) (names p) here.0
      | inr there ↦ named (working n2) (names (swapped p)) there.0
    ] in
    let goes : boot_sequence S.hash a.run.disk ≡ (done u, working n2) =
      ap (boot_sequence S.hash) e ∙ ended in
    subst⁻¹
      (λ r. Kept S cfg (
        booted S (settled r a.run) a λ l.
          if i64_ltb 0 cfg.heartbeat_interval && i64_ltb 0 cfg.poll_interval
          then run_loop S cfg es l
          else (crashed, l)))
      goes
      (rw (conf.beats, conf.polls)
        (run_loop-Kept S unset long cfg conf.top es _ drawn
          (record {
            flight = inl (fresh.off, fresh.none_running);
            ready = inl fresh.resting;
            boots = link_to;
            checked = rw fresh.none_running tt;
          })
          tt))
