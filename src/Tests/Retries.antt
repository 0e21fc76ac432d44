-- ===== src/Tests/Retries.antt =====
-- The loops after a failed transaction, on a device whose disk fails.
use mathlib.Core.Path.{subst}
use edge_fleet_operator_demo.Base.{◌≡◌, refl, true, none, [], ◌∷◌}
use edge_fleet_operator_demo.Agent.Disk.{breaks}
use edge_fleet_operator_demo.Agent.Fsm.{new, to}
use edge_fleet_operator_demo.Agent.Kube.{Device, KubeResult, ok, err, read_device, get}
use edge_fleet_operator_demo.Agent.Slots.Working.{working}
use edge_fleet_operator_demo.Agent.Act.{Run, report_status}
use edge_fleet_operator_demo.Agent.Transaction.{
  target_key, run_upgrade, report_started, fetch_step, fetch_image, give_up,
}
use edge_fleet_operator_demo.Agent.Transaction.Refines.{GaveUp}
use edge_fleet_operator_demo.Agent.Loop.{Looping, ends, run_loop}
use edge_fleet_operator_demo.Agent.Loop.Retries.{Serves, Quiet, failed_target_rests}
use edge_fleet_operator_demo.Commands.EdgeAgent.{config_of}
use edge_fleet_operator_demo.Tests.Commands.{steady_place, board, given, history}
use edge_fleet_operator_demo.Tests.Transactions.{wanting, target, half_done}

-- A transaction on a disk whose first call fails, so that the download cannot be opened.
abbrev poor_run : Run steady_place
poor_run = record {
  fsm = new true;
  last_failed_key = "";
  disk = record (working half_done) { script = breaks none ∷ [] };
  net = tt;
  api = tt;
}

abbrev poor : Looping steady_place
poor = record {
  agent = record { run = poor_run; upgrading = true; last_seen_gen = 2; running = target ∷ [] };
  waits = [];
}

poor-GaveUp : GaveUp steady_place target (run_upgrade steady_place target poor_run)
unfolding run_upgrade report_started report_status fetch_step fetch_image give_up to
poor-GaveUp = (refl, refl, refl)

abbrev HasTarget : KubeResult Device → Type 0
HasTarget (ok dev) = target_key dev.spec ≡ target_key target
HasTarget (err e) = Unit {0}

steady-Serves : Serves steady_place (target_key target)
unfolding get read_device
steady-Serves w dev e = let same : HasTarget (ok wanting) = refl in subst HasTarget e same

failed_target_rests_example :
    Quiet steady_place
      (run_upgrade steady_place target poor_run).1
      (run_loop steady_place (config_of board given) (ends ∷ history) poor).1.agent
failed_target_rests_example =
    failed_target_rests steady_place (config_of board given) target history poor refl poor-GaveUp
      steady-Serves
