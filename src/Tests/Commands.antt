-- ===== src/Tests/Commands.antt =====
-- The theorems on the programs, on a device and with libraries of which one call fails.
use Prim.Native.String.{len}
use mathlib.Core.Path.{subst}
use edge_fleet_operator_demo.Base.{
  ◌≤◌, ◌≡◌, ◌⊎◌, refl, inl, inr, true, none, some, List, [], ◌∷◌, arith,
}
use edge_fleet_operator_demo.Agent.Disk.{file, fine, breaks, dies}
use edge_fleet_operator_demo.Agent.Kube.{
  Device, KubeResult, ok, err, response, Transport, read_device, get,
}
use edge_fleet_operator_demo.Agent.Kubeconfig.{KubeClient, new_kube_client}
use edge_fleet_operator_demo.Agent.Slots.Rules.{Pair_ab}
use edge_fleet_operator_demo.Agent.Slots.Working.{working}
use edge_fleet_operator_demo.Agent.Act.{Setting, Went}
use edge_fleet_operator_demo.Agent.Loop.{
  Event, cancels, wakes, ticks, ends, strikes, LoopState, Looping,
}
use edge_fleet_operator_demo.Agent.Loop.{run_loop}
use edge_fleet_operator_demo.Agent.Loop.Upgrades.{resting, Upgraded, loop_upgrades}
use edge_fleet_operator_demo.Agent.Guard.Launch.{IsWanted}
use edge_fleet_operator_demo.Agent.Transaction.{staging_of, target_key}
use edge_fleet_operator_demo.Agent.Text.{trim_space}
use edge_fleet_operator_demo.Agent.Fsm.{new}
use edge_fleet_operator_demo.Agent.Act.{Run}
use edge_fleet_operator_demo.Tests.Downloads.{precise, precise-IsReliable}
use edge_fleet_operator_demo.Agent.Loop.Safe.{SendsLong, Kept}
use edge_fleet_operator_demo.Agent.Loop.Started.{IsConfigured}
use edge_fleet_operator_demo.Commands.Paths.{join}
use edge_fleet_operator_demo.Commands.EdgeAgent.{
  Flags, default_flags, Host, drives, data_dir_of, config_of, agent_main, exit_code,
}
use edge_fleet_operator_demo.Commands.EdgeAgent.Runs.{agent_main-Kept}
use edge_fleet_operator_demo.Commands.Manager as Operator
use edge_fleet_operator_demo.Commands.Manager.{
  Runtime, manager_main, manager_options, with_authentication_and_authorization,
}
use edge_fleet_operator_demo.Commands.Manager.Order.{
  requests, Follows, IsHardened, recording, manager_main-Follows,
}
use edge_fleet_operator_demo.Tests.Agents.{files}
use edge_fleet_operator_demo.Tests.Kubeconfigs.{plain}
use edge_fleet_operator_demo.Tests.Transactions.{place, wanting, half_done}

join_test : join ("/home/edge" ∷ ".edge-fleet" ∷ "../device-1" ∷ []) ≡ "/home/edge/device-1"
unfolding join
join_test = refl

-- A server that always wants the same version.
abbrev pub steady : Transport
steady = record {
  World = Unit {0};
  get_request = λ w. (response 200 (some wanting), w);
  put_request = λ _ w. (response 200 none, w);
}

abbrev HasLong : KubeResult Device → Type 0
HasLong (ok dev) = 12 ≤ len dev.spec.checksum_sha256
HasLong (err e) = Unit {0}

steady-SendsLong : SendsLong steady
unfolding get read_device
steady-SendsLong w dev e = let long : HasLong (ok wanting) = omega arith in subst HasLong e long

abbrev pub steady_place : Setting
steady_place = record {
  network = place.network;
  transport = steady;
  seen_gen = λ _. 2;
  now = λ _. "12:00";
  hash = place.hash;
  error_text = place.error_text;
  download = place.download;
}

abbrev pub board : Host
board = record {
  crypto = plain;
  user_home_dir = none;
  read_file = λ _. none;
  disk = λ _. working files;
  setting = λ _. steady_place;
}

abbrev pub given : Flags
given = record default_flags {
  name = "device-1";
  server = "http://localhost:8001";
  data_dir = "/var/lib/device";
}

abbrev connection : KubeClient plain
connection = record {
  base = "http://localhost:8001";
  namespace = "default";
  name = "device-1";
  tls = none;
}

abbrev pub history : List Event
history =
    wakes 1000000000 none
    ∷ ticks
    ∷ strikes (fine ∷ breaks (some "fi") ∷ [])
    ∷ ends
    ∷ wakes 2000000000 (some [])
    ∷ cancels (fine ∷ fine ∷ dies none ∷ [])
    ∷ []

-- A poll starts a transaction, the next poll cannot read the disk, and then the program is told to
-- stop, whose exit comes at the transaction's third call.
abbrev shutdown : List Event
shutdown =
    wakes 1000000000 none
    ∷ strikes (breaks none ∷ [])
    ∷ wakes 2000000000 (some [])
    ∷ ticks
    ∷ cancels (fine ∷ fine ∷ dies none ∷ [])
    ∷ []

configured : IsConfigured (config_of board given)
configured = record { polls = refl; beats = refl; top = omega arith }

agent_main-Kept_example :
    (o : Went LoopState × Looping steady_place) × (agent_main board (λ _. (tt, tt)) given shutdown
      ≡ drives "/var/lib/device" connection o)
    × Kept steady_place (config_of board given) o
    × ((exit_code board (agent_main board (λ _. (tt, tt)) given shutdown) ≡ none)
        ⊎ (exit_code board (agent_main board (λ _. (tt, tt)) given shutdown) ≡ some 0))
unfolding data_dir_of new_kube_client
agent_main-Kept_example =
    agent_main-Kept board (λ _. (tt, tt)) given shutdown "/var/lib/device" connection files
      (λ e. cc e) refl refl configured refl steady-SendsLong
      (omega arith, (tt, (omega arith, (tt, (tt, tt))))) refl (inr refl) (inr refl)
      (inr ("A", "B", Pair_ab, inl refl, (file "", refl)))

-- The same server, with a network that has the image.
abbrev fine_place : Setting
fine_place = record {
  network = precise;
  transport = steady;
  seen_gen = λ _. 2;
  now = λ _. "12:00";
  hash = place.hash;
  error_text = place.error_text;
  download = place.download;
}

abbrev first_run : Run fine_place
first_run = record {
  fsm = new true;
  last_failed_key = "";
  disk = working half_done;
  net = tt;
  api = tt;
}

wanted : IsWanted (trim_space "factory") "" wanting.spec
unfolding trim_space target_key
wanted = (λ e. cc e, refl, λ e. cc e)

loop_upgrades_example : Upgraded fine_place wanting.spec "B" "firmware" (
    run_loop fine_place
      (config_of board given)
      (wakes 1000000000 none ∷ ends ∷ [])
      (record { agent = resting fine_place first_run half_done 0; waits = [] }))
unfolding get read_device staging_of trim_space
loop_upgrades_example =
    loop_upgrades fine_place (config_of board given) wanting Pair_ab first_run half_done 0
      1000000000 [] "factory" "firmware" refl (inl refl) refl refl refl refl wanted (omega arith)
      refl refl precise-IsReliable ("ware", refl)

-- Libraries that cannot start the manager.
abbrev halting : Runtime
halting = record {
  World = Unit {0};
  RestConfig = Unit {0};
  Manager = Unit {0};
  add_to_scheme = λ _ w. (some tt, w);
  get_config = λ w. (some tt, w);
  new_manager = λ _ _ w. (some tt, w);
  complete = λ _ _ w. (some tt, w);
  add_healthz_check = λ _ _ w. (some tt, w);
  add_readyz_check = λ _ _ w. (some tt, w);
  start = λ _ w. (none, w);
}

manager_main-Follows_example :
    let flags = Operator.default_flags in
    let o = manager_main (recording halting) flags (record { inner = tt; log = [] }) in
    Follows (requests flags) o.1.log o.0
    × IsHardened flags (manager_options flags).webhook.tls_opts
    × IsHardened flags (manager_options flags).metrics.tls_opts
    × (flags.secure_metrics ≡ true
        → (manager_options flags).metrics.filter_provider
          ≡ some with_authentication_and_authorization)
manager_main-Follows_example = manager_main-Follows halting Operator.default_flags tt
