-- ===== src/Commands/EdgeAgent.antt =====
-- cmd/agent/main.go: the flags of the agent, and what it does with them.
pub mod Runs
use edge_fleet_operator_demo.Base.{
  ℕ, String, true, false, Option, none, some, List, [], ◌∷◌, str_eq, if◌then◌else◌,
}
use edge_fleet_operator_demo.Agent.Disk.{Disk, Ended, done, failed, died}
use edge_fleet_operator_demo.Agent.Fsm.{new}
use edge_fleet_operator_demo.Agent.Kubeconfig.{
  Crypto, KubeClient, Result, ClientError, ok, err, new_kube_client,
}
use edge_fleet_operator_demo.Agent.Slots.{new_slot_manager}
use edge_fleet_operator_demo.Agent.Act.{Setting, Went, went, powerless, crashed}
use edge_fleet_operator_demo.Agent.Guard.{Agent}
use edge_fleet_operator_demo.Agent.Loop.{
  Config, Event, LoopState, running, returned, boot_failed, Looping, run,
}
use edge_fleet_operator_demo.Commands.Paths.{join}

pub record Flags : Type 0 where
  pub name : String
  pub namespace : String
  pub kubeconfig : String
  pub server : String
  pub data_dir : String
  pub poll_interval : ℕ
  pub heartbeat_interval : ℕ

-- The flags that are not given; an interval is in nanoseconds.
abbrev pub default_flags : Flags
default_flags = record {
  name = "";
  namespace = "default";
  kubeconfig = "";
  server = "";
  data_dir = "";
  poll_interval = 3000000000;
  heartbeat_interval = 5000000000;
}

-- The machine that the program runs on: the home directory, the files, the disk below a directory,
-- and the surroundings that a client of the API server gives an agent.
pub record Host : Type 1 where
  pub crypto : Crypto
  pub user_home_dir : Option String
  pub read_file : String → Option String
  pub disk : String → Disk
  pub setting : KubeClient crypto → Setting

module _ (H : Host) where
  open H use {crypto, user_home_dir, read_file, disk, setting}

  -- The program exits before New; New does not return an agent; or the agent runs.
  pub data Course : Type 0 where
    quits : ℕ → Course
    init_stops : Ended (Unit {0}) → Disk → Course
    drives :
        (dir : String) (kube : KubeClient crypto) → Went LoopState × Looping (setting kube) → Course

  -- The directory of the device, if it is known.
  unfoldable pub data_dir_of : Flags → Option String
  data_dir_of flags =
      if str_eq flags.data_dir ""
      then (elim user_home_dir [
        | none ↦ none
        | some home ↦ some (join (home ∷ ".edge-fleet" ∷ flags.name ∷ []))
      ])
      else some flags.data_dir

  abbrev pub config_of : Flags → Config
  config_of flags = record {
    poll_interval = flags.poll_interval;
    heartbeat_interval = flags.heartbeat_interval;
  }

  -- What New returns, with the servers as they are.
  abbrev pub new_agent :
      (kube : KubeClient crypto)
      → Disk
      → (setting kube).network.World
      → (setting kube).transport.World
      → Agent (setting kube)
  new_agent kube d net api = record {
    run = record { fsm = new true; last_failed_key = ""; disk = d; net = net; api = api };
    upgrading = false;
    last_seen_gen = 0;
    running = [];
  }

  module _
      (worlds : (kube : KubeClient crypto)
        → (setting kube).network.World × (setting kube).transport.World) where
    abbrev pub created :
        Flags → List Event → String → KubeClient crypto → Ended (Unit {0}) × Disk → Course
    created flags es dir kube (done _, d) =
        drives dir kube (
          run (setting kube) (config_of flags) es
            (new_agent kube d (worlds kube).0 (worlds kube).1))
    created flags es dir kube (failed e, d) = init_stops (failed e) d
    created flags es dir kube (died, d) = init_stops died d

    abbrev pub connected :
        Flags → List Event → String → Result ClientError (KubeClient crypto) → Course
    connected flags es dir (err e) = quits 1
    connected flags es dir (ok kube) = created flags es dir kube (new_slot_manager (disk dir))

    abbrev pub located : Flags → List Event → Option String → Course
    located flags es none = quits 1
    located flags es (some dir) =
        connected flags es dir (
          new_kube_client crypto read_file flags.server flags.kubeconfig flags.namespace flags.name)

    -- main
    pub agent_main : Flags → List Event → Course
    unfolding data_dir_of
    agent_main flags es =
        if str_eq flags.name "" then quits 2 else located flags es (data_dir_of flags)

  -- The exit code of a program that has ended by itself; 2 is the one of a panic.
  pub exit_code : Course → Option ℕ
  exit_code (quits n) = some n
  exit_code (init_stops died d) = none
  exit_code (init_stops _ d) = some 1
  exit_code (drives dir kube (went running, l)) = none
  exit_code (drives dir kube (went returned, l)) = some 0
  exit_code (drives dir kube (went boot_failed, l)) = some 1
  exit_code (drives dir kube (powerless, l)) = none
  exit_code (drives dir kube (crashed, l)) = some 2
