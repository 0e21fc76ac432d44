-- ===== src/Commands/EdgeAgent/Runs.antt =====
-- What cmd/agent/main.go runs, and how it exits.
use mathlib.Core.Path.{subst⁻¹}
use edge_fleet_operator_demo.Base.{
  ◌≡◌, ◌≢◌, refl, ap, ◌∙◌, ◌⊎◌, inl, inr, String, false, none, some, List, All, eq_iff, str_eq,
  arith,
}
use edge_fleet_operator_demo.Agent.Disk.{done}
use edge_fleet_operator_demo.Agent.Download.Backoff.{unset_options}
use edge_fleet_operator_demo.Agent.Kubeconfig.{KubeClient, ok, new_kube_client}
use edge_fleet_operator_demo.Agent.Slots.{new_slot_manager}
use edge_fleet_operator_demo.Agent.Slots.Working.{Files, working}
use edge_fleet_operator_demo.Agent.Slots.Ready.{HasRoom, Bootable, new_slot_manager-Ready}
use edge_fleet_operator_demo.Agent.Act.{Went, went, powerless, crashed}
use edge_fleet_operator_demo.Agent.Loop.{
  Event, LoopState, running, returned, boot_failed, Looping, run,
}
use edge_fleet_operator_demo.Agent.Loop.Safe.{SendsLong, IsDrawn, Kept}
use edge_fleet_operator_demo.Agent.Loop.Started.{IsConfigured, run-Kept}
use edge_fleet_operator_demo.Commands.EdgeAgent.{
  Flags, Host, drives, data_dir_of, config_of, new_agent, created, connected, agent_main, exit_code,
}

-- A program that is kept has not ended, or has exited with 0.
exits_well :
    (H : Host) (dir : String) (kube : KubeClient H.crypto) (flags : Flags)
    (o : Went LoopState × Looping (H.setting kube))
    → Kept (H.setting kube) (config_of H flags) o
    → (exit_code H (drives dir kube o) ≡ none) ⊎ (exit_code H (drives dir kube o) ≡ some 0)
unfolding exit_code
exits_well H dir kube flags (went running, l) kept = inl refl
exits_well H dir kube flags (went returned, l) kept = inr refl
exits_well H dir kube flags (went boot_failed, l) kept = absurd (kept.no_error refl)
exits_well H dir kube flags (powerless, l) kept = inl refl
exits_well H dir kube flags (crashed, l) kept = absurd (kept.alive refl)

-- With a name, a data directory, an API client and positive intervals, the one of the polls below
-- 146 years; with the download options of the agent and a server whose devices all have checksums
-- of twelve bytes or more; on a disk on which every call works until the loops begin, on which no
-- file takes the place of a slot's directory, and from which a device can be booted. Then, in
-- whatever order the polls, the heartbeats and the ends of transactions come, with draws of rand.N
-- below the interval, whichever calls of the disk fail from there on, wherever the power is lost, and
-- wherever the exit of the program stops a transaction: the program runs an agent that, after these
-- events, boots slot A or slot B and has neither failed to boot nor panicked. While it runs, it has
-- one transaction at most and a machine ready for the next. Its waits were between a half and one and
-- a half of the interval. If the program has exited by itself, it was with 0.
pub agent_main-Kept :
    (H : Host)
    (worlds : (kube : KubeClient H.crypto)
      → (H.setting kube).network.World × (H.setting kube).transport.World)
    (flags : Flags) (es : List Event) (dir : String) (kube : KubeClient H.crypto) (n : Files)
    → flags.name ≢ ""
    → data_dir_of H flags ≡ some dir
    → new_kube_client H.crypto H.read_file flags.server flags.kubeconfig flags.namespace flags.name
      ≡ ok kube
    → IsConfigured (config_of H flags)
    → (H.setting kube).download ≡ unset_options
    → SendsLong (H.setting kube).transport
    → All (IsDrawn (config_of H flags)) es
    → H.disk dir ≡ working n
    → HasRoom "A" n
    → HasRoom "B" n
    → Bootable n
    → (o : Went LoopState × Looping (H.setting kube)) × (agent_main H worlds flags es
        ≡ drives dir kube o)
      × Kept (H.setting kube) (config_of H flags) o
      × ((exit_code H (agent_main H worlds flags es) ≡ none)
          ⊎ (exit_code H (agent_main H worlds flags es) ≡ some 0))
unfolding agent_main
agent_main-Kept H worlds flags es dir kube n named known client conf unset long drawn disk_is room_a
      room_b boot =
    let (u, n1, ended, ready) = new_slot_manager-Ready n room_a room_b boot in
    let S = H.setting kube in
    let cfg = config_of H flags in
    let a = new_agent H kube (working n1) (worlds kube).0 (worlds kube).1 in
    let kept : Kept S cfg (run S cfg es a) =
      run-Kept S cfg es a n1 unset long conf drawn
        (record { off = refl; none_running = refl; resting = refl }) refl ready in
    let is_named : str_eq flags.name "" ≡ false = ground (arith, eq_iff flags.name "") in
    let manager : new_slot_manager (H.disk dir) ≡ (done u, working n1) =
      ap new_slot_manager disk_is ∙ ended in
    let course : agent_main H worlds flags es ≡ drives dir kube (run S cfg es a) =
      rw (agent_main, is_named, known)
        (ap (connected H worlds flags es dir) client
          ∙ ap (created H worlds flags es dir kube) manager) in
    (
      run S cfg es a,
      course,
      kept,
      subst⁻¹ (λ c. (exit_code H c ≡ none) ⊎ (exit_code H c ≡ some 0)) course
          (exits_well H dir kube flags (run S cfg es a) kept),
    )
