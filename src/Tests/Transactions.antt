-- ===== src/Tests/Transactions.antt =====
-- The theorems on whole transactions, on a device and what it talks to.
use edge_fleet_operator_demo.Base.{◌≡◌, ◌↔◌, ◌⊎◌, inl, refl, true, false, [], ◌∷◌, arith}
use edge_fleet_operator_demo.Agent.Disk.{file, rest, read_link, read_file}
use edge_fleet_operator_demo.Agent.Download.Backoff.{unset_options}
use edge_fleet_operator_demo.Agent.Fsm.{idle, new}
use edge_fleet_operator_demo.Agent.Kube.{Device, DeviceSpec}
use edge_fleet_operator_demo.Agent.Slots.{power_on, active_version, active}
use edge_fleet_operator_demo.Agent.Slots.Effects.{Verified}
use edge_fleet_operator_demo.Agent.Slots.Rules.{Pair_ab, Boots}
use edge_fleet_operator_demo.Agent.Slots.Once.{one_trial}
use edge_fleet_operator_demo.Agent.Disk.{done, pending_marker}
use edge_fleet_operator_demo.Agent.Slots.{promote_staged, boot_check, trial, rolled_back}
use edge_fleet_operator_demo.Agent.Slots.Working.{Files, working, Ends}
use edge_fleet_operator_demo.Agent.Slots.PowerOn.{Rested}
use edge_fleet_operator_demo.Agent.Upgrade.Crash.{IsSafe}
use edge_fleet_operator_demo.Agent.Act.{Setting, Run, went, powerless}
use edge_fleet_operator_demo.Agent.Transaction.{started_status, run_upgrade}
use edge_fleet_operator_demo.Agent.Transaction.Refines.{GaveUp, Finished}
use edge_fleet_operator_demo.Agent.Transaction.Safety.{run_upgrade-IsSafe}
use edge_fleet_operator_demo.Agent.Transaction.Told.{after_report}
use edge_fleet_operator_demo.Agent.Transaction.Tells.{Tells, run_upgrade-Tells}
use edge_fleet_operator_demo.Agent.Transaction.Recovery.{upgrade_recovers}
use edge_fleet_operator_demo.Agent.Text.{trim_prefix, trim_space, base}
use edge_fleet_operator_demo.Agent.Guard.{Agent, act_on, decide, evaluate}
use edge_fleet_operator_demo.Agent.Guard.Flight.{Inv, polled, here, later, Reach-Inv}
use edge_fleet_operator_demo.Agent.Guard.Launch.{IsWanted, evaluate_launches_iff}
use edge_fleet_operator_demo.Agent.Disk.{
  FilePath, Node, link, staging, current_tmp, current_link, slot_dir, folder, firmware_file,
  version_file, confirmed_marker, in_slot,
}
use edge_fleet_operator_demo.Base.{if◌then◌else◌, Option, none, some, str_eq}
use edge_fleet_operator_demo.Agent.Download.{
  download_with_resume, with_defaults, attempts, wait_before, download_once, receive, save,
  offset_of,
}
use edge_fleet_operator_demo.Agent.Transaction.{staging_of}
use edge_fleet_operator_demo.Agent.Transaction.Success.{run_upgrade_succeeds}
use edge_fleet_operator_demo.Tests.Agents.{factory, disk, digest}
use edge_fleet_operator_demo.Tests.Downloads.{network}
use edge_fleet_operator_demo.Tests.Kube.{busy, sensor}

abbrev pub place : Setting
place = record {
  network = network;
  transport = busy;
  seen_gen = λ _. 2;
  now = λ _. "12:00";
  hash = digest;
  error_text = λ reason. reason;
  download = unset_options;
}

abbrev pub target : DeviceSpec
target = record sensor.spec { checksum_sha256 = "hash of firmware" }

-- The tenth call of the disk tears a file, and the power is lost at the twelfth.
abbrev pub idle_run : Run place
idle_run = record { fsm = new true; last_failed_key = ""; disk = disk; net = tt; api = 1 }

abbrev waiting : Agent place
waiting = record { run = idle_run; upgrading = false; last_seen_gen = 1; running = [] }

run_upgrade-IsSafe_example :
    let o = run_upgrade place target idle_run in
    IsSafe digest "A" "B" Pair_ab disk o.1.disk
    × (GaveUp place target o
        ⊎ (Finished place target o × Boots "B" o.1.disk × Verified digest "B" o.1.disk)
        ⊎ (o.0 ≡ powerless))
run_upgrade-IsSafe_example =
    run_upgrade-IsSafe place target Pair_ab idle_run refl (inl refl) (omega arith) refl

run_upgrade-Tells_example :
    Tells place target "B"
      (after_report place (started_status target) 1)
      (run_upgrade place target idle_run)
run_upgrade-Tells_example =
    run_upgrade-Tells place target Pair_ab idle_run refl (inl refl) (omega arith) refl

upgrade_recovers_example :
    Ends
      (λ _ n. Rested n)
      (power_on digest (working (run_upgrade place target idle_run).1.disk.node))
upgrade_recovers_example =
    upgrade_recovers place target Pair_ab idle_run refl (inl refl) (omega arith) refl
      (file "", refl) refl refl

abbrev pub wanting : Device
wanting = record sensor { spec = target }

-- After the two calls that read the running version.
abbrev seen : Run place
seen = record idle_run { disk = record disk { script = rest (rest disk.script) } }

evaluate_launches_iff_example :
    ((evaluate place wanting waiting).1.running ≡ target ∷ [])
    ↔ ((false ≡ false) × IsWanted "factory" "" target)
unfolding active_version active read_link read_file trim_prefix trim_space base
evaluate_launches_iff_example = evaluate_launches_iff place wanting "factory" waiting seen refl

-- The device is polled, and starts a transaction; then it beats.
waiting-Inv : Inv place waiting
waiting-Inv = record { flight = inl (refl, refl); ready = inl refl; boots = inl refl; checked = tt }

abbrev busy_agent : Agent place
busy_agent = (evaluate place wanting waiting).1

poll_starts : evaluate place wanting waiting ≡ (went tt, busy_agent)
unfolding evaluate act_on decide active_version active read_link read_file trim_prefix trim_space
    base
poll_starts = refl

Reach-Inv_example : Inv place busy_agent
Reach-Inv_example =
    Reach-Inv place refl waiting-Inv (later here (polled wanting (omega arith) poll_starts))

-- The firmware has been downloaded in part.
abbrev pub half_done : FilePath → Option Node
half_done (slot_dir _) = some folder
half_done (in_slot slot f) = if str_eq slot "A" then factory f else none
half_done current_link = some (link "slotA")
half_done (staging _) = some (file "firm")
half_done current_tmp = none

run_upgrade_succeeds_example :
    let o = run_upgrade place target (record idle_run { disk = working half_done }) in
    (o.0 ≡ went tt)
    × (o.1.fsm.state ≡ idle)
    × Boots "B" o.1.disk
    × (o.1.disk.node (in_slot "B" firmware_file) ≡ some (file "firmware"))
    × (o.1.disk.node (in_slot "B" version_file) ≡ some (file "v2"))
    × (o.1.disk.node (in_slot "B" confirmed_marker) ≡ some (file ""))
unfolding staging_of trim_space download_with_resume with_defaults attempts wait_before
    download_once receive save offset_of
run_upgrade_succeeds_example =
    run_upgrade_succeeds place target Pair_ab idle_run half_done "firmware" tt (inl refl)
      (omega arith) refl refl refl refl refl

one_trial_example :
    (n1 : Files) × (n2 : Files) × (n3 : Files) × (promote_staged (working half_done)
      ≡ (done "B", working n1))
    × Boots "B" (working n1)
    × (boot_check (working n1) ≡ (done trial, working n2))
    × Boots "B" (working n2)
    × (boot_check (working n2) ≡ (done rolled_back, working n3))
    × Boots "A" (working n3)
    × (n3 (in_slot "B" pending_marker) ≡ none)
one_trial_example = one_trial Pair_ab half_done refl refl refl
