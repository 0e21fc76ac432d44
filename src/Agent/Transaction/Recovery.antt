-- ===== src/Agent/Transaction/Recovery.antt =====
-- runUpgrade of internal/agent/agent.go, and the next time the device is switched on.
use Prim.Native.String.{len}
use edge_fleet_operator_demo.Base.{◌≤◌, ◌≡◌, ◌∙◌, ◌⊎◌, inl, inr, String, some}
use edge_fleet_operator_demo.Agent.Disk.{confirmed_marker, slot_dir, folder}
use edge_fleet_operator_demo.Agent.Download.Backoff.{unset_options}
use edge_fleet_operator_demo.Agent.Fsm.{State, idle}
use edge_fleet_operator_demo.Agent.Kube.{DeviceSpec}
use edge_fleet_operator_demo.Agent.Slots.{power_on}
use edge_fleet_operator_demo.Agent.Slots.Rules.{Boots, Pair}
use edge_fleet_operator_demo.Agent.Slots.Working.{working, Ends}
use edge_fleet_operator_demo.Agent.Slots.Recovery.{Confirmed}
use edge_fleet_operator_demo.Agent.Slots.PowerOn.{Rested, power_on-Rested}
use edge_fleet_operator_demo.Agent.Transaction.Safety.{run_upgrade-IsSafe}
use edge_fleet_operator_demo.Agent.Act.{Setting, Run}
use edge_fleet_operator_demo.Agent.Transaction.{run_upgrade}
use edge_fleet_operator_demo.Agent.Transaction.Folders.{Leaves-run_upgrade}

-- A device with both slot directories that boots a confirmed slot starts a transaction, with the
-- download options of the agent and a checksum of twelve bytes or more. Whichever of its calls
-- fails, and wherever the power is lost: when the device is switched on again, on a disk on which
-- every call works, it comes up on slot A or slot B, and that slot has its marker.
pub upgrade_recovers :
    (S : Setting) (spec : DeviceSpec) {x y : String} (p : Pair x y) (s : Run S)
    → S.download ≡ unset_options
    → (s.fsm.state ≡ idle) ⊎ (s.fsm.state ≡ State.failed)
    → 12 ≤ len spec.checksum_sha256
    → Boots x s.disk
    → Confirmed x s.disk.node
    → s.disk.node (slot_dir "A") ≡ some folder
    → s.disk.node (slot_dir "B") ≡ some folder
    → Ends (λ _ n. Rested n) (power_on S.hash (working (run_upgrade S spec s).1.disk.node))
upgrade_recovers S spec {x} {y} p s unset ready long boots (k, ok) a b =
    let o = run_upgrade S spec s in
    let ((kept, here), _) = run_upgrade-IsSafe S spec p s unset ready long boots in
    let same = (Leaves-run_upgrade spec).at s in
    power_on-Rested S.hash o.1.disk.node (inr (same "A" ∙ a)) (inr (same "B" ∙ b)) (
      inr (
        x,
        y,
        p,
        elim here [ inl old ↦ inl old | inr (new, _) ↦ inr new ],
        (k, kept confirmed_marker ∙ ok),
      ))
