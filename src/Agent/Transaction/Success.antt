-- ===== src/Agent/Transaction/Success.antt =====
-- runUpgrade of internal/agent/agent.go on a device where nothing fails: the new firmware boots.
use Prim.Native.String.{len, slice}
use mathlib.Core.Path.{subst⁻¹}
use edge_fleet_operator_demo.Base.{
  ◌≤◌, ◌≡◌, refl, sym, ap, ◌∙◌, ◌⊎◌, inl, inr, String, true, none, some, leb, eq_refl, arith,
}
use edge_fleet_operator_demo.Agent.Text.{trim_space}
use edge_fleet_operator_demo.Agent.Disk.{
  slot_dir, current_link, in_slot, firmware_file, version_file, confirmed_marker, staging, file,
  folder, same_path, FilePath,
}
use edge_fleet_operator_demo.Agent.Download.{complete, download_with_resume}
use edge_fleet_operator_demo.Agent.Fsm.{State, idle, downloading, enter, to}
use edge_fleet_operator_demo.Agent.Fsm.Graph.{◌⟶◌, ⟶-to}
use edge_fleet_operator_demo.Agent.Kube.{DeviceSpec}
use edge_fleet_operator_demo.Agent.Slots.Rules.{Boots, Pair}
use edge_fleet_operator_demo.Agent.Slots.Working.{Files, working}
use edge_fleet_operator_demo.Agent.Slots.Exact.{set}
use edge_fleet_operator_demo.Agent.Upgrade.Success.{final-Upgraded}
use edge_fleet_operator_demo.Agent.Act.{Setting, Run, went, report_status}
use edge_fleet_operator_demo.Agent.Transaction.{
  staging_of, bytes_of, fetch_image, verify_download, fetch_step, run_upgrade, report_started,
}
use edge_fleet_operator_demo.Agent.Transaction.Goes.{verify_download-Succeeds, Succeeds}

-- The beginning of a transaction, up to the download.
run_upgrade_starts :
    (S : Setting) (spec : DeviceSpec) (s : Run S)
    → to downloading s.fsm ≡ (none, enter downloading s.fsm)
    → run_upgrade S spec s
      ≡ fetch_step S spec
          (record s { fsm = enter downloading s.fsm; api = (report_started S spec s).1.api })
unfolding run_upgrade report_started report_status
run_upgrade_starts S spec s moved = rw moved refl

fetch_step_goes :
    (S : Setting) (spec : DeviceSpec) (s : Run S) (n : Files) (image : String) (w : S.network.World)
    → 12 ≤ len spec.checksum_sha256
    → download_with_resume S.network S.download (bytes_of (n (staging_of spec))) s.net
      ≡ (complete, some image, w)
    → fetch_step S spec (record s { disk = working n })
      ≡ verify_download S spec
          (record s { disk = working (set (staging_of spec) (some (file image)) n); net = w })
unfolding fetch_step fetch_image staging_of
fetch_step_goes S spec s n image w long fetched =
    let long_enough : leb 12 (len spec.checksum_sha256) ≡ true = ground arith in
    rw (fetch_step, long_enough, fetch_image, fetched) refl

-- A device on whose disk every call works, which boots one slot and has the directory of the other,
-- starts a transaction from a ready state machine. The checksum has twelve bytes or more and no
-- space around it, the download completes with an image, and this is the image's checksum. Then the
-- transaction returns, with an idle machine; the other slot boots, and it holds the image and the
-- desired version and is confirmed.
pub run_upgrade_succeeds :
    (S : Setting) (spec : DeviceSpec) {x y : String} (p : Pair x y) (s : Run S) (n : Files)
    (image : String) (w : S.network.World)
    → (s.fsm.state ≡ idle) ⊎ (s.fsm.state ≡ State.failed)
    → 12 ≤ len spec.checksum_sha256
    → trim_space spec.checksum_sha256 ≡ spec.checksum_sha256
    → S.hash image ≡ spec.checksum_sha256
    → Boots x (working n)
    → n (slot_dir y) ≡ some folder
    → download_with_resume S.network S.download (bytes_of (n (staging_of spec))) s.net
      ≡ (complete, some image, w)
    → let o = run_upgrade S spec (record s { disk = working n }) in
      (o.0 ≡ went tt)
      × (o.1.fsm.state ≡ idle)
      × Boots y o.1.disk
      × (o.1.disk.node (in_slot y firmware_file) ≡ some (file image))
      × (o.1.disk.node (in_slot y version_file) ≡ some (file spec.desired_firmware_version))
      × (o.1.disk.node (in_slot y confirmed_marker) ≡ some (file ""))
unfolding staging_of same_path report_started report_status
run_upgrade_succeeds S spec {x} {y} p s n image w ready long trimmed fits boots dir fetched =
    let k = slice spec.checksum_sha256 0 12 in
    let n1 = set (staging k) (some (file image)) n in
    let there : n1 (staging k) ≡ some (file image) = rw (eq_refl k) refl in
    let moved : to downloading s.fsm ≡ (none, enter downloading s.fsm) = elim ready [
      | inl e ↦ ⟶-to s.fsm e ◌⟶◌.start
      | inr e ↦ ⟶-to s.fsm e ◌⟶◌.restart
    ] in
    let good = fits ∙ sym trimmed in
    let started = run_upgrade_starts S spec (record s { disk = working n }) moved in
    let s1 = record s {
      fsm = enter downloading s.fsm;
      api = (report_started S spec (record s { disk = working n })).1.api;
    } in
    let goes = fetch_step_goes S spec s1 n image w long fetched in
    let ends =
      verify_download-Succeeds S spec p image good n1 boots dir there
        (record s1 { disk = working n1; net = w }) fits refl refl in
    let whole = subst⁻¹ (Succeeds S spec p image good n1 boots dir there) (started ∙ goes) ends in
    let (link, fw, version, mark) =
      final-Upgraded S.hash p k image spec.desired_firmware_version spec.checksum_sha256 good n1 in
    let at = λ (q : FilePath). ap (λ d. d.node q) whole.leaves in
    (
      whole.returns,
      whole.rests,
      at current_link ∙ link,
      at (in_slot y firmware_file) ∙ fw,
      at (in_slot y version_file) ∙ version,
      at (in_slot y confirmed_marker) ∙ mark,
    )
