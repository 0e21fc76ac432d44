-- ===== src/Agent/Transaction/Goes.antt =====
-- The steps of runUpgrade in internal/agent/agent.go on a disk on which every call works.
use Prim.Native.String.{slice}
use mathlib.Core.Path.{subst⁻¹}
use edge_fleet_operator_demo.Base.{◌≡◌, refl, ap, ◌∙◌, String, true, Option, some, eq_iff, str_eq}
use edge_fleet_operator_demo.Agent.Text.{trim_space}
use edge_fleet_operator_demo.Agent.Disk.{
  slot_dir, staging, file, folder, Disk, Exec, done, read_file, same_path, remove,
}
use edge_fleet_operator_demo.Agent.Fsm.{idle, downloading, verifying, flashing, confirming, enter}
use edge_fleet_operator_demo.Agent.Fsm.Graph.{◌⟶◌, ⟶-to}
use edge_fleet_operator_demo.Agent.Kube.{DeviceSpec}
use edge_fleet_operator_demo.Agent.Slots.{
  active, stage, verify_sha256, verify_staged, promote_staged, boot_check, self_check, confirm,
  trial,
}
use edge_fleet_operator_demo.Agent.Slots.Rules.{Boots, Pair}
use edge_fleet_operator_demo.Agent.Slots.Working.{Files, working}
use edge_fleet_operator_demo.Agent.Slots.Exact.{exact_bind, reads, active_is, cleared}
use edge_fleet_operator_demo.Agent.Upgrade.Success.{
  flashed, promoted, on_trial, sealed, final, stage_lem, verify_staged_lem, promotes,
  boots_on_trial, self_check_lem, confirms_trial,
}
use edge_fleet_operator_demo.Agent.Act.{
  Setting, Run, Went, went, Act, proceed, settled, on_disk, report_status,
}
use edge_fleet_operator_demo.Agent.Transaction.{
  staging_of, finish, seal, check, reboot, promote, verify, flash, verify_download, report_upgraded,
}

module _ {S : Setting} where
  on_exact :
      {A B : Type 0} (Q : Went B × Run S → Type 0) (m : Exec A) (K : Option A → Act S B) (s : Run S)
      (d : Disk) (a : A)
      → m s.disk ≡ (done a, d)
      → Q (K (some a) (record s { disk = d }))
      → Q (proceed (on_disk m s) K)
  on_exact Q m K s d a e k = subst⁻¹ (λ r. Q (proceed (settled r s) K)) e k

module _ (S : Setting) (spec : DeviceSpec) {x y : String} (p : Pair x y) (image : String)
    (good : S.hash image ≡ trim_space spec.checksum_sha256) (n : Files)
    (boots : Boots x (working n)) (dir : n (slot_dir y) ≡ some folder)
    (there : n (staging (slice spec.checksum_sha256 0 12)) ≡ some (file image)) where
  abbrev key : String
  key = slice spec.checksum_sha256 0 12

  abbrev version : String
  version = spec.desired_firmware_version

  abbrev checksum : String
  checksum = spec.checksum_sha256

  -- The files after the flash, the promotion, the trial boot and the confirmation, and at the end.
  abbrev at_flash : Files
  at_flash = flashed S.hash p key image version checksum n

  abbrev at_promotion : Files
  at_promotion = promoted S.hash p key image version checksum good at_flash

  abbrev at_trial : Files
  at_trial = on_trial S.hash p key image version checksum good at_promotion

  abbrev at_seal : Files
  at_seal = sealed S.hash p key image version checksum good at_trial

  abbrev last : Files
  last = final S.hash p key image version checksum good n

  -- It ends, with the files of a finished installation.
  pub record Succeeds (o : Went (Unit {0}) × Run S) : Type 0 where
    pub returns : o.0 ≡ went tt
    pub rests : o.1.fsm.state ≡ idle
    pub leaves : o.1.disk ≡ working last

  finish-Succeeds :
      (s : Run S) → s.disk ≡ working last → s.fsm.state ≡ confirming → Succeeds (finish S spec s)
  unfolding finish report_upgraded report_status same_path
  finish-Succeeds s at e = rw (⟶-to s.fsm e ◌⟶◌.confirmed) (
      on_exact Succeeds active _ (record s { fsm = enter idle s.fsm }) (working last) y
        (ap active at ∙ active_is last y refl p.named_y)
        (record { returns = refl; rests = refl; leaves = refl }))

  seal-Succeeds :
      (s : Run S) → s.disk ≡ working at_trial → s.fsm.state ≡ confirming → Succeeds (seal S spec s)
  unfolding seal staging_of same_path
  seal-Succeeds s at e =
      on_exact Succeeds confirm _ s (working at_seal) tt
        (ap confirm at ∙ confirms_trial S.hash p key image version checksum good n dir)
        (on_exact Succeeds (remove (staging key)) _ (record s { disk = working at_seal })
          (working last) tt (cleared at_seal (staging key) (file image) there)
          (finish-Succeeds (record s { disk = working last }) refl e))

  check-Succeeds :
      (s : Run S) → s.disk ≡ working at_trial → s.fsm.state ≡ confirming → Succeeds (check S spec s)
  unfolding check
  check-Succeeds s at e =
      on_exact Succeeds (self_check S.hash) _ s (working at_trial) tt
        (ap (self_check S.hash) at ∙ self_check_lem S.hash p key image version checksum good n)
        (seal-Succeeds (record s { disk = working at_trial }) refl e)

  reboot-Succeeds :
      (s : Run S)
      → s.disk ≡ working at_promotion
      → s.fsm.state ≡ flashing
      → Succeeds (reboot S spec s)
  unfolding reboot
  reboot-Succeeds s at e = rw (⟶-to s.fsm e ◌⟶◌.flashed) (
      on_exact Succeeds boot_check _ (record s { fsm = enter confirming s.fsm }) (working at_trial)
        trial (ap boot_check at ∙ boots_on_trial S.hash p key image version checksum good n dir)
        (check-Succeeds (record s { fsm = enter confirming s.fsm; disk = working at_trial }) refl
          refl))

  verify-Succeeds :
      (s : Run S) → s.disk ≡ working at_flash → s.fsm.state ≡ flashing → Succeeds (verify S spec s)
  unfolding verify promote
  verify-Succeeds s at e =
      on_exact Succeeds (verify_staged S.hash) _ s (working at_flash) tt
        (ap (verify_staged S.hash) at
          ∙ verify_staged_lem S.hash p key image version checksum good n boots)
        (on_exact Succeeds promote_staged _ (record s { disk = working at_flash })
          (working at_promotion) y (promotes S.hash p key image version checksum good n boots dir)
          (reboot-Succeeds (record s { disk = working at_promotion }) refl e))

  flash-Succeeds :
      (s : Run S) → s.disk ≡ working n → s.fsm.state ≡ verifying → Succeeds (flash S spec s)
  unfolding flash staging_of
  flash-Succeeds s at e = rw (⟶-to s.fsm e ◌⟶◌.verified) (
      on_exact Succeeds (stage (staging key) version checksum) _
        (record s { fsm = enter flashing s.fsm }) (working at_flash) tt
        (ap (stage (staging key) version checksum) at
          ∙ stage_lem S.hash p key image version checksum n boots dir there)
        (verify-Succeeds (record s { fsm = enter flashing s.fsm; disk = working at_flash }) refl
          refl))

  download_checks :
      S.hash image ≡ checksum
      → verify_sha256 S.hash (staging key) checksum (working n) ≡ (done tt, working n)
  unfolding verify_sha256
  download_checks fits =
      let same : str_eq (S.hash image) checksum ≡ true = (eq_iff (S.hash image) checksum).1 fits in
      exact_bind (read_file (staging key)) _ n n image (reads n (staging key) image there)
        (rw same refl)

  pub verify_download-Succeeds :
      (s : Run S)
      → S.hash image ≡ checksum
      → s.disk ≡ working n
      → s.fsm.state ≡ downloading
      → Succeeds (verify_download S spec s)
  unfolding verify_download staging_of
  verify_download-Succeeds s fits at e = rw (⟶-to s.fsm e ◌⟶◌.downloaded) (
      on_exact Succeeds (verify_sha256 S.hash (staging key) checksum) _
        (record s { fsm = enter verifying s.fsm }) (working n) tt
        (ap (verify_sha256 S.hash (staging key) checksum) at ∙ download_checks fits)
        (flash-Succeeds (record s { fsm = enter verifying s.fsm; disk = working n }) refl refl))
