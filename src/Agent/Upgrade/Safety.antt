-- ===== src/Agent/Upgrade/Safety.antt =====
-- The installation of runUpgrade in internal/agent/agent.go, as a whole: no failing call and no loss
-- of power at any point can leave a device that boots anything but its old slot, untouched, or an
-- image that was verified.
use edge_fleet_operator_demo.Base.{◌≡◌, refl, ◌∙◌, inl, String, Bool, true, false}
use edge_fleet_operator_demo.Agent.Disk.{
  FilePath, current_link, staging, Disk, Ended, done, pure, ignore, remove,
}
use edge_fleet_operator_demo.Agent.Slots.{
  normal, trial, rolled_back, stage, verify_staged, promote_staged, boot_check, self_check,
  rollback, confirm,
}
use edge_fleet_operator_demo.Agent.Slots.Frame.{Frame, Frame-ignore, Frame-remove}
use edge_fleet_operator_demo.Agent.Slots.Rules.{Boots, Pair, after_attempt, after_bind}
use edge_fleet_operator_demo.Agent.Slots.Effects.{Verified}
use edge_fleet_operator_demo.Agent.Upgrade.{
  Installed, installed, self_check_failed, seal_step, check_step, reboot_step, promote_step,
  verify_step, install,
}
use edge_fleet_operator_demo.Agent.Upgrade.Crash.{
  Old, New, IsSafe, stage-Old, verify_staged-Old, promote-IsSafe, New-IsSafe, boot-IsSafe,
  self_check-New, rollback-IsSafe, confirm-New,
}

abbrev pub staging_files : FilePath → Bool
staging_files (staging _) = true
staging_files _ = false

module _ (hash : String → String) (x y : String) (p : Pair x y) (before : Disk) (key : String) where
  abbrev Safe : Disk → Type 0
  Safe = IsSafe hash x y p before

  -- A safe device, that boots the new slot if the installation is complete.
  abbrev Ends : Ended Installed × Disk → Type 0
  Ends r = Safe r.1 × (r.0 ≡ done installed → New hash x y p before r.1)

  seal_step-Ends : (d : Disk) → New hash x y p before d → Ends (seal_step (staging key) d)
  unfolding seal_step
  seal_step-Ends d new =
      let sealed : New hash x y p before (confirm d).1 = confirm-New hash x y p before d new in
      let safe = New-IsSafe hash x y p before (confirm d).1 sealed in
      let clean = ignore (remove (staging key)) in
      let frame : Frame staging_files clean =
        Frame-ignore staging_files _ (Frame-remove staging_files (staging key) refl) in
      let d2 = (clean (confirm d).1).1 in
      let new2 : New hash x y p before d2 = (
        λ f. frame.at (confirm d).1 _ refl ∙ sealed.0 f,
        frame.at (confirm d).1 current_link refl ∙ sealed.1,
        (
          sealed.2.0,
          sealed.2.1,
          frame.at (confirm d).1 _ refl ∙ sealed.2.2,
          frame.at (confirm d).1 _ refl ∙ sealed.2.3,
          sealed.2.4,
        ),
      ) in
      let safe2 = New-IsSafe hash x y p before d2 new2 in
      after_attempt confirm _ d Ends (safe, λ e. absurd (cc)) (safe, λ e. absurd (cc))
        λ _ _.
          after_bind clean (λ _. pure installed) (confirm d).1 Ends (safe2, λ e. absurd (cc))
            (λ e. (safe2, λ e'. absurd (cc))) (λ _ _. (safe2, λ e. new2))

  check_step-Ends : (d : Disk) → New hash x y p before d → Ends (check_step hash (staging key) d)
  unfolding check_step
  check_step-Ends d new =
      let new1 = self_check-New hash x y p before d new in
      let d1 = (self_check hash d).1 in
      let safe1 = New-IsSafe hash x y p before d1 new1 in
      let safe2 = rollback-IsSafe hash x y p before d1 new1 in
      let safe3 : Safe (ignore rollback d1).1 =
        after_attempt rollback (λ _. pure tt) d1 (λ r. Safe r.1) safe2 safe2 (λ _ _. safe2) in
      after_attempt (self_check hash) _ d Ends (safe1, λ e. absurd (cc))
        (after_bind (ignore rollback) (λ _. pure self_check_failed) d1 Ends
          (safe3, λ e. absurd (cc)) (λ e. (safe3, λ e'. absurd (cc)))
          (λ _ _. (safe3, λ e. absurd (cc))))
        (λ _ _. seal_step-Ends d1 new1)

  reboot_step-Ends : (d : Disk) → New hash x y p before d → Ends (reboot_step hash (staging key) d)
  unfolding reboot_step
  reboot_step-Ends d new =
      let (safe1, of_trial) = boot-IsSafe hash x y p before d new in
      after_attempt boot_check _ d Ends (safe1, λ e. absurd (cc)) (safe1, λ e. absurd (cc))
        (elim [
          | normal ↦ λ _. (safe1, λ e. absurd (cc))
          | rolled_back ↦ λ _. (safe1, λ e. absurd (cc))
          | trial ↦ λ e. check_step-Ends (boot_check d).1 (of_trial e)
        ])

  promote_step-Ends :
      (d : Disk)
      → Old hash x y p before d
      → Verified hash y d
      → Ends (promote_step hash (staging key) d)
  unfolding promote_step
  promote_step-Ends d old image =
      let (safe1, if_done) = promote-IsSafe hash x y p before d old image in
      after_attempt promote_staged _ d Ends (safe1, λ e. absurd (cc)) (safe1, λ e. absurd (cc))
        (λ s e. reboot_step-Ends (promote_staged d).1 (if_done s e))

  verify_step-Ends : (d : Disk) → Old hash x y p before d → Ends (verify_step hash (staging key) d)
  unfolding verify_step
  verify_step-Ends d old =
      let (old1, if_done) = verify_staged-Old hash x y p before d old in
      after_attempt (verify_staged hash) _ d Ends ((old1.0, inl old1.1), λ e. absurd (cc))
        ((old1.0, inl old1.1), λ e. absurd (cc))
        (λ _ e. promote_step-Ends (verify_staged hash d).1 old1 (if_done e))

-- The installation from a device that boots slot `x`, with any image in the staging file, under any
-- script of failing calls, torn writes and losses of power: afterwards the five files of `x` are as
-- they were, and the link boots `x`, or it boots the other slot and the image there has the
-- checksum that is stored beside it. If it reports success, it is the other slot that boots.
pub install-IsSafe :
    (hash : String → String) {x y : String} (p : Pair x y) (d : Disk)
    (key version checksum : String)
    → Boots x d
    → let r = install hash (staging key) version checksum d in
      IsSafe hash x y p d r.1 × (r.0 ≡ done installed → Boots y r.1 × Verified hash y r.1)
unfolding install
install-IsSafe hash {x} {y} p d key version checksum boots =
    let old : Old hash x y p d (stage (staging key) version checksum d).1 =
      stage-Old hash x y p d d (staging key) version checksum (λ f. refl, boots) in
    let ends : Ends hash x y p d key (install hash (staging key) version checksum d) =
      after_attempt (stage (staging key) version checksum) _ d (Ends hash x y p d key)
        ((old.0, inl old.1), λ e. absurd (cc)) ((old.0, inl old.1), λ e. absurd (cc))
        (λ _ _. verify_step-Ends hash x y p d key (stage (staging key) version checksum d).1 old) in
    (ends.0, λ e. let new = ends.1 e in (new.1, new.2))
