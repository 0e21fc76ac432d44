-- ===== src/Agent/Transaction/Safety.antt =====
-- The crash safety of runUpgrade in internal/agent/agent.go as a whole, and that it always ends with
-- the state machine ready for the next transaction.
use Prim.Native.String.{len, slice}
use edge_fleet_operator_demo.Base.{
  ◌≤◌, ◌≡◌, refl, ◌∙◌, ap, ◌⊎◌, inl, inr, String, true, none, some, leb, arith,
}
use edge_fleet_operator_demo.Agent.Disk.{
  firmware_file, checksum_file, in_slot, current_link, staging, Disk, next, spend, Ended, done,
  failed, died, Exec, remove,
}
use edge_fleet_operator_demo.Agent.Download.{complete, gave_up, cancelled, panicked}
use edge_fleet_operator_demo.Agent.Download.Backoff.{unset_options}
use edge_fleet_operator_demo.Agent.Fsm.{State, idle, downloading, verifying, enter, to}
use edge_fleet_operator_demo.Agent.Fsm.Graph.{◌⟶◌, ⟶-to}
use edge_fleet_operator_demo.Agent.Kube.{DeviceSpec}
use edge_fleet_operator_demo.Agent.Slots.{verify_sha256}
use edge_fleet_operator_demo.Agent.Slots.Frame.{
  Frame, Frame-remove, Frame-bind, Frame-read_file, Frame-if, Frame-pure, Frame-raise,
}
use edge_fleet_operator_demo.Agent.Slots.Effects.{Verified}
use edge_fleet_operator_demo.Agent.Slots.Rules.{Boots, Pair}
use edge_fleet_operator_demo.Agent.Upgrade.{
  Installed, installed, flash_failed, flash_verify_failed, promote_failed, boot_failed,
  self_check_failed, confirm_failed, install,
}
use edge_fleet_operator_demo.Agent.Upgrade.Crash.{IsSafe}
use edge_fleet_operator_demo.Agent.Upgrade.Safety.{staging_files, install-IsSafe}
use edge_fleet_operator_demo.Agent.Act.{Setting, Run, Went, powerless, report_status}
use edge_fleet_operator_demo.Agent.Transaction.{
  staging_of, fetch_image, give_up, flash, verify_download, fetch_step, run_upgrade, report_started,
}
use edge_fleet_operator_demo.Agent.Transaction.Refines.{
  GaveUp, Finished, Agrees, give_up-GaveUp, flash-Agrees, after_settled,
}
use edge_fleet_operator_demo.Agent.Transaction.Fetch.{
  Beside, fetching-Fetched, not_panicked, not_crashed, proceed_cases,
}

module _ (S : Setting) (unset : S.download ≡ unset_options) where
  module _ (spec : DeviceSpec) {x y : String} (p : Pair x y) (before : Disk)
      (boots : Boots x before) where
    -- How a transaction can end.
    abbrev EndedWell : Went (Unit {0}) × Run S → Type 0
    EndedWell o =
        GaveUp S spec o
        ⊎ (Finished S spec o × Boots y o.1.disk × Verified S.hash y o.1.disk)
        ⊎ (o.0 ≡ powerless)

    abbrev Outcome : Went (Unit {0}) × Run S → Type 0
    Outcome o = IsSafe S.hash x y p before o.1.disk × EndedWell o

    -- As long as only staging files differ, the old slot boots and is whole.
    Beside-IsSafe : (d : Disk) → Beside before d → IsSafe S.hash x y p before d
    Beside-IsSafe d same = (λ f. same (in_slot x f) refl, inl (same current_link refl ∙ boots))

    give_up-Outcome :
        {a : State} (reason : String) (s : Run S)
        → s.fsm.state ≡ a
        → a ⟶ State.failed
        → Beside before s.disk
        → Outcome (give_up S spec reason s)
    give_up-Outcome reason s e edge same =
        let (kept, gave) = give_up-GaveUp S spec reason s e edge in
        (
          Beside-IsSafe (give_up S spec reason s).1.disk (λ q h. ap (λ n. n q) kept ∙ same q h),
          inl gave,
        )

    Verified-moved : (d d2 : Disk) → d2.node ≡ d.node → Verified S.hash y d → Verified S.hash y d2
    Verified-moved d d2 e (c, v, is_c, is_v, good) = (
      c,
      v,
      ap (λ n. n (in_slot y firmware_file)) e ∙ is_c,
      ap (λ n. n (in_slot y checksum_file)) e ∙ is_v,
      good,
    )

    -- Safety from a disk with other staging files, and at a disk with the same files.
    IsSafe-later :
        (d d2 d3 : Disk)
        → Beside before d
        → d3.node ≡ d2.node
        → IsSafe S.hash x y p d d2
        → IsSafe S.hash x y p before d3
    IsSafe-later d d2 d3 same e (kept, where_to) = (
      λ f. ap (λ n. n (in_slot x f)) e ∙ kept f ∙ same (in_slot x f) refl,
      elim where_to [
        | inl b ↦ inl (ap (λ n. n current_link) e ∙ b)
        | inr (b, v) ↦ inr (ap (λ n. n current_link) e ∙ b, Verified-moved d2 d3 e v)
      ],
    )

    -- The installation, whose safety is known from the disk that it starts with.
    Agrees-Outcome :
        (d : Disk) (r : Ended Installed × Disk) (o : Went (Unit {0}) × Run S)
        → Beside before d
        → IsSafe S.hash x y p d r.1 × (r.0 ≡ done installed → Boots y r.1 × Verified S.hash y r.1)
        → Agrees S spec r o
        → Outcome o
    Agrees-Outcome d (done installed, d2) o same safe (e, fin) =
        let (b, v) = safe.1 refl in
        (
          IsSafe-later d d2 o.1.disk same e safe.0,
          inr (inl (fin, ap (λ n. n current_link) e ∙ b, Verified-moved d2 o.1.disk e v)),
        )
    Agrees-Outcome d (done flash_failed, d2) o same safe (e, gave) =
        (IsSafe-later d d2 o.1.disk same e safe.0, inl gave)
    Agrees-Outcome d (done flash_verify_failed, d2) o same safe (e, gave) =
        (IsSafe-later d d2 o.1.disk same e safe.0, inl gave)
    Agrees-Outcome d (done promote_failed, d2) o same safe (e, gave) =
        (IsSafe-later d d2 o.1.disk same e safe.0, inl gave)
    Agrees-Outcome d (done boot_failed, d2) o same safe (e, gave) =
        (IsSafe-later d d2 o.1.disk same e safe.0, inl gave)
    Agrees-Outcome d (done self_check_failed, d2) o same safe (e, gave) =
        (IsSafe-later d d2 o.1.disk same e safe.0, inl gave)
    Agrees-Outcome d (done confirm_failed, d2) o same safe (e, gave) =
        (IsSafe-later d d2 o.1.disk same e safe.0, inl gave)
    Agrees-Outcome d (failed error, d2) o same safe agrees = absurd agrees
    Agrees-Outcome d (died, d2) o same safe (e, lost) =
        (IsSafe-later d d2 o.1.disk same e safe.0, inr (inr lost))

    flash-Outcome :
        (s : Run S) → s.fsm.state ≡ verifying → Beside before s.disk → Outcome (flash S spec s)
    unfolding staging_of
    flash-Outcome s e same =
        let key = slice spec.checksum_sha256 0 12 in
        Agrees-Outcome s.disk
          (install S.hash (staging key) spec.desired_firmware_version spec.checksum_sha256 s.disk)
          (flash S spec s) same
          (install-IsSafe S.hash p s.disk key spec.desired_firmware_version spec.checksum_sha256
            (same current_link refl ∙ boots))
          (flash-Agrees S spec s e)

    -- A step that can change only staging files.
    Frame-Beside :
        {A : Type 0} (m : Exec A) (d : Disk)
        → Frame staging_files m
        → Beside before d
        → Beside before (m d).1
    Frame-Beside m d frame same q h = frame.at d q h ∙ same q h

    verify_sha256-Frame :
        (k want : String) → Frame staging_files (verify_sha256 S.hash (staging k) want)
    unfolding verify_sha256
    verify_sha256-Frame k want = Frame-bind staging_files _ _ (Frame-read_file staging_files _) λ c.
        Frame-if staging_files _ _ _ (Frame-pure staging_files tt) (Frame-raise staging_files _)

    verify_download-Outcome :
        (s : Run S)
        → s.fsm.state ≡ downloading
        → Beside before s.disk
        → Outcome (verify_download S spec s)
    unfolding verify_download staging_of
    verify_download-Outcome s e same =
        let key = slice spec.checksum_sha256 0 12 in
        let s1 = record s { fsm = enter verifying s.fsm } in
        let m = verify_sha256 S.hash (staging key) spec.checksum_sha256 in
        let d2 = (m s.disk).1 in
        let same2 : Beside before d2 =
          Frame-Beside m s.disk (verify_sha256-Frame key spec.checksum_sha256) same in
        let clean = remove (staging key) in
        let same3 : Beside before (clean d2).1 =
          Frame-Beside clean d2 (Frame-remove staging_files (staging key) refl) same2 in
        rw (⟶-to s.fsm e ◌⟶◌.downloaded) (
          after_settled S spec (m s.disk) _ s1 Outcome
            (elim [
              | none ↦
                  let s2 = record s1 { disk = d2 } in
                  after_settled S spec (clean d2) _ s2 Outcome
                    (λ _. give_up-Outcome "ChecksumMismatch" _ refl ◌⟶◌.verify_fails same3)
                    (Beside-IsSafe (clean d2).1 same3, inr (inr refl))
              | some _ ↦ flash-Outcome _ refl same2
            ])
            (Beside-IsSafe d2 same2, inr (inr refl)))

    fetch_step-Outcome :
        (s : Run S)
        → s.fsm.state ≡ downloading
        → 12 ≤ len spec.checksum_sha256
        → Beside before s.disk
        → Outcome (fetch_step S spec s)
    unfolding fetch_step fetch_image staging_of
    fetch_step-Outcome s e long same =
        let key = slice spec.checksum_sha256 0 12 in
        let long_enough : leb 12 (len spec.checksum_sha256) ≡ true = ground arith in
        let s1 = record s { disk = spend s.disk } in
        let o = fetch_image S (staging key) s in
        let f = fetching-Fetched unset (next s.disk.script) key s1 in
        let same2 : Beside before o.1.disk = λ q h. f.beside q h ∙ same q h in
        let state : o.1.fsm.state ≡ downloading = ap (λ m. m.state) f.fsm ∙ e in
        let late = ◌⟶◌.download_fails in
        rw (fetch_step, long_enough)
          (proceed_cases o _ Outcome
            (elim [
              | complete ↦ λ is. verify_download-Outcome o.1 state same2
              | gave_up error ↦ λ is. give_up-Outcome "DownloadFailed" o.1 state late same2
              | cancelled ↦ λ is. give_up-Outcome "DownloadFailed" o.1 state late same2
              | panicked ↦ λ is. absurd (not_panicked s1 o f is)
            ])
            (λ lost. (Beside-IsSafe o.1.disk same2, inr (inr refl)))
            (λ bad. absurd (not_crashed s1 o f bad)))

    run_upgrade-Outcome :
        (s : Run S)
        → s.disk ≡ before
        → (s.fsm.state ≡ idle) ⊎ (s.fsm.state ≡ State.failed)
        → 12 ≤ len spec.checksum_sha256
        → Outcome (run_upgrade S spec s)
    unfolding run_upgrade report_started report_status
    run_upgrade-Outcome s at_start ready long =
        let same : Beside before s.disk = λ q h. ap (λ d. d.node q) at_start in
        let moved : to downloading s.fsm ≡ (none, enter downloading s.fsm) = elim ready [
          | inl e ↦ ⟶-to s.fsm e ◌⟶◌.start
          | inr e ↦ ⟶-to s.fsm e ◌⟶◌.restart
        ] in
        rw moved
          (fetch_step-Outcome (record s { fsm = enter downloading s.fsm; api = _ }) refl long same)

-- A transaction that starts from a machine that is idle or has failed, with the download options
-- of the agent and for a checksum of at least twelve bytes, on a device that boots slot `x`:
-- whichever calls of the disk, the network and the API server fail, whatever the download leaves in
-- the staging file and wherever the power is lost, the files of `x` are as they were, and the link
-- boots `x`, or the other slot with a verified image. Unless the power is lost, the transaction ends
-- with the machine in `failed` and the target remembered, or in `idle` with the verified image
-- booting.
pub run_upgrade-IsSafe :
    (S : Setting) (spec : DeviceSpec) {x y : String} (p : Pair x y) (s : Run S)
    → S.download ≡ unset_options
    → (s.fsm.state ≡ idle) ⊎ (s.fsm.state ≡ State.failed)
    → 12 ≤ len spec.checksum_sha256
    → Boots x s.disk
    → let o = run_upgrade S spec s in
      IsSafe S.hash x y p s.disk o.1.disk
      × (GaveUp S spec o
          ⊎ (Finished S spec o × Boots y o.1.disk × Verified S.hash y o.1.disk)
          ⊎ (o.0 ≡ powerless))
run_upgrade-IsSafe S spec p s unset ready long boots =
    run_upgrade-Outcome S unset spec p s.disk boots s refl ready long
