-- ===== src/Agent/Transaction/Folders.antt =====
-- That runUpgrade of internal/agent/agent.go leaves the directories of the slots alone.
use Prim.Native.String.{len}
use edge_fleet_operator_demo.Base.{
  leb, ◌≡◌, refl, ap, ◌∙◌, String, Bool, true, false, Option, none, some,
}
use edge_fleet_operator_demo.Agent.Disk.{
  slot_dir, Disk, Exec, Ended, done, failed, died, Fault, fine, breaks, dies, next, spend, remove,
  same_path,
}
use edge_fleet_operator_demo.Agent.Download.{complete, gave_up, cancelled, panicked}
use edge_fleet_operator_demo.Agent.Fsm.{State, idle}
use edge_fleet_operator_demo.Agent.Kube.{DeviceSpec}
use edge_fleet_operator_demo.Agent.Slots.{
  active, verify_staged, verify_sha256, stage, promote_staged, boot_check, self_check, rollback,
  confirm, normal, trial, rolled_back,
}
use edge_fleet_operator_demo.Agent.Slots.Frame.{Frame, Frame-remove}
use edge_fleet_operator_demo.Agent.Act.{
  Setting, Run, Went, went, powerless, crashed, Act, proceed, settled, on_disk, move, report_status,
}
use edge_fleet_operator_demo.Agent.Transaction.{
  staging_of, fetching, fetch_image, give_up, finish, seal, check, reboot, promote, verify, flash,
  verify_download, fetch_step, run_upgrade, report_started, report_upgraded,
}
use edge_fleet_operator_demo.Agent.Slots.Folders.{
  inside, stage-Frame, promote_staged-Frame, boot_check-Frame, rollback-Frame, confirm-Frame,
  active-Frame, verify_staged-Frame, self_check-Frame, verify_sha256-Frame,
}

remove-Frame : (spec : DeviceSpec) → Frame inside (remove (staging_of spec))
unfolding staging_of
remove-Frame spec = Frame-remove inside _ refl

module _ {S : Setting} where
  -- The directories of the slots are what they were.
  pub record Leaves {A : Type 0} (m : Act S A) : Type 0 where
    pub at : (s : Run S) (t : String) → (m s).1.disk.node (slot_dir t) ≡ s.disk.node (slot_dir t)

  Leaves-proceed :
      {A B : Type 0} (o : Went A × Run S) (f : A → Act S B) (t : String)
      → ((a : A) → Leaves (f a))
      → (proceed o f).1.disk.node (slot_dir t) ≡ o.1.disk.node (slot_dir t)
  Leaves-proceed (went a, s) f t k = (k a).at s t
  Leaves-proceed (powerless, s) f t k = refl
  Leaves-proceed (crashed, s) f t k = refl

  Leaves-bind :
      {A B : Type 0} (m : Act S A) (f : A → Act S B)
      → Leaves m
      → ((a : A) → Leaves (f a))
      → Leaves {A = B} (λ s. proceed (m s) f)
  Leaves-bind m f km kf = record { at = λ s t. Leaves-proceed (m s) f t kf ∙ km.at s t }

  settled-disk : {A : Type 0} (r : Ended A × Disk) (s : Run S) → (settled r s).1.disk ≡ r.1
  settled-disk (done a, d) s = refl
  settled-disk (failed e, d) s = refl
  settled-disk (died, d) s = refl

  Leaves-on_disk : {A : Type 0} (m : Exec A) → Frame inside m → Leaves (on_disk m)
  Leaves-on_disk m frame = record {
    at = λ s t.
        ap (λ d. d.node (slot_dir t)) (settled-disk (m s.disk) s)
        ∙ frame.at s.disk (slot_dir t) refl;
  }

  Leaves-report : (mutate : _) → Leaves (report_status S mutate)
  unfolding report_status
  Leaves-report mutate = record { at = λ s t. refl }

  Leaves-move : (next : State) → Leaves (move {S = S} next)
  Leaves-move next = record { at = λ s t. refl }

  Leaves-give_up : (spec : DeviceSpec) (reason : String) → Leaves (give_up S spec reason)
  unfolding give_up report_status
  Leaves-give_up spec reason = record { at = λ s t. refl }

  Leaves-pure : Leaves {A = Unit {0}} (λ s. (went tt, s))
  Leaves-pure = record { at = λ s t. refl }

  Leaves-upgraded : (spec : DeviceSpec) (slot : String) → Leaves (report_upgraded S spec slot)
  unfolding report_upgraded report_status
  Leaves-upgraded spec slot = record { at = λ s t. refl }

  -- A transition, after whose refusal nothing is done.
  Leaves-moved :
      (next : State) (m : Act S (Unit {0}))
      → Leaves m
      → Leaves {A = Unit {0}} (λ s.
        proceed
          (move next s)
          (λ e. elim e as (λ _. Act S (Unit {0})) [ some _ ↦ λ s. (went tt, s) | none ↦ m ]))
  Leaves-moved next m k =
      Leaves-bind (move next)
        (λ e. elim e as (λ _. Act S (Unit {0})) [ some _ ↦ λ s. (went tt, s) | none ↦ m ])
        (Leaves-move next)
        (λ e.
          elim e
            as (λ e.
              Leaves {A = Unit {0}}
                (elim e as (λ _. Act S (Unit {0})) [ some _ ↦ λ s. (went tt, s) | none ↦ m ])) [
                  | some _ ↦ Leaves-pure
                  | none ↦ k
                ])

  Leaves-finish : (spec : DeviceSpec) → Leaves (finish S spec)
  unfolding finish
  Leaves-finish spec =
      Leaves-moved idle
        (λ s.
          proceed (on_disk active s)
            (λ slot. report_upgraded S spec (elim slot [ none ↦ "" | some s ↦ s ])))
        (Leaves-bind (on_disk active) _ (Leaves-on_disk active active-Frame)
          λ slot. Leaves-upgraded spec (elim slot [ none ↦ "" | some s ↦ s ]))

  Leaves-seal : (spec : DeviceSpec) → Leaves (seal S spec)
  unfolding seal
  Leaves-seal spec = Leaves-bind (on_disk confirm) _ (Leaves-on_disk confirm confirm-Frame) (elim [
    | none ↦ Leaves-give_up spec "ConfirmFailed"
    | some _ ↦
        Leaves-bind (on_disk (remove (staging_of spec))) _ (Leaves-on_disk _ (remove-Frame spec))
          λ _. Leaves-finish spec
  ])

  Leaves-check : (spec : DeviceSpec) → Leaves (check S spec)
  unfolding check
  Leaves-check spec =
      Leaves-bind (on_disk (self_check S.hash)) _ (Leaves-on_disk _ (self_check-Frame S.hash))
        (elim [
          | none ↦
              Leaves-bind (on_disk rollback) _ (Leaves-on_disk rollback rollback-Frame)
                λ _. Leaves-give_up spec "SelfCheckFailed"
          | some _ ↦ Leaves-seal spec
        ])

  Leaves-reboot : (spec : DeviceSpec) → Leaves (reboot S spec)
  unfolding reboot
  Leaves-reboot spec =
      let stops = Leaves-give_up spec "BootFailed" in
      Leaves-moved State.confirming _ (
        Leaves-bind (on_disk boot_check) _ (Leaves-on_disk boot_check boot_check-Frame) (elim [
          | none ↦ stops
          | some trial ↦ Leaves-check spec
          | some normal ↦ stops
          | some rolled_back ↦ stops
        ]))

  Leaves-promote : (spec : DeviceSpec) → Leaves (promote S spec)
  unfolding promote
  Leaves-promote spec =
      Leaves-bind (on_disk promote_staged) _ (Leaves-on_disk _ promote_staged-Frame)
        (elim [ none ↦ Leaves-give_up spec "PromoteFailed" | some _ ↦ Leaves-reboot spec ])

  Leaves-verify : (spec : DeviceSpec) → Leaves (verify S spec)
  unfolding verify
  Leaves-verify spec =
      Leaves-bind (on_disk (verify_staged S.hash)) _ (Leaves-on_disk _ (verify_staged-Frame S.hash))
        (elim [ none ↦ Leaves-give_up spec "FlashVerifyFailed" | some _ ↦ Leaves-promote spec ])

  Leaves-flash : (spec : DeviceSpec) → Leaves (flash S spec)
  unfolding flash
  Leaves-flash spec =
      let staged = stage (staging_of spec) spec.desired_firmware_version spec.checksum_sha256 in
      let next = λ (o : Option (Unit {0})). elim o as (λ _. Act S (Unit {0})) [
        | none ↦ give_up S spec "FlashFailed"
        | some _ ↦ verify S spec
      ] in
      Leaves-moved State.flashing (λ s. proceed (on_disk staged s) next)
        (Leaves-bind (on_disk staged) next (Leaves-on_disk staged (stage-Frame _ _ _))
          (elim [ none ↦ Leaves-give_up spec "FlashFailed" | some _ ↦ Leaves-verify spec ]))

  Leaves-verify_download : (spec : DeviceSpec) → Leaves (verify_download S spec)
  unfolding verify_download
  Leaves-verify_download spec =
      let hashed = verify_sha256 S.hash (staging_of spec) spec.checksum_sha256 in
      Leaves-moved State.verifying _ (
        Leaves-bind (on_disk hashed) _ (Leaves-on_disk hashed (verify_sha256-Frame S.hash _ _))
          (elim [
            | none ↦
                Leaves-bind (on_disk (remove (staging_of spec))) _
                  (Leaves-on_disk _ (remove-Frame spec)) λ _. Leaves-give_up spec "ChecksumMismatch"
            | some _ ↦ Leaves-flash spec
          ]))

  Leaves-torn : (f : Fault) (spec : DeviceSpec) → Leaves (fetching S f (staging_of spec))
  unfolding staging_of same_path
  Leaves-torn fine spec = record { at = λ s t. refl }
  Leaves-torn (breaks none) spec = record { at = λ s t. refl }
  Leaves-torn (breaks (some left)) spec = record { at = λ s t. refl }
  Leaves-torn (dies none) spec = record { at = λ s t. refl }
  Leaves-torn (dies (some left)) spec = record { at = λ s t. refl }

  Leaves-fetch_image : (spec : DeviceSpec) → Leaves (fetch_image S (staging_of spec))
  unfolding fetch_image
  Leaves-fetch_image spec = record {
    at = λ s t. (Leaves-torn (next s.disk.script) spec).at (record s { disk = spend s.disk }) t;
  }

  Leaves-fetched :
      (spec : DeviceSpec) (long : Bool)
      → Leaves (elim long as (λ _. Act S (Unit {0})) [
        | false ↦ λ s. (crashed, s)
        | true ↦ λ s. proceed (fetch_image S (staging_of spec) s) (elim [
          | complete ↦ verify_download S spec
          | panicked ↦ λ s. (crashed, s)
          | _ ↦ give_up S spec "DownloadFailed"
        ])
      ])
  Leaves-fetched spec false = record { at = λ s t. refl }
  Leaves-fetched spec true =
      Leaves-bind (fetch_image S (staging_of spec)) _ (Leaves-fetch_image spec) (elim [
        | complete ↦ Leaves-verify_download spec
        | panicked ↦ record { at = λ s t. refl }
        | gave_up e ↦ Leaves-give_up spec "DownloadFailed"
        | cancelled ↦ Leaves-give_up spec "DownloadFailed"
      ])

  Leaves-fetch_step : (spec : DeviceSpec) → Leaves (fetch_step S spec)
  unfolding fetch_step
  Leaves-fetch_step spec = Leaves-fetched spec (leb 12 (len spec.checksum_sha256))

  pub Leaves-run_upgrade : (spec : DeviceSpec) → Leaves (run_upgrade S spec)
  unfolding run_upgrade report_started
  Leaves-run_upgrade spec =
      Leaves-bind (report_started S spec) _ (Leaves-report _)
        (λ _. Leaves-moved State.downloading (fetch_step S spec) (Leaves-fetch_step spec))
