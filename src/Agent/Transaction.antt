-- ===== src/Agent/Transaction.antt =====
-- runUpgrade of internal/agent/agent.go: one firmware transaction, from the download to the report.
pub mod Refines
pub mod Fetch
pub mod Safety
pub mod Folders
pub mod Recovery
pub mod Goes
pub mod Success
pub mod Told
pub mod Tells
use Prim.Native.String.{len, slice}
use edge_fleet_operator_demo.Base.{ℕ, String, ◌<>◌, Bool, true, false, Option, none, some, leb}
use edge_fleet_operator_demo.Agent.Disk.{
  FilePath, staging, Node, file, link, folder, Fault, fine, breaks, dies, next, spend, put, torn,
  remove,
}
use edge_fleet_operator_demo.Agent.Download.{
  Bytes, Downloaded, complete, gave_up, cancelled, panicked, open_failed, download_with_resume,
}
use edge_fleet_operator_demo.Agent.Fsm.{
  State, idle, downloading, verifying, flashing, confirming, failed,
}
use edge_fleet_operator_demo.Agent.Kube.{DeviceSpec, DeviceStatus, Condition, set_condition}
use edge_fleet_operator_demo.Agent.Slots.{
  BootResult, trial, active, verify_sha256, verify_staged, stage, promote_staged, boot_check,
  self_check, rollback, confirm,
}
use edge_fleet_operator_demo.Agent.Act.{
  Setting, Run, Went, went, powerless, crashed, Act, pure, crash, ◌>>=◌, ◌>>◌, on_disk, move,
  report_status,
}

-- The argument of SetCondition for FirmwareSynced.
abbrev pub firmware_synced : String → String → String → ℕ → String → Condition
firmware_synced status reason message gen now = record {
  kind = "FirmwareSynced";
  status = status;
  observed_generation = gen;
  last_transition_time = now;
  reason = reason;
  message = message;
}

-- The mutations that runUpgrade reports, by the time and the generation.
abbrev pub started_status : DeviceSpec → String → DeviceStatus → ℕ → DeviceStatus
started_status spec now st gen =
    set_condition
      (firmware_synced "False" "UpgradeInProgress" ("downloading " <> spec.desired_firmware_version)
        gen now)
      st

abbrev pub failed_status : String → String → String → DeviceStatus → ℕ → DeviceStatus
failed_status reason message now st gen =
    set_condition (firmware_synced "False" reason message gen now) st

abbrev pub upgraded_status : DeviceSpec → String → String → DeviceStatus → ℕ → DeviceStatus
upgraded_status spec slot now st gen =
    set_condition
      (firmware_synced "True" "Synced" ("upgraded to " <> spec.desired_firmware_version) gen now)
      (record st { current_firmware_version = spec.desired_firmware_version; active_slot = slot })

-- What lastFailedKey is compared with and set to.
unfoldable pub target_key : DeviceSpec → String
target_key spec = spec.desired_firmware_version <> "|" <> spec.checksum_sha256

-- The staging file is named by the first twelve bytes of the checksum.
unfoldable pub staging_of : DeviceSpec → FilePath
staging_of spec = staging (slice spec.checksum_sha256 0 12)

abbrev pub bytes_of : Option Node → Option Bytes
bytes_of (some (file b)) = some b
bytes_of _ = none

abbrev pub stored : FilePath → Option Bytes → Option Node
stored p none = none
stored p (some b) = some (file b)

module _ (S : Setting) where
  -- The download into a file. Where the script of the disk has a fault, one of its file calls fails
  -- or the power is lost in it, and the file is left with any content.
  abbrev pub fetching : Fault → FilePath → Act S Downloaded
  fetching fine p s =
      let (r, b, w) = download_with_resume S.network S.download (bytes_of (s.disk.node p)) s.net in
      (went r, record s { disk = put p (stored p b) s.disk; net = w })
  fetching (breaks left) p s =
      (went (gave_up (some open_failed)), record s { disk = torn p left s.disk })
  fetching (dies left) p s = (powerless, record s { disk = torn p left s.disk })

  unfoldable pub fetch_image : FilePath → Act S Downloaded
  fetch_image p s = fetching (next s.disk.script) p (record s { disk = spend s.disk })

  abbrev pub note_failure : String → Act S (Unit {0})
  note_failure key s = (went tt, record s { last_failed_key = key })

  -- The closure `fail`.
  unfoldable pub give_up : DeviceSpec → String → Act S (Unit {0})
  unfolding target_key
  give_up spec reason = do
    move failed
    note_failure (target_key spec)
    report_status S (failed_status reason (S.error_text reason))

  unfoldable pub report_started : DeviceSpec → Act S (Unit {0})
  report_started spec = report_status S (started_status spec)

  pub report_upgraded : DeviceSpec → String → Act S (Unit {0})
  report_upgraded spec slot = report_status S (upgraded_status spec slot)

  -- From here on, the parts of the body from its end to its beginning.
  pub finish : DeviceSpec → Act S (Unit {0})
  finish spec = do
    moved ← move idle
    elim moved [
      | some _ ↦ pure tt
      | none ↦ do slot ← on_disk active; report_upgraded spec (elim slot [ none ↦ "" | some s ↦ s ])
    ]

  pub seal : DeviceSpec → Act S (Unit {0})
  seal spec = do
    sealed ← on_disk confirm
    elim sealed [
      | none ↦ give_up spec "ConfirmFailed"
      | some _ ↦ do on_disk (remove (staging_of spec)); finish spec
    ]

  pub check : DeviceSpec → Act S (Unit {0})
  check spec = do
    checked ← on_disk (self_check S.hash)
    elim checked [ none ↦ do on_disk rollback; give_up spec "SelfCheckFailed" | some _ ↦ seal spec ]

  pub reboot : DeviceSpec → Act S (Unit {0})
  reboot spec = do
    moved ← move confirming
    elim moved [
      | some _ ↦ pure tt
      | none ↦ do
        boot ← on_disk boot_check
        elim boot [ some trial ↦ check spec | _ ↦ give_up spec "BootFailed" ]
    ]

  pub promote : DeviceSpec → Act S (Unit {0})
  promote spec = do
    promoted ← on_disk promote_staged
    elim promoted [ none ↦ give_up spec "PromoteFailed" | some _ ↦ reboot spec ]

  pub verify : DeviceSpec → Act S (Unit {0})
  verify spec = do
    verified ← on_disk (verify_staged S.hash)
    elim verified [ none ↦ give_up spec "FlashVerifyFailed" | some _ ↦ promote spec ]

  pub flash : DeviceSpec → Act S (Unit {0})
  flash spec = do
    moved ← move flashing
    elim moved [
      | some _ ↦ pure tt
      | none ↦ do
        staged ←
            on_disk (stage (staging_of spec) spec.desired_firmware_version spec.checksum_sha256)
        elim staged [ none ↦ give_up spec "FlashFailed" | some _ ↦ verify spec ]
    ]

  pub verify_download : DeviceSpec → Act S (Unit {0})
  verify_download spec = do
    moved ← move verifying
    elim moved [
      | some _ ↦ pure tt
      | none ↦ do
        matches ← on_disk (verify_sha256 S.hash (staging_of spec) spec.checksum_sha256)
        elim matches [
          | none ↦ do on_disk (remove (staging_of spec)); give_up spec "ChecksumMismatch"
          | some _ ↦ flash spec
        ]
    ]

  -- A checksum of fewer than twelve bytes cannot be sliced.
  unfoldable pub fetch_step : DeviceSpec → Act S (Unit {0})
  fetch_step spec = elim (leb 12 (len spec.checksum_sha256)) [
    | false ↦ crash
    | true ↦ do
      fetched ← fetch_image (staging_of spec)
      elim fetched [
        | complete ↦ verify_download spec
        | panicked ↦ crash
        | _ ↦ give_up spec "DownloadFailed"
      ]
  ]

  -- runUpgrade
  unfoldable pub run_upgrade : DeviceSpec → Act S (Unit {0})
  run_upgrade spec = do
    report_started spec
    moved ← move downloading
    elim moved [ some _ ↦ pure tt | none ↦ fetch_step spec ]
