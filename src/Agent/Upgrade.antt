-- ===== src/Agent/Upgrade.antt =====
-- The disk calls of `flash` of Agent/Transaction on their own, which Agent/Transaction/Refines compares
-- with it: the intermediate form on which the lemmas on crashes are proved.
pub mod Crash
pub mod Safety
pub mod Success
use edge_fleet_operator_demo.Base.{String, Option, none, some}
use edge_fleet_operator_demo.Agent.Disk.{
  FilePath, Ended, done, failed, died, Exec, pure, ◌>>=◌, ◌>>◌, attempt, ignore, remove,
}
use edge_fleet_operator_demo.Agent.Slots.{
  BootResult, normal, trial, rolled_back, stage, verify_staged, promote_staged, boot_check,
  self_check, rollback, confirm,
}

pub data Installed : Type 0 where
  installed : Installed
  flash_failed flash_verify_failed promote_failed : Installed
  boot_failed self_check_failed confirm_failed : Installed

-- Confirm, and the removal of the staging file.
unfoldable pub seal_step : FilePath → Exec Installed
seal_step src = do
  sealed ← attempt confirm
  elim sealed [ none ↦ pure confirm_failed | some _ ↦ do ignore (remove src); pure installed ]

module _ (hash : String → String) where
  -- SelfCheck, or Rollback with its error dropped.
  unfoldable pub check_step : FilePath → Exec Installed
  check_step src = do
    checked ← attempt (self_check hash)
    elim checked [ none ↦ do ignore rollback; pure self_check_failed | some _ ↦ seal_step src ]

  -- The simulated reboot.
  unfoldable pub reboot_step : FilePath → Exec Installed
  reboot_step src = do
    boot ← attempt boot_check
    elim boot [ some trial ↦ check_step src | _ ↦ pure boot_failed ]

  unfoldable pub promote_step : FilePath → Exec Installed
  promote_step src = do
    promoted ← attempt promote_staged
    elim promoted [ none ↦ pure promote_failed | some _ ↦ reboot_step src ]

  unfoldable pub verify_step : FilePath → Exec Installed
  verify_step src = do
    verified ← attempt (verify_staged hash)
    elim verified [ none ↦ pure flash_verify_failed | some _ ↦ promote_step src ]

  unfoldable pub install : FilePath → String → String → Exec Installed
  install src version checksum = do
    staged ← attempt (stage src version checksum)
    elim staged [ none ↦ pure flash_failed | some _ ↦ verify_step src ]
