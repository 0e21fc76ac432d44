-- ===== src/Agent/Slots.antt =====
-- internal/agent/slot.go and VerifySHA256 of internal/agent/download.go: the two firmware slots and
-- the link to the one that boots. `hash` stands for SHA-256 in hexadecimal.
pub mod Frame
pub mod Effects
pub mod Rules
pub mod Folders
pub mod Working
pub mod Exact
pub mod Once
pub mod Recovery
pub mod Ready
pub mod PowerOn
use edge_fleet_operator_demo.Base.{
  ℕ, zero, suc, ◌+◌, String, ◌<>◌, Bool, true, false, Option, none, some, str_eq, if◌then◌else◌,
}
use edge_fleet_operator_demo.Agent.Text.{
  trim_space, trim_prefix, base, ℤ, pos, negsuc, atoi, itoa, successor,
}
use edge_fleet_operator_demo.Agent.Disk.{
  SlotFile, firmware_file, version_file, checksum_file, pending_marker, confirmed_marker, FilePath,
  slot_dir, in_slot, current_link, current_tmp, OsError, not_exist, checksum_mismatch, Ended, Disk,
  done, failed, died, Exec, pure, raise, ◌>>=◌, ◌>>◌, attempt, ignore, read_file, read_link, stat,
  write_file, remove, symlink, rename, mkdir_all,
}

pub data BootResult : Type 0 where
  normal trial rolled_back : BootResult

pub other : String → String
other slot = if str_eq slot "A" then "B" else "A"

-- switchTo
pub switch_to : String → Exec (Unit {0})
switch_to slot = do
  ignore (remove current_tmp)
  symlink ("slot" <> slot) current_tmp
  rename current_tmp current_link

-- Active
unfoldable pub active : Exec String
active = do target ← read_link current_link; pure (trim_prefix (base target) "slot")

-- ActiveVersion: the empty text for an error.
unfoldable pub active_version : Exec String
active_version = do
  slot ← attempt active
  elim slot [
    | none ↦ pure ""
    | some s ↦ do
      b ← attempt (read_file (in_slot s version_file))
      elim b [ none ↦ pure "" | some v ↦ pure (trim_space v) ]
  ]

-- os.Lstat and its test: does the link not exist? Any other error counts as if it did.
abbrev pub absent : Ended (Unit {0}) × Disk → Ended Bool × Disk
absent (done _, d) = (done false, d)
absent (failed not_exist, d) = (done true, d)
absent (failed _, d) = (done false, d)
absent (died, d) = (died, d)

abbrev pub missing : Exec (Unit {0}) → Exec Bool
missing m d = absent (m d)

-- NewSlotManager
pub new_slot_manager : Exec (Unit {0})
new_slot_manager = do
  mkdir_all (slot_dir "A")
  mkdir_all (slot_dir "B")
  fresh ← missing (stat current_link)
  if fresh
      then (do
        write_file (in_slot "A" version_file) "factory"
        write_file (in_slot "A" confirmed_marker) ""
        switch_to "A")
      else pure tt

-- copyAndClose, after the two files were opened.
unfoldable pub copy_and_close : FilePath → FilePath → Exec (Unit {0})
copy_and_close dst src = do c ← read_file src; write_file dst c

-- Stage, once the inactive slot is known.
unfoldable pub stage_into : String → FilePath → String → String → Exec (Unit {0})
stage_into slot src version checksum = do
  ignore (remove (in_slot slot confirmed_marker))
  ignore (remove (in_slot slot pending_marker))
  stat src
  write_file (in_slot slot firmware_file) ""
  copy_and_close (in_slot slot firmware_file) src
  write_file (in_slot slot version_file) version
  write_file (in_slot slot checksum_file) checksum

-- Stage
unfoldable pub stage : FilePath → String → String → Exec (Unit {0})
stage src version checksum = do slot ← active; stage_into (other slot) src version checksum

-- PromoteStaged
unfoldable pub promote_staged : Exec String
promote_staged = do
  slot ← active
  write_file (in_slot (other slot) pending_marker) "0"
  switch_to (other slot)
  pure (other slot)

-- rollback
pub roll_back_from : String → Exec (Unit {0})
roll_back_from bad = do ignore (remove (in_slot bad pending_marker)); switch_to (other bad)

-- Rollback
unfoldable pub rollback : Exec (Unit {0})
rollback = do slot ← active; roll_back_from slot

-- A boot of a slot that is not confirmed, by the number of attempts that were made: an int below 1
-- is counted up.
pub trial_boot : String → ℤ → Exec BootResult
trial_boot slot (pos (suc _)) = do roll_back_from slot; pure rolled_back
trial_boot slot tries = do
  write_file (in_slot slot pending_marker) (itoa (successor tries))
  pure trial

-- BootCheck, once the active slot is known.
pub boot_slot : String → Exec BootResult
boot_slot slot = do
  confirmed ← attempt (stat (in_slot slot confirmed_marker))
  elim confirmed [
    | some _ ↦ pure normal
    | none ↦ do
      pending ← attempt (read_file (in_slot slot pending_marker))
      elim pending [
        | none ↦ do roll_back_from slot; pure rolled_back
        | some b ↦ trial_boot slot (atoi (trim_space b))
      ]
  ]

-- BootCheck
unfoldable pub boot_check : Exec BootResult
boot_check = do slot ← active; boot_slot slot

-- Confirm
unfoldable pub confirm : Exec (Unit {0})
confirm = do
  slot ← active
  write_file (in_slot slot confirmed_marker) ""
  remove (in_slot slot pending_marker)

-- The end of bootSequence: the slot and the version are logged.
pub log_boot : Exec (Unit {0})
log_boot = do ignore (active >>= λ _. pure tt); ignore (active_version >>= λ _. pure tt)

module _ (hash : String → String) where
  unfoldable pub verify_sha256 : FilePath → String → Exec (Unit {0})
  verify_sha256 p want = do
    c ← read_file p
    if str_eq (hash c) want then pure tt else raise checksum_mismatch

  -- The image of a slot against the checksum that is stored with it.
  unfoldable pub verify_slot : String → Exec (Unit {0})
  verify_slot slot = do
    want ← read_file (in_slot slot checksum_file)
    verify_sha256 (in_slot slot firmware_file) (trim_space want)

  -- VerifyStaged
  unfoldable pub verify_staged : Exec (Unit {0})
  verify_staged = do slot ← active; verify_slot (other slot)

  -- SelfCheck
  unfoldable pub self_check : Exec (Unit {0})
  self_check = do slot ← active; verify_slot slot

  -- What a trial boot ends with: the self-check decides.
  pub finish_trial : Exec (Unit {0})
  finish_trial = do
    checked ← attempt self_check
    elim checked [ none ↦ rollback | some _ ↦ do confirm; log_boot ]

  -- bootSequence of internal/agent/agent.go
  pub boot_sequence : Exec (Unit {0})
  boot_sequence = do result ← boot_check; elim result [ trial ↦ finish_trial | _ ↦ log_boot ]

  -- What New and then Run of internal/agent/agent.go do with the disk before the loops start.
  pub power_on : Exec (Unit {0})
  power_on = do new_slot_manager; boot_sequence
