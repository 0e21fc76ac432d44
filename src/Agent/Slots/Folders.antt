-- ===== src/Agent/Slots/Folders.antt =====
-- That the operations of internal/agent/slot.go leave the directories of the slots alone.
use edge_fleet_operator_demo.Base.{◌≡◌, refl, String, Bool, true, false}
use edge_fleet_operator_demo.Agent.Disk.{
  FilePath, slot_dir, in_slot, current_link, current_tmp, staging, Disk, Exec, ◌>>=◌,
}
use edge_fleet_operator_demo.Agent.Slots.{
  active, verify_staged, verify_sha256, stage, promote_staged, boot_check, self_check, rollback,
  confirm,
}
use edge_fleet_operator_demo.Agent.Slots.Frame.{
  Frame, Frame-pure, Frame-bind, Frame-read_file, Frame-read_link, Frame-write_file, Frame-remove,
  Frame-if, Frame-raise,
}
use edge_fleet_operator_demo.Agent.Slots.Effects.{
  nothing, files_of, links_and, switch_to-Frame, stage_into-Frame, roll_back_from-Frame,
  boot_slot-Frame, verify_slot-Frame,
}

-- Every path but the directories of the slots.
abbrev pub inside : FilePath → Bool
inside (slot_dir _) = false
inside _ = true

Frame-wider :
    {A : Type 0} (T : FilePath → Bool) (m : Exec A)
    → ((s : String) → T (slot_dir s) ≡ false)
    → Frame T m
    → Frame inside m
Frame-wider T m apart frame = record { at = λ d q h. wide d q h }
  where
    wide : (d : Disk) (q : FilePath) → inside q ≡ false → (m d).1.node q ≡ d.node q
    wide d (slot_dir s) h = frame.at d (slot_dir s) (apart s)
    wide d (in_slot s f) h = absurd (cc h)
    wide d current_link h = absurd (cc h)
    wide d current_tmp h = absurd (cc h)
    wide d (staging s) h = absurd (cc h)

from_active :
    {A : Type 0} (f : String → Exec A)
    → ((s : String) → Frame inside (f s))
    → Frame inside (active >>= f)
unfolding active
from_active f k =
    Frame-bind inside _ _
      (Frame-bind inside _ _ (Frame-read_link inside current_link) λ t. Frame-pure inside _) k

pub stage-Frame : (src : FilePath) (v c : String) → Frame inside (stage src v c)
unfolding stage
stage-Frame src v c =
    from_active _ λ s. Frame-wider (files_of _) _ (λ _. refl) (stage_into-Frame _ src v c)

pub promote_staged-Frame : Frame inside promote_staged
unfolding promote_staged
promote_staged-Frame = from_active _ λ s.
    Frame-bind inside _ _ (Frame-write_file inside _ _ refl)
      λ _. Frame-bind inside _ _ (switch_to-Frame inside _ refl refl) λ _. Frame-pure inside _

pub boot_check-Frame : Frame inside boot_check
unfolding boot_check
boot_check-Frame = from_active _ λ s. Frame-wider (links_and s) _ (λ _. refl) (boot_slot-Frame s)

pub rollback-Frame : Frame inside rollback
unfolding rollback
rollback-Frame = from_active _ λ s. Frame-wider (links_and s) _ (λ _. refl) (roll_back_from-Frame s)

pub confirm-Frame : Frame inside confirm
unfolding confirm
confirm-Frame =
    from_active _
      λ s. Frame-bind inside _ _ (Frame-write_file inside _ _ refl) λ _. Frame-remove inside _ refl

pub active-Frame : Frame inside active
unfolding active
active-Frame = Frame-bind inside _ _ (Frame-read_link inside current_link) λ t. Frame-pure inside _

module _ (hash : String → String) where
  pub verify_staged-Frame : Frame inside (verify_staged hash)
  unfolding verify_staged
  verify_staged-Frame =
      from_active _ λ s. Frame-wider nothing _ (λ _. refl) (verify_slot-Frame hash _)

  pub self_check-Frame : Frame inside (self_check hash)
  unfolding self_check
  self_check-Frame = from_active _ λ s. Frame-wider nothing _ (λ _. refl) (verify_slot-Frame hash _)

  pub verify_sha256-Frame :
      (p : FilePath) (want : String) → Frame inside (verify_sha256 hash p want)
  unfolding verify_sha256
  verify_sha256-Frame p want =
      Frame-bind inside _ _ (Frame-read_file inside p)
        λ c. Frame-if inside _ _ _ (Frame-pure inside tt) (Frame-raise inside _)
