-- ===== src/Agent/Slots/Effects.antt =====
-- What the parts of internal/agent/slot.go leave behind: the paths that each can change, the link
-- after a switch, and the image after a check.
use edge_fleet_operator_demo.Base.{
  suc, ◌≡◌, refl, sym, ap, ◌⊎◌, inl, inr, String, ◌<>◌, Bool, true, false, ◌||◌, none, some, arith,
  str_eq, eq_iff, eq_refl, if◌then◌else◌, Bool-cases, ◌∙◌,
}
use edge_fleet_operator_demo.Agent.Text.{trim_space, ℤ, pos}
use edge_fleet_operator_demo.Agent.Disk.{
  firmware_file, checksum_file, pending_marker, confirmed_marker, FilePath, in_slot, current_link,
  current_tmp, file, link, Disk, checksum_mismatch, done, pure, raise, read_file, remove, symlink,
  rename, same_path,
}
use edge_fleet_operator_demo.Agent.Slots.{
  normal, trial, rolled_back, switch_to, stage_into, copy_and_close, roll_back_from, trial_boot,
  boot_slot, verify_sha256, verify_slot,
}
use edge_fleet_operator_demo.Agent.Slots.Frame.{
  bind_done, read_file_done, Frame, Frame-if, Frame-pure, Frame-raise, Frame-bind, Frame-attempt,
  Frame-ignore, Frame-read_file, Frame-stat, Frame-write_file, Frame-remove, Frame-symlink,
  Frame-rename,
}

-- No path, the two links, the files of a slot, its two markers, and these with the links.
abbrev pub nothing : FilePath → Bool
nothing _ = false

abbrev pub links : FilePath → Bool
links current_link = true
links current_tmp = true
links _ = false

abbrev pub files_of : String → FilePath → Bool
files_of slot (in_slot s _) = str_eq s slot
files_of slot _ = false

abbrev pub markers_of : String → FilePath → Bool
markers_of slot (in_slot s pending_marker) = str_eq s slot
markers_of slot (in_slot s confirmed_marker) = str_eq s slot
markers_of slot _ = false

abbrev pub links_and : String → FilePath → Bool
links_and slot p = markers_of slot p || links p

pub switch_to-Frame :
    (S : FilePath → Bool) (slot : String)
    → S current_link ≡ true
    → S current_tmp ≡ true
    → Frame S (switch_to slot)
unfolding switch_to
switch_to-Frame S slot l t = Frame-bind S _ _ (Frame-ignore S _ (Frame-remove S current_tmp t)) λ _.
    Frame-bind S _ _ (Frame-symlink S _ current_tmp t)
      λ _. Frame-rename S current_tmp current_link t l

pub stage_into-Frame :
    (slot : String) (src : FilePath) (version checksum : String)
    → Frame (files_of slot) (stage_into slot src version checksum)
unfolding stage_into copy_and_close
stage_into-Frame slot src version checksum =
    let S = files_of slot in
    let own = eq_refl slot in
    Frame-bind S _ _ (Frame-ignore S _ (Frame-remove S _ own)) λ _.
      Frame-bind S _ _ (Frame-ignore S _ (Frame-remove S _ own)) λ _.
        Frame-bind S _ _ (Frame-stat S src) λ _. Frame-bind S _ _ (Frame-write_file S _ "" own) λ _.
          Frame-bind S _ _
            (Frame-bind S _ _ (Frame-read_file S src) λ c. Frame-write_file S _ c own)
            λ _.
              Frame-bind S _ _ (Frame-write_file S _ version own)
                λ _. Frame-write_file S _ checksum own

pub roll_back_from-Frame : (slot : String) → Frame (links_and slot) (roll_back_from slot)
unfolding roll_back_from
roll_back_from-Frame slot =
    let S = links_and slot in
    let own : S (in_slot slot pending_marker) ≡ true = rw (eq_refl slot) in
    Frame-bind S _ _ (Frame-ignore S _ (Frame-remove S _ own)) λ _. switch_to-Frame S _ refl refl

pub trial_boot-Frame : (slot : String) (tries : ℤ) → Frame (links_and slot) (trial_boot slot tries)
unfolding trial_boot
trial_boot-Frame slot (pos (suc n)) =
    Frame-bind (links_and slot) _ _ (roll_back_from-Frame slot) λ _. Frame-pure _ rolled_back
trial_boot-Frame slot _ =
    Frame-bind (links_and slot) _ _ (Frame-write_file (links_and slot) _ _ (rw (eq_refl slot)))
      λ _. Frame-pure _ trial

pub boot_slot-Frame : (slot : String) → Frame (links_and slot) (boot_slot slot)
unfolding boot_slot
boot_slot-Frame slot =
    let S = links_and slot in
    Frame-bind S _ _ (Frame-attempt S _ (Frame-stat S _)) (elim [
      | some _ ↦ Frame-pure S normal
      | none ↦ Frame-bind S _ _ (Frame-attempt S _ (Frame-read_file S _)) (elim [
        | none ↦ Frame-bind S _ _ (roll_back_from-Frame slot) λ _. Frame-pure S rolled_back
        | some b ↦ trial_boot-Frame slot _
      ])
    ])

check_sound :
    (a b : String) (d : Disk)
    → ((if str_eq a b then pure tt else raise checksum_mismatch) d).0 ≡ done tt
    → a ≡ b
check_sound a b d h = elim (Bool-cases (str_eq a b)) [
  | inl e ↦ (eq_iff a b).0 e
  | inr e ↦ absurd (cc (rw e at h))
]

module _ (hash : String → String) where
  pub verify_slot-Frame : (slot : String) → Frame nothing (verify_slot hash slot)
  unfolding verify_slot verify_sha256
  verify_slot-Frame slot = Frame-bind nothing _ _ (Frame-read_file nothing _) λ want.
      Frame-bind nothing _ _ (Frame-read_file nothing _)
        λ c. Frame-if nothing _ _ _ (Frame-pure nothing tt) (Frame-raise nothing _)

  -- The image in a slot has the checksum that is stored beside it.
  abbrev pub Verified : String → Disk → Type 0
  Verified slot d =
      (c : String) × (v : String) × (d.node (in_slot slot firmware_file) ≡ some (file c))
      × (d.node (in_slot slot checksum_file) ≡ some (file v))
      × (hash c ≡ trim_space v)

  -- A check that passes has seen a verified slot.
  pub verify_slot-Verified :
      (slot : String) (d : Disk) → (verify_slot hash slot d).0 ≡ done tt → Verified slot d
  unfolding verify_slot verify_sha256
  verify_slot-Verified slot d h =
      let (v, got_v, h2) = bind_done (read_file (in_slot slot checksum_file)) _ d h in
      let (c, got_c, h3) = bind_done (read_file (in_slot slot firmware_file)) _ _ h2 in
      let (is_v, same) = read_file_done _ d got_v in
      let (is_c, _) = read_file_done _ _ got_c in
      (
        c,
        v,
        ap (λ n. n (in_slot slot firmware_file)) (sym same) ∙ is_c,
        is_v,
        check_sound (hash c) (trim_space v) _ h3,
      )

-- A switch is atomic: however it ends, the link is the old one or the new one, and it is the new
-- one if the switch returns.
pub switch_to-current :
    (slot : String) (d : Disk)
    → let r = switch_to slot d in
      ((r.1.node current_link ≡ d.node current_link)
        ⊎ (r.1.node current_link ≡ some (link ("slot" <> slot))))
      × (r.0 ≡ done tt → r.1.node current_link ≡ some (link ("slot" <> slot)))
unfolding switch_to remove symlink rename same_path
switch_to-current slot d = ground arith
