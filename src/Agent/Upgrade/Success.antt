-- ===== src/Agent/Upgrade/Success.antt =====
-- The installing part of runUpgrade in internal/agent/agent.go on a device where nothing fails: it
-- goes through.
use edge_fleet_operator_demo.Base.{
  ◌≡◌, refl, ap, ◌∙◌, String, true, none, some, str_eq, eq_refl, eq_iff,
}
use edge_fleet_operator_demo.Agent.Text.{trim_space, itoa, successor, pos}
use edge_fleet_operator_demo.Agent.Disk.{
  firmware_file, version_file, checksum_file, pending_marker, confirmed_marker, slot_dir, in_slot,
  staging, Node, file, folder, done, same_path, same_file, read_file, write_file, remove, stat,
  ignore,
}
use edge_fleet_operator_demo.Agent.Slots.{
  trial, active, stage, stage_into, copy_and_close, verify_sha256, verify_slot, verify_staged,
  promote_staged, boot_check, self_check, confirm,
}
use edge_fleet_operator_demo.Agent.Slots.Once.{promotes_other, first_boot}
use edge_fleet_operator_demo.Agent.Slots.Rules.{Boots, Pair}
use edge_fleet_operator_demo.Agent.Slots.Working.{Files, working}
use edge_fleet_operator_demo.Agent.Slots.Exact.{
  set, exact_bind, removed, wrote, cleared, reads, stats, switched, active_is,
}

module _ (hash : String → String) {x y : String} (p : Pair x y)
    (key image version checksum : String) where
  -- The files after the image was copied into the other slot, with its version and its checksum.
  abbrev pub flashed : Files → Files
  flashed n = set (in_slot y checksum_file) (some (file checksum)) (
      set (in_slot y version_file) (some (file version)) (
        set (in_slot y firmware_file) (some (file image)) (
          set (in_slot y firmware_file) (some (file ""))
            (set (in_slot y pending_marker) none (set (in_slot y confirmed_marker) none n)))))

  stage_into_lem :
      (n : Files)
      → n (slot_dir y) ≡ some folder
      → n (staging key) ≡ some (file image)
      → stage_into y (staging key) version checksum (working n) ≡ (done tt, working (flashed n))
  unfolding stage_into copy_and_close same_path
  stage_into_lem n dir there =
      let fw = in_slot y firmware_file in
      let n1 = set (in_slot y confirmed_marker) none n in
      let n2 = set (in_slot y pending_marker) none n1 in
      let n3 = set fw (some (file "")) n2 in
      let n4 = set fw (some (file image)) n3 in
      let n5 = set (in_slot y version_file) (some (file version)) n4 in
      exact_bind (ignore (remove (in_slot y confirmed_marker))) _ n n1 tt
        (removed n (in_slot y confirmed_marker))
        (exact_bind (ignore (remove (in_slot y pending_marker))) _ n1 n2 tt
          (removed n1 (in_slot y pending_marker))
          (exact_bind (stat (staging key)) _ n2 n2 tt (stats n2 (staging key) (file image) there) (
            exact_bind (write_file fw "") _ n2 n3 tt (wrote n2 y firmware_file "" dir) (
              exact_bind (copy_and_close fw (staging key)) _ n3 n4 tt
                (exact_bind (read_file (staging key)) (write_file fw) n3 n3 image
                  (reads n3 (staging key) image there) (wrote n3 y firmware_file image dir))
                (exact_bind (write_file (in_slot y version_file) version) _ n4 n5 tt
                  (wrote n4 y version_file version dir) (wrote n5 y checksum_file checksum dir))))))

  pub stage_lem :
      (n : Files)
      → Boots x (working n)
      → n (slot_dir y) ≡ some folder
      → n (staging key) ≡ some (file image)
      → stage (staging key) version checksum (working n) ≡ (done tt, working (flashed n))
  unfolding stage
  stage_lem n boots dir there = exact_bind active _ n n x (active_is n x boots p.named_x) (
      ap (λ s. stage_into s (staging key) version checksum (working n)) p.other_x
      ∙ stage_into_lem n dir there)

  -- A slot that holds the image and its checksum is verified.
  module _ (good : hash image ≡ trim_space checksum) where
    pub verify_slot_lem :
        (n : Files)
        → n (in_slot y firmware_file) ≡ some (file image)
        → n (in_slot y checksum_file) ≡ some (file checksum)
        → verify_slot hash y (working n) ≡ (done tt, working n)
    unfolding verify_slot verify_sha256
    verify_slot_lem n fw cs =
        let same : str_eq (hash image) (trim_space checksum) ≡ true =
          (eq_iff (hash image) (trim_space checksum)).1 good in
        exact_bind (read_file (in_slot y checksum_file)) _ n n checksum (reads n _ checksum cs) (
          exact_bind (read_file (in_slot y firmware_file)) _ n n image (reads n _ image fw)
            (rw same refl))

    -- Promotion, the trial boot and the seal.
    abbrev pub promoted : Files → Files
    promoted n = switched (set (in_slot y pending_marker) (some (file "0")) n) y

    abbrev pub on_trial : Files → Files
    on_trial n = set (in_slot y pending_marker) (some (file (itoa (successor (pos 0))))) n

    abbrev pub sealed : Files → Files
    sealed n =
        set (in_slot y pending_marker) none (set (in_slot y confirmed_marker) (some (file "")) n)

    pub confirm_lem :
        (n : Files) (k : Node)
        → Boots y (working n)
        → n (slot_dir y) ≡ some folder
        → n (in_slot y pending_marker) ≡ some k
        → confirm (working n) ≡ (done tt, working (sealed n))
    unfolding confirm same_path same_file
    confirm_lem n k boots dir pending =
        let n1 = set (in_slot y confirmed_marker) (some (file "")) n in
        exact_bind active _ n n y (active_is n y boots p.named_y) (
          exact_bind (write_file (in_slot y confirmed_marker) "") _ n n1 tt
            (wrote n y confirmed_marker "" dir)
            (cleared n1 (in_slot y pending_marker) k (rw (eq_refl y) pending)))

    abbrev pub final : Files → Files
    final n = set (staging key) none (sealed (on_trial (promoted (flashed n))))

    pub verify_staged_lem :
        (n : Files)
        → Boots x (working n)
        → verify_staged hash (working (flashed n)) ≡ (done tt, working (flashed n))
    unfolding verify_staged same_path same_file
    verify_staged_lem n boots =
        let n1 = flashed n in
        exact_bind active _ n1 n1 x (active_is n1 x boots p.named_x) (
          ap (λ s. verify_slot hash s (working n1)) p.other_x
          ∙ verify_slot_lem n1 (rw (eq_refl y) refl) (rw (eq_refl y) refl))

    pub self_check_lem :
        (n : Files)
        → let n3 = on_trial (promoted (flashed n)) in
          self_check hash (working n3) ≡ (done tt, working n3)
    unfolding self_check same_path same_file
    self_check_lem n =
        let n3 = on_trial (promoted (flashed n)) in
        exact_bind active _ n3 n3 y (active_is n3 y refl p.named_y)
          (verify_slot_lem n3 (rw (eq_refl y) refl) (rw (eq_refl y) refl))

    pub boots_on_trial :
        (n : Files)
        → n (slot_dir y) ≡ some folder
        → boot_check (working (promoted (flashed n)))
          ≡ (done trial, working (on_trial (promoted (flashed n))))
    unfolding same_path same_file
    boots_on_trial n dir =
        first_boot p (promoted (flashed n)) refl dir (rw (eq_refl y) refl) (rw (eq_refl y) refl)

    pub confirms_trial :
        (n : Files)
        → n (slot_dir y) ≡ some folder
        → let n3 = on_trial (promoted (flashed n)) in
          confirm (working n3) ≡ (done tt, working (sealed n3))
    unfolding same_path same_file
    confirms_trial n dir =
        confirm_lem (on_trial (promoted (flashed n))) (file (itoa (successor (pos 0)))) refl dir
          (rw (eq_refl y) refl)

    pub promotes :
        (n : Files)
        → Boots x (working n)
        → n (slot_dir y) ≡ some folder
        → promote_staged (working (flashed n)) ≡ (done y, working (promoted (flashed n)))
    unfolding same_path
    promotes n boots dir = promotes_other p (flashed n) boots dir

    -- The other slot boots, and holds the image and the version.
    abbrev pub Upgraded : Files → Type 0
    Upgraded n =
        Boots y (working n)
        × (n (in_slot y firmware_file) ≡ some (file image))
        × (n (in_slot y version_file) ≡ some (file version))
        × (n (in_slot y confirmed_marker) ≡ some (file ""))

    pub final-Upgraded : (n : Files) → Upgraded (final n)
    unfolding same_path same_file
    final-Upgraded n = (refl, rw (eq_refl y) refl, rw (eq_refl y) refl, rw (eq_refl y) refl)
