-- ===== src/Agent/Upgrade/Crash.antt =====
-- The crash safety of the installation: the running slot stays whole, and the device never boots an
-- image that was not verified, whichever call fails and wherever the power is lost.
use mathlib.Core.Path.{subst, subst⁻¹}
use edge_fleet_operator_demo.Base.{◌≡◌, refl, ◌∙◌, ◌⊎◌, inl, inr, String, Bool, false, eq_refl}
use edge_fleet_operator_demo.Agent.Disk.{
  SlotFile, firmware_file, version_file, checksum_file, pending_marker, confirmed_marker, FilePath,
  in_slot, current_link, Disk, Ended, done, Exec, pure, ◌>>=◌, spend, write_file, remove,
}
use edge_fleet_operator_demo.Agent.Slots.{
  BootResult, trial, other, switch_to, stage, stage_into, verify_slot, verify_staged,
  promote_staged, boot_slot, boot_check, self_check, roll_back_from, rollback, confirm,
}
use edge_fleet_operator_demo.Agent.Slots.Frame.{Frame, Frame-write_file, Frame-bind, Frame-remove}
use edge_fleet_operator_demo.Agent.Slots.Effects.{
  nothing, links, files_of, markers_of, links_and, switch_to-Frame, stage_into-Frame,
  roll_back_from-Frame, boot_slot-Frame, verify_slot-Frame, Verified, verify_slot-Verified,
  switch_to-current,
}
use edge_fleet_operator_demo.Agent.Slots.Rules.{
  Boots, Pair, with_active, after_bind, roll_back_from-current, boot_slot-current,
}

module _ (hash : String → String) (x y : String) (p : Pair x y) (before : Disk) where
  -- The files of the running slot are as they were before.
  abbrev pub Kept : Disk → Type 0
  Kept d = (f : SlotFile) → d.node (in_slot x f) ≡ before.node (in_slot x f)

  -- While the other slot is written.
  abbrev pub Old : Disk → Type 0
  Old d = Kept d × Boots x d

  -- Once the other slot boots.
  abbrev pub New : Disk → Type 0
  New d = Kept d × Boots y d × Verified hash y d

  -- At every instant.
  abbrev pub IsSafe : Disk → Type 0
  IsSafe d = Kept d × (Boots x d ⊎ (Boots y d × Verified hash y d))

  pub Frame-Kept :
      {A : Type 0} (S : FilePath → Bool) (m : Exec A) (d : Disk)
      → Frame S m
      → ((f : SlotFile) → S (in_slot x f) ≡ false)
      → Kept d
      → Kept (m d).1
  Frame-Kept S m d frame out kept f = frame.at d (in_slot x f) (out f) ∙ kept f

  stage_into-Old :
      (d : Disk) (src : FilePath) (version checksum : String)
      → Old d
      → Old (stage_into y src version checksum d).1
  stage_into-Old d src version checksum (kept, boots) =
      let frame = stage_into-Frame y src version checksum in
      (
        Frame-Kept (files_of y) _ d frame (λ f. p.apart_x) kept,
        frame.at d current_link refl ∙ boots,
      )

  pub stage-Old :
      (d : Disk) (src : FilePath) (version checksum : String)
      → Old d
      → Old (stage src version checksum d).1
  unfolding stage
  stage-Old d src version checksum old =
      with_active (λ slot. stage_into (other slot) src version checksum) d x (λ r. Old r.1) old.1
        p.named_x
        (subst⁻¹ (λ s. Old (stage_into s src version checksum (spend d)).1) p.other_x
          (stage_into-Old (spend d) src version checksum old))
        (λ e. old) old

  -- A step that changes no file keeps a verified image.
  Frame-Verified :
      {A : Type 0} (S : FilePath → Bool) (m : Exec A) (d : Disk)
      → Frame S m
      → S (in_slot y firmware_file) ≡ false
      → S (in_slot y checksum_file) ≡ false
      → Verified hash y d
      → Verified hash y (m d).1
  Frame-Verified S m d frame fw cs (c, v, is_c, is_v, good) =
      (c, v, frame.at d _ fw ∙ is_c, frame.at d _ cs ∙ is_v, good)

  Frame-Old :
      {A : Type 0} (S : FilePath → Bool) (m : Exec A) (d : Disk)
      → Frame S m
      → ((f : SlotFile) → S (in_slot x f) ≡ false)
      → S current_link ≡ false
      → Old d
      → Old (m d).1
  Frame-Old S m d frame out stays (kept, boots) =
      (Frame-Kept S m d frame out kept, frame.at d current_link stays ∙ boots)

  not_marker : (f : SlotFile) → markers_of y (in_slot x f) ≡ false
  not_marker firmware_file = refl
  not_marker version_file = refl
  not_marker checksum_file = refl
  not_marker pending_marker = p.apart_x
  not_marker confirmed_marker = p.apart_x

  pub Frame-New :
      {A : Type 0} (m : Exec A) (d : Disk) → Frame (markers_of y) m → New d → New (m d).1
  Frame-New m d frame (kept, boots, image) = (
    Frame-Kept (markers_of y) m d frame not_marker kept,
    frame.at d current_link refl ∙ boots,
    Frame-Verified (markers_of y) m d frame refl refl image,
  )

  -- VerifyStaged passes only if the other slot holds a verified image.
  pub verify_staged-Old :
      (d : Disk)
      → Old d
      → let r = verify_staged hash d in Old r.1 × (r.0 ≡ done tt → Verified hash y r.1)
  unfolding verify_staged
  verify_staged-Old d old =
      let Q : Ended Unit × Disk → Type 0 = λ r. Old r.1 × (r.0 ≡ done tt → Verified hash y r.1) in
      let frame = verify_slot-Frame hash y in
      with_active (λ slot. verify_slot hash (other slot)) d x Q old.1 p.named_x
        (subst⁻¹ (λ s. Q (verify_slot hash s (spend d))) p.other_x
          (
            Frame-Old nothing _ (spend d) frame (λ f. refl) refl old,
            λ e.
                Frame-Verified nothing _ (spend d) frame refl refl
                  (verify_slot-Verified hash y (spend d) e),
          ))
        (λ e. (old, λ h. absurd (cc))) (old, λ h. absurd (cc))

  -- From the flip on: the other slot boots and is verified, or the running one boots again.
  pub promote-IsSafe :
      (d : Disk)
      → Old d
      → Verified hash y d
      → let r = promote_staged d in IsSafe r.1 × ((s : String) → r.0 ≡ done s → New r.1)
  unfolding promote_staged
  promote-IsSafe d old image =
      let Q : Ended String × Disk → Type 0 =
        λ r. IsSafe r.1 × ((s : String) → r.0 ≡ done s → New r.1) in
      let S = markers_of y in
      let mark = write_file (in_slot y pending_marker) "0" in
      let frame : Frame S mark = Frame-write_file S (in_slot y pending_marker) "0" (eq_refl y) in
      let d1 = (mark (spend d)).1 in
      let old1 : Old d1 = Frame-Old S mark (spend d) frame not_marker refl old in
      let image1 : Verified hash y d1 = Frame-Verified S mark (spend d) frame refl refl image in
      let flip = switch_to-Frame links y refl refl in
      let d2 = (switch_to y d1).1 in
      let kept2 : Kept d2 = Frame-Kept links (switch_to y) d1 flip (λ f. refl) old1.0 in
      let image2 : Verified hash y d2 =
        Frame-Verified links (switch_to y) d1 flip refl refl image1 in
      let (where_to, if_done) = switch_to-current y d1 in
      let safe2 : IsSafe d2 =
        (kept2, elim where_to [ inl same ↦ inl (same ∙ old1.1) | inr new ↦ inr (new, image2) ]) in
      let safe1 : IsSafe d1 = (old1.0, inl old1.1) in
      with_active
        (λ slot. write_file (in_slot (other slot) pending_marker) "0" >>= λ _.
          switch_to (other slot) >>= λ _. pure (other slot))
        d x Q old.1 p.named_x
        (subst⁻¹
          (λ s. Q (
            (write_file (in_slot s pending_marker) "0" >>= λ _. switch_to s >>= λ _. pure s)
              (spend d)))
          p.other_x
          (after_bind mark _ (spend d) Q (safe1, λ s e. absurd (cc))
            (λ e. (safe1, λ s e'. absurd (cc)))
            λ _ _.
              after_bind (switch_to y) _ d1 Q (safe2, λ s e. absurd (cc))
                (λ e. (safe2, λ s e'. absurd (cc)))
                (λ _ e. (safe2, λ s e'. (kept2, if_done e, image2)))))
        (λ e. ((old.0, inl old.1), λ s e'. absurd (cc))) ((old.0, inl old.1), λ s e. absurd (cc))

  pub New-IsSafe : (d : Disk) → New d → IsSafe d
  New-IsSafe d (kept, boots, image) = (kept, inr (boots, image))

  -- A change of the markers of the other slot and of the links.
  links_and-IsSafe :
      {A : Type 0} (m : Exec A) (d : Disk)
      → Frame (links_and y) m
      → ((m d).1.node current_link ≡ d.node current_link) ⊎ Boots (other y) (m d).1
      → New d
      → IsSafe (m d).1
  links_and-IsSafe m d frame where_to (kept, boots, image) =
      let image' : Verified hash y (m d).1 =
        Frame-Verified (links_and y) m d frame refl refl image in
      (
        Frame-Kept (links_and y) m d frame (λ f. rw (not_marker f)) kept,
        elim where_to [
          | inl same ↦ inr (same ∙ boots, image')
          | inr back ↦ inl (subst (λ s. Boots s (m d).1) p.other_y back)
        ],
      )

  pub boot-IsSafe :
      (d : Disk) → New d → let r = boot_check d in IsSafe r.1 × (r.0 ≡ done trial → New r.1)
  unfolding boot_check
  boot-IsSafe d new =
      let Q : Ended BootResult × Disk → Type 0 = λ r. IsSafe r.1 × (r.0 ≡ done trial → New r.1) in
      let frame = boot_slot-Frame y in
      let (where_to, of_trial) = boot_slot-current y (spend d) in
      with_active boot_slot d y Q new.1 p.named_y
        (
          links_and-IsSafe (boot_slot y) (spend d) frame where_to new,
          λ e. (
            Frame-Kept (links_and y) (boot_slot y) (spend d) frame (λ f. rw (not_marker f)) new.0,
            of_trial e ∙ new.1,
            Frame-Verified (links_and y) (boot_slot y) (spend d) frame refl refl new.2,
          ),
        )
        (λ e. (New-IsSafe d new, λ e'. absurd (cc))) (New-IsSafe d new, λ e. absurd (cc))

  pub self_check-New : (d : Disk) → New d → New (self_check hash d).1
  unfolding self_check
  self_check-New d (kept, boots, image) =
      let frame = verify_slot-Frame hash y in
      with_active (verify_slot hash) d y (λ r. New r.1) boots p.named_y
        (
          Frame-Kept nothing (verify_slot hash y) (spend d) frame (λ f. refl) kept,
          frame.at (spend d) current_link refl ∙ boots,
          Frame-Verified nothing (verify_slot hash y) (spend d) frame refl refl image,
        )
        (λ e. (kept, boots, image)) (kept, boots, image)

  pub rollback-IsSafe : (d : Disk) → New d → IsSafe (rollback d).1
  unfolding rollback
  rollback-IsSafe d new =
      with_active roll_back_from d y (λ r. IsSafe r.1) new.1 p.named_y
        (links_and-IsSafe (roll_back_from y) (spend d) (roll_back_from-Frame y)
          (roll_back_from-current y (spend d)) new)
        (λ e. New-IsSafe d new) (New-IsSafe d new)

  pub confirm-New : (d : Disk) → New d → New (confirm d).1
  unfolding confirm
  confirm-New d new =
      let S = markers_of y in
      let seal = λ (s : String).
        write_file (in_slot s confirmed_marker) "" >>= λ _. remove (in_slot s pending_marker) in
      with_active seal d y (λ r. New r.1) new.1 p.named_y
        (Frame-New (seal y) (spend d)
          (Frame-bind S _ _ (Frame-write_file S _ "" (eq_refl y)) λ _. Frame-remove S _ (eq_refl y))
          new)
        (λ e. new) new
