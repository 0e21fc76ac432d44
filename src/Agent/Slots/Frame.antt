-- ===== src/Agent/Slots/Frame.antt =====
-- Which paths the calls of internal/agent/slot.go can change, however the calls end.
use edge_fleet_operator_demo.Base.{
  ◌≡◌, refl, ap, inl, inr, String, Bool, true, false, some, arith, eq_iff, if◌then◌else◌,
  Bool-cases, ◌∙◌,
}
use edge_fleet_operator_demo.Agent.Disk.{
  SlotFile, FilePath, slot_dir, in_slot, current_link, current_tmp, staging, file, Disk, OsError,
  Ended, done, failed, died, Exec, continue, pure, raise, ◌>>=◌, recovered, attempt, ignore,
  same_file, same_path, read_file, read_link, stat, write_file, remove, symlink, rename,
}

continue_done :
    {A B : Type 0} (r : Ended A × Disk) (f : A → Exec B) {b : B}
    → (continue r f).0 ≡ done b
    → (a : A) × (r.0 ≡ done a) × ((f a r.1).0 ≡ done b)
continue_done (done a, d) f h = (a, refl, h)
continue_done (failed e, d) f h = absurd (cc)
continue_done (died, d) f h = absurd (cc)

-- A sequence that returns is one whose parts return.
pub bind_done :
    {A B : Type 0} (m : Exec A) (f : A → Exec B) (d : Disk) {b : B}
    → ((m >>= f) d).0 ≡ done b
    → (a : A) × ((m d).0 ≡ done a) × ((f a (m d).1).0 ≡ done b)
bind_done m f d h = continue_done (m d) f h

-- A read that returns gives what the file holds.
pub read_file_done :
    (p : FilePath) (d : Disk) {c : String}
    → (read_file p d).0 ≡ done c
    → (d.node p ≡ some (file c)) × ((read_file p d).1.node ≡ d.node)
unfolding read_file
read_file_done p d h = ground arith

same_file_sound : (f g : SlotFile) → same_file f g ≡ true → f ≡ g
unfolding same_file
same_file_sound f g h = ground arith

pub same_path_sound : (p q : FilePath) → same_path p q ≡ true → p ≡ q
unfolding same_path
same_path_sound (slot_dir s) (slot_dir t) h = ap slot_dir ((eq_iff s t).0 h)
same_path_sound (in_slot s f) (in_slot t g) h = ground (arith, eq_iff s t, same_file_sound f g)
same_path_sound current_link current_link h = refl
same_path_sound current_tmp current_tmp h = refl
same_path_sound (staging s) (staging t) h = ap staging ((eq_iff s t).0 h)
same_path_sound _ _ h = cc

-- A path inside a set is none outside it.
pub apart :
    (S : FilePath → Bool) (p q : FilePath) → S p ≡ true → S q ≡ false → same_path p q ≡ false
apart S p q inside outside = elim (Bool-cases (same_path p q)) [
  | inl same ↦ absurd (cc (ap S (same_path_sound p q same)))
  | inr e ↦ e
]

-- `m` changes no path outside `S`, whether it returns, fails or loses power.
pub record Frame {A : Type 0} (S : FilePath → Bool) (m : Exec A) : Type 0 where
  pub at : (d : Disk) (q : FilePath) → S q ≡ false → (m d).1.node q ≡ d.node q

module _ (S : FilePath → Bool) where
  pub Frame-pure : {A : Type 0} (a : A) → Frame S (pure a)
  Frame-pure a = record { at = λ d q h. refl }

  pub Frame-raise : {A : Type 0} (e : OsError) → Frame S (raise {A = A} e)
  Frame-raise e = record { at = λ d q h. refl }

  Frame-continue :
      {A B : Type 0} (r : Ended A × Disk) (f : A → Exec B) (q : FilePath)
      → S q ≡ false
      → ((a : A) → Frame S (f a))
      → (continue r f).1.node q ≡ r.1.node q
  Frame-continue (done a, d) f q h k = (k a).at d q h
  Frame-continue (failed e, d) f q h k = refl
  Frame-continue (died, d) f q h k = refl

  pub Frame-bind :
      {A B : Type 0} (m : Exec A) (f : A → Exec B)
      → Frame S m
      → ((a : A) → Frame S (f a))
      → Frame S (m >>= f)
  Frame-bind m f km kf = record { at = λ d q h. Frame-continue (m d) f q h kf ∙ km.at d q h }

  recovered-node :
      {A : Type 0} (r : Ended A × Disk) (q : FilePath) → (recovered r).1.node q ≡ r.1.node q
  recovered-node (done a, d) q = refl
  recovered-node (failed e, d) q = refl
  recovered-node (died, d) q = refl

  pub Frame-attempt : {A : Type 0} (m : Exec A) → Frame S m → Frame S (attempt m)
  Frame-attempt m k = record { at = λ d q h. recovered-node (m d) q ∙ k.at d q h }

  pub Frame-ignore : (m : Exec (Unit {0})) → Frame S m → Frame S (ignore m)
  Frame-ignore m k = Frame-bind (attempt m) _ (Frame-attempt m k) (λ _. Frame-pure tt)

  pub Frame-if :
      {A : Type 0} (b : Bool) (m n : Exec A) → Frame S m → Frame S n → Frame S (if b then m else n)
  Frame-if true m n km kn = km
  Frame-if false m n km kn = kn

  pub Frame-read_file : (p : FilePath) → Frame S (read_file p)
  unfolding read_file
  Frame-read_file p = record { at = λ d q h. ground arith }

  pub Frame-read_link : (p : FilePath) → Frame S (read_link p)
  unfolding read_link
  Frame-read_link p = record { at = λ d q h. ground arith }

  pub Frame-stat : (p : FilePath) → Frame S (stat p)
  unfolding stat
  Frame-stat p = record { at = λ d q h. ground arith }

  pub Frame-write_file : (p : FilePath) (c : String) → S p ≡ true → Frame S (write_file p c)
  unfolding write_file
  Frame-write_file p c i = record { at = λ d q h. ground (arith, apart S p q i h) }

  pub Frame-remove : (p : FilePath) → S p ≡ true → Frame S (remove p)
  unfolding remove
  Frame-remove p i = record { at = λ d q h. ground (arith, apart S p q i h) }

  pub Frame-symlink : (t : String) (p : FilePath) → S p ≡ true → Frame S (symlink t p)
  unfolding symlink
  Frame-symlink t p i = record { at = λ d q h. ground (arith, apart S p q i h) }

  pub Frame-rename : (p p' : FilePath) → S p ≡ true → S p' ≡ true → Frame S (rename p p')
  unfolding rename
  Frame-rename p p' i i' = record {
    at = λ d q h. ground (arith, apart S p q i h, apart S p' q i' h);
  }
