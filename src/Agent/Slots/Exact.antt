-- ===== src/Agent/Slots/Exact.antt =====
-- What the calls of internal/agent/slot.go leave on a disk on which every call works, exactly.
use mathlib.Core.Path.{fun_ext}
use edge_fleet_operator_demo.Base.{
  ◌≡◌, refl, sym, ap, ◌∙◌, inl, inr, String, ◌<>◌, Bool-cases, Option, Option-cases, none, some,
  arith, if◌then◌else◌,
}
use edge_fleet_operator_demo.Agent.Text.{trim_prefix, base}
use edge_fleet_operator_demo.Agent.Disk.{
  SlotFile, FilePath, slot_dir, in_slot, current_link, current_tmp, Node, file, link, folder, Disk,
  Ended, done, Exec, continue, recovered, attempt, ignore, ◌>>=◌, read_file, read_link, stat,
  write_file, remove, symlink, rename, same_path, present,
}
use edge_fleet_operator_demo.Agent.Slots.{active, switch_to}
use edge_fleet_operator_demo.Agent.Slots.Frame.{same_path_sound}
use edge_fleet_operator_demo.Agent.Slots.Rules.{Boots}
use edge_fleet_operator_demo.Agent.Slots.Working.{Files, working}

abbrev pub set : FilePath → Option Node → Files → Files
set p o n q = if same_path p q then o else n q

module _ {A B : Type 0} where
  pub exact_bind :
      (m : Exec A) (f : A → Exec B) (n n1 : Files) (a : A) {r : Ended B × Disk}
      → m (working n) ≡ (done a, working n1)
      → f a (working n1) ≡ r
      → (m >>= f) (working n) ≡ r
  exact_bind m f n n1 a e k = ap (λ r. continue r f) e ∙ k

  pub exact_attempt :
      (m : Exec A) (f : Option A → Exec B) (n n1 : Files) (a : A) {r : Ended B × Disk}
      → m (working n) ≡ (done a, working n1)
      → f (some a) (working n1) ≡ r
      → (attempt m >>= f) (working n) ≡ r
  exact_attempt m f n n1 a e k = ap (λ r. continue (recovered r) f) e ∙ k

module _ (n : Files) where
  -- To take away what is not there changes nothing.
  set_missing : (p : FilePath) → n p ≡ none → n ≡ set p none n
  set_missing p gone = fun_ext λ q. elim (Bool-cases (same_path p q)) [
    | inl same ↦
        let there : n q ≡ none = ap n (sym (same_path_sound p q same)) ∙ gone in rw same there
    | inr apart ↦ rw apart refl
  ]

  pub removed : (p : FilePath) → ignore (remove p) (working n) ≡ (done tt, working (set p none n))
  unfolding remove
  removed p = elim (Option-cases (n p)) [
    | inl gone ↦ rw gone (ap (λ n. (done tt, working n)) (set_missing p gone))
    | inr (k, there) ↦ rw there refl
  ]

  pub wrote :
      (s : String) (f : SlotFile) (c : String)
      → n (slot_dir s) ≡ some folder
      → write_file (in_slot s f) c (working n)
        ≡ (done tt, working (set (in_slot s f) (some (file c)) n))
  unfolding write_file
  wrote s f c dir = rw dir refl

  pub cleared :
      (p : FilePath) (k : Node)
      → n p ≡ some k
      → remove p (working n) ≡ (done tt, working (set p none n))
  unfolding remove
  cleared p k there = rw there refl

  pub reads :
      (p : FilePath) (c : String)
      → n p ≡ some (file c)
      → read_file p (working n) ≡ (done c, working n)
  unfolding read_file
  reads p c there = rw there refl

  pub stats : (p : FilePath) (k : Node) → n p ≡ some k → stat p (working n) ≡ (done tt, working n)
  unfolding stat
  stats p k there = rw there refl

  pub misses :
      {B : Type 0} (p : FilePath) (f : Option (Unit {0}) → Exec B) {r : Ended B × Disk}
      → n p ≡ none
      → f none (working n) ≡ r
      → (attempt (stat p) >>= f) (working n) ≡ r
  unfolding stat
  misses p f gone k = ap (λ o. continue (recovered (present o, working n)) f) gone ∙ k

  abbrev pub switched : String → Files
  switched s = set current_tmp none (
      set current_link (some (link ("slot" <> s)))
        (set current_tmp (some (link ("slot" <> s))) (set current_tmp none n)))

  pub switches_to : (s : String) → switch_to s (working n) ≡ (done tt, working (switched s))
  unfolding switch_to symlink rename same_path
  switches_to s =
      exact_bind (ignore (remove current_tmp)) _ n (set current_tmp none n) tt (removed current_tmp)
        refl

  pub active_is :
      (s : String)
      → Boots s (working n)
      → trim_prefix (base ("slot" <> s)) "slot" ≡ s
      → active (working n) ≡ (done s, working n)
  unfolding active read_link
  active_is s boots named = ground arith
