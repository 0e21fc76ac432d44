-- ===== src/Agent/Slots/Working.antt =====
-- The sequences of internal/agent/slot.go on a disk on which every call works: which return, which
-- can only fail, and what they leave.
use mathlib.Core.Path.{subst⁻¹}
use edge_fleet_operator_demo.Base.{
  ◌≡◌, refl, sym, ap, ◌∙◌, ◌⊎◌, inl, inr, String, ◌<>◌, Bool, true, false, Option, Option-cases,
  none, some, [], arith, str_eq, eq_refl, if◌then◌else◌,
}
use edge_fleet_operator_demo.Agent.Text.{trim_space, trim_prefix, base}
use edge_fleet_operator_demo.Agent.Disk.{
  content, present, target_of, SlotFile, pending_marker, confirmed_marker, version_file,
  checksum_file, firmware_file, FilePath, slot_dir, in_slot, current_link, Node, file, link, folder,
  Disk, OsError, checksum_mismatch, Ended, done, failed, Exec, attempt, ignore, ◌>>=◌, pure, raise,
  read_file, read_link, stat, write_file, remove, symlink, rename, same_file, same_path, continue,
  recovered,
}
use edge_fleet_operator_demo.Agent.Slots.{
  switch_to, active, active_version, verify_sha256, verify_slot, self_check,
}
use edge_fleet_operator_demo.Agent.Slots.Frame.{Frame}
use edge_fleet_operator_demo.Agent.Slots.Rules.{Boots}

abbrev pub Files : Type 0
Files = FilePath → Option Node

-- The disk when every call works.
abbrev pub working : Files → Disk
working n = record { node = n; script = [] }

-- It returns, and every call still works.
abbrev pub Ends : {A : Type 0} → (A → Files → Type 0) → Ended A × Disk → Type 0
Ends {A} Q r = (a : A) × (n : Files) × (r ≡ (done a, working n)) × Q a n

module _ {A B : Type 0} (P : A → Files → Type 0) (Q : B → Files → Type 0) where
  pub Ends-bind :
      (m : Exec A) (f : A → Exec B) (d : Disk)
      → Ends P (m d)
      → ((a : A) (n : Files) → P a n → Ends Q (f a (working n)))
      → Ends Q ((m >>= f) d)
  Ends-bind m f d (a, n, e, is) k = subst⁻¹ (λ r. Ends Q (continue r f)) e (k a n is)

  Ends-attempt :
      (m : Exec A) (f : Option A → Exec B) (d : Disk)
      → Ends P (m d)
      → ((a : A) (n : Files) → P a n → Ends Q (f (some a) (working n)))
      → Ends Q ((attempt m >>= f) d)
  Ends-attempt m f d (a, n, e, is) k = subst⁻¹ (λ r. Ends Q (continue (recovered r) f)) e (k a n is)

-- It returns or fails, and has changed nothing.
abbrev pub Answers : {A : Type 0} → Files → Ended A × Disk → Type 0
Answers {A} n r =
    ((a : A) × (r ≡ (done a, working n))) ⊎ ((e : OsError) × (r ≡ (failed e, working n)))

-- A sequence of reads, on a disk that works.
pub record Calm {A : Type 0} (m : Exec A) : Type 0 where
  pub gives : (n : Files) → Answers n (m (working n))

content-Answers : (n : Files) (o : Option Node) → Answers n (content o, working n)
content-Answers n none = inr (_, refl)
content-Answers n (some (file c)) = inl (c, refl)
content-Answers n (some (link t)) = inr (_, refl)
content-Answers n (some folder) = inr (_, refl)

target-Answers : (n : Files) (o : Option Node) → Answers n (target_of o, working n)
target-Answers n none = inr (_, refl)
target-Answers n (some (file c)) = inr (_, refl)
target-Answers n (some (link t)) = inl (t, refl)
target-Answers n (some folder) = inr (_, refl)

pub Calm-read_file : (p : FilePath) → Calm (read_file p)
unfolding read_file
Calm-read_file p = record { gives = λ n. content-Answers n (n p) }

Calm-read_link : (p : FilePath) → Calm (read_link p)
unfolding read_link
Calm-read_link p = record { gives = λ n. target-Answers n (n p) }

Calm-if : {A : Type 0} (b : Bool) (k m : Exec A) → Calm k → Calm m → Calm (if b then k else m)
Calm-if true k m ck cm = ck
Calm-if false k m ck cm = cm

pub Calm-bind :
    {A B : Type 0} (m : Exec A) (f : A → Exec B) → Calm m → ((a : A) → Calm (f a)) → Calm (m >>= f)
Calm-bind m f km kf = record {
  gives = λ n. elim (km.gives n) [
    | inl (a, e) ↦ elim ((kf a).gives n) [
      | inl (b, e2) ↦ inl (b, ap (λ r. continue r f) e ∙ e2)
      | inr (x, e2) ↦ inr (x, ap (λ r. continue r f) e ∙ e2)
    ]
    | inr (x, e) ↦ inr (x, ap (λ r. continue r f) e)
  ];
}

Calm-attempt : {A : Type 0} (m : Exec A) → Calm m → Calm (attempt m)
Calm-attempt m k = record {
  gives = λ n. elim (k.gives n) [
    | inl (a, e) ↦ inl (some a, ap recovered e)
    | inr (x, e) ↦ inl (none, ap recovered e)
  ];
}

pub Calm-pure : {A : Type 0} (a : A) → Calm (pure a)
Calm-pure a = record { gives = λ n. inl (a, refl) }

pub Calm-active : Calm active
unfolding active
Calm-active = Calm-bind _ _ (Calm-read_link current_link) λ t. Calm-pure _

pub Calm-active_version : Calm active_version
unfolding active_version
Calm-active_version = Calm-bind _ _ (Calm-attempt _ Calm-active) (elim [
  | none ↦ Calm-pure ""
  | some s ↦
      Calm-bind _ _ (Calm-attempt _ (Calm-read_file _))
        (elim [ none ↦ Calm-pure "" | some v ↦ Calm-pure _ ])
])

pub Calm-self_check : (hash : String → String) → Calm (self_check hash)
unfolding self_check verify_slot verify_sha256
Calm-self_check hash = Calm-bind _ _ Calm-active λ slot. Calm-bind _ _ (Calm-read_file _) λ want.
    Calm-bind _ _ (Calm-read_file _) λ c.
      Calm-if (str_eq (hash c) (trim_space want)) (pure tt) (raise checksum_mismatch) (Calm-pure tt)
        (record { gives = λ n. inr (checksum_mismatch, refl) })

pub Ends-from :
    {A : Type 0} (Q : A → Files → Type 0) (r : Ended A × Disk) (a : A)
    → r.0 ≡ done a
    → r.1.script ≡ []
    → Q a r.1.node
    → Ends Q r
Ends-from Q (e, d) a h q is =
    (a, d.node, ap (λ e. (e, d)) h ∙ ap (λ s. (done a, record { node = d.node; script = s })) q, is)

-- A test whose error only chooses how to go on.
module _ {A B : Type 0} (Q : B → Files → Type 0) (m : Exec A) (n : Files) (calm : Calm m) where
  pub tried_bind :
      (f : Option A → Exec B)
      → ((o : Option A) → Ends Q (f o (working n)))
      → Ends Q ((attempt m >>= f) (working n))
  tried_bind f k = elim (calm.gives n) [
    | inl (a, e) ↦ subst⁻¹ (λ r. Ends Q (continue (recovered r) f)) e (k (some a))
    | inr (x, e) ↦ subst⁻¹ (λ r. Ends Q (continue (recovered r) f)) e (k none)
  ]

pub ignored :
    (Q : Unit {0} → Files → Type 0) (m : Exec (Unit {0})) (n : Files)
    → Calm m
    → Q tt n
    → Ends Q (ignore m (working n))
ignored Q m n calm is = tried_bind Q m n calm (λ _. pure tt) (λ _. (tt, n, refl, is))

-- A file is there, or it is not.
pub stat_bind :
    {B : Type 0} (Q : B → Files → Type 0) (p : FilePath) (n : Files)
    (f : Option (Unit {0}) → Exec B)
    → ((k : Node) → n p ≡ some k → Ends Q (f (some tt) (working n)))
    → (n p ≡ none → Ends Q (f none (working n)))
    → Ends Q ((attempt (stat p) >>= f) (working n))
unfolding stat
stat_bind Q p n f there gone =
    let after = λ (o : Option Node). Ends Q (continue (recovered (present o, working n)) f) in
    elim (Option-cases (n p)) [
      | inl none_at ↦ subst⁻¹ after none_at (gone none_at)
      | inr (k, at) ↦ subst⁻¹ after at (there k at)
    ]

same_file_self : (f : SlotFile) → same_file f f ≡ true
unfolding same_file
same_file_self firmware_file = refl
same_file_self version_file = refl
same_file_self checksum_file = refl
same_file_self pending_marker = refl
same_file_self confirmed_marker = refl

pub same_in : (s : String) (f : SlotFile) → same_path (in_slot s f) (in_slot s f) ≡ true
unfolding same_path
same_in s f = rw (eq_refl s, same_file_self f) refl

-- The calls that change the disk.
module _ (n : Files) where
  pub removes : (p : FilePath) → Ends (λ _ _. Unit {0}) (ignore (remove p) (working n))
  unfolding remove
  removes p =
      Ends-from (λ _ _. Unit {0}) (ignore (remove p) (working n)) tt (ground arith) (ground arith)
        tt

  pub removes_present :
      (p : FilePath) (k : Node) → n p ≡ some k → Ends (λ _ _. Unit {0}) (remove p (working n))
  unfolding remove
  removes_present p k e =
      Ends-from (λ _ _. Unit {0}) (remove p (working n)) tt (ground arith) (ground arith) tt

  pub writes :
      (s : String) (f : SlotFile) (c : String)
      → n (slot_dir s) ≡ some folder
      → Ends (λ _ n'. n' (in_slot s f) ≡ some (file c)) (write_file (in_slot s f) c (working n))
  unfolding write_file
  writes s f c e =
      Ends-from (λ _ n'. n' (in_slot s f) ≡ some (file c)) (write_file (in_slot s f) c (working n))
        tt (ground arith) (ground arith) (ground (arith, same_in s f))

  pub switches : (s : String) → Ends (λ _ n'. Boots s (working n')) (switch_to s (working n))
  unfolding switch_to remove symlink rename same_path
  switches s =
      Ends-from (λ _ n'. Boots s (working n')) (switch_to s (working n)) tt (ground arith)
        (ground arith) (ground arith)

-- What a sequence leaves alone is as it was.
pub Ends-framed :
    {A : Type 0} (Q : A → Files → Type 0) (S : FilePath → Bool) (m : Exec A) (n : Files)
    → Frame S m
    → Ends Q (m (working n))
    → Ends (λ a n'. Q a n' × ((q : FilePath) → S q ≡ false → n' q ≡ n q)) (m (working n))
Ends-framed Q S m n frame (a, n', e, is) =
    (a, n', e, (is, λ q h. sym (ap (λ r. r.1.node q) e) ∙ frame.at (working n) q h))

pub from_active :
    {B : Type 0} (Q : B → Files → Type 0) (n : Files) (s : String) (f : String → Exec B)
    → Boots s (working n)
    → trim_prefix (base ("slot" <> s)) "slot" ≡ s
    → Ends Q (f s (working n))
    → Ends Q ((active >>= f) (working n))
unfolding active read_link
from_active Q n s f boots named k =
    let reads : active (working n) ≡ (done s, working n) = ground arith in
    subst⁻¹ (λ r. Ends Q (continue r f)) reads k
