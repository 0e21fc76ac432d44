-- ===== src/Agent/Disk.antt =====
-- The file system below the agent's data directory, with the calls of Go's os that
-- internal/agent/slot.go makes. A script of faults says which call fails and at which the power is
-- lost, and what a write that is cut short leaves.
use edge_fleet_operator_demo.Base.{
  String, Bool, true, false, ◌&&◌, Option, none, some, List, [], ◌∷◌, str_eq, if◌then◌else◌,
}

-- The constants of slot.go.
pub data SlotFile : Type 0 where
  firmware_file version_file checksum_file pending_marker confirmed_marker : SlotFile

-- `slot_dir s` is `slot` followed by `s`.
pub data FilePath : Type 0 where
  slot_dir : String → FilePath
  in_slot : String → SlotFile → FilePath
  current_link : FilePath
  current_tmp : FilePath
  staging : String → FilePath

-- The content of a file is a text.
pub data Node : Type 0 where
  file : String → Node
  link : String → Node
  folder : Node

-- A call works; or it fails, or the power is lost in it. In the last two cases a write has left
-- the file as it was, or with some content.
pub data Fault : Type 0 where
  fine : Fault
  breaks : Option String → Fault
  dies : Option String → Fault

-- After the script has ended every call works.
pub record Disk : Type 0 where
  pub node : FilePath → Option Node
  pub script : List Fault

pub data OsError : Type 0 where
  not_exist exists broken checksum_mismatch : OsError

-- How a call ends: with a result, with an error, or never, since the power was lost.
pub data Ended (A : Type 0) : Type 0 where
  done : A → Ended A
  failed : OsError → Ended A
  died : Ended A

abbrev pub Exec : Type 0 → Type 0
Exec A = Disk → Ended A × Disk

abbrev pub continue : {A B : Type 0} → Ended A × Disk → (A → Exec B) → Ended B × Disk
continue (done a, d) f = f a d
continue (failed e, d) f = (failed e, d)
continue (died, d) f = (died, d)

abbrev pub pure : {A : Type 0} → A → Exec A
pure a d = (done a, d)

abbrev pub raise : {A : Type 0} → OsError → Exec A
raise e d = (failed e, d)

infixl 5 ◌>>=◌ ◌>>◌
abbrev pub ◌>>=◌ : {A B : Type 0} → Exec A → (A → Exec B) → Exec B
◌>>=◌ m f d = continue (m d) f

abbrev pub ◌>>◌ : {B : Type 0} → Exec (Unit {0}) → Exec B → Exec B
m >> k = m >>= λ _. k

abbrev pub recovered : {A : Type 0} → Ended A × Disk → Ended (Option A) × Disk
recovered (done a, d) = (done (some a), d)
recovered (failed e, d) = (done none, d)
recovered (died, d) = (died, d)

-- The result of a call whose error is only tested, `none` for an error.
abbrev pub attempt : {A : Type 0} → Exec A → Exec (Option A)
attempt m d = recovered (m d)

-- A call whose error is dropped.
abbrev pub ignore : Exec (Unit {0}) → Exec (Unit {0})
ignore m = attempt m >>= λ _. pure tt

unfoldable pub same_file : SlotFile → SlotFile → Bool
same_file firmware_file firmware_file = true
same_file version_file version_file = true
same_file checksum_file checksum_file = true
same_file pending_marker pending_marker = true
same_file confirmed_marker confirmed_marker = true
same_file _ _ = false

unfoldable pub same_path : FilePath → FilePath → Bool
unfolding same_file
same_path (slot_dir s) (slot_dir t) = str_eq s t
same_path (in_slot s f) (in_slot t g) = str_eq s t && same_file f g
same_path current_link current_link = true
same_path current_tmp current_tmp = true
same_path (staging s) (staging t) = str_eq s t
same_path _ _ = false

abbrev pub put : FilePath → Option Node → Disk → Disk
put p n d = record d { node = λ q. if same_path p q then n else d.node q }

-- The next fault, and the disk with the rest of the script.
abbrev pub next : List Fault → Fault
next [] = fine
next (f ∷ _) = f

abbrev pub rest : List Fault → List Fault
rest [] = []
rest (_ ∷ fs) = fs

abbrev pub spend : Disk → Disk
spend d = record d { script = rest d.script }

-- A call that leaves the files alone, or changes them at once.
abbrev pub under : {A : Type 0} → Fault → (Disk → Ended A × Disk) → Disk → Ended A × Disk
under fine m d = m d
under (breaks _) m d = (failed broken, d)
under (dies _) m d = (died, d)

abbrev pub call : {A : Type 0} → (Disk → Ended A × Disk) → Exec A
call m d = under (next d.script) m (spend d)

-- What a write leaves of a file when it is cut short.
abbrev pub torn : FilePath → Option String → Disk → Disk
torn p none d = d
torn p (some left) d = put p (some (file left)) d

abbrev pub writing : Fault → FilePath → String → Disk → Ended (Unit {0}) × Disk
writing fine p c d = (done tt, put p (some (file c)) d)
writing (breaks left) p c d = (failed broken, torn p left d)
writing (dies left) p c d = (died, torn p left d)

abbrev pub content : Option Node → Ended String
content (some (file c)) = done c
content (some _) = failed broken
content none = failed not_exist

abbrev pub target_of : Option Node → Ended String
target_of (some (link t)) = done t
target_of (some _) = failed broken
target_of none = failed not_exist

abbrev pub present : Option Node → Ended (Unit {0})
present (some _) = done tt
present none = failed not_exist

-- Is there a folder to hold the path?
abbrev pub is_folder : Option Node → Bool
is_folder (some folder) = true
is_folder _ = false

abbrev pub has_parent : FilePath → Disk → Bool
has_parent (in_slot s _) d = is_folder (d.node (slot_dir s))
has_parent _ d = true

-- os.ReadFile
unfoldable pub read_file : FilePath → Exec String
read_file p = call (λ d. (content (d.node p), d))

-- os.Readlink
unfoldable pub read_link : FilePath → Exec String
read_link p = call (λ d. (target_of (d.node p), d))

-- os.Stat, os.Lstat and os.Open, of which only the error is used: no marker is a link.
unfoldable pub stat : FilePath → Exec (Unit {0})
stat p = call (λ d. (present (d.node p), d))

-- os.WriteFile, and os.Create with the empty text.
unfoldable pub write_file : FilePath → String → Exec (Unit {0})
write_file p c d =
    if has_parent p d then writing (next d.script) p c (spend d) else (failed not_exist, spend d)

-- os.Remove
unfoldable pub remove : FilePath → Exec (Unit {0})
remove p =
    call (λ d. elim (d.node p) [ none ↦ (failed not_exist, d) | some _ ↦ (done tt, put p none d) ])

-- os.Symlink
unfoldable pub symlink : String → FilePath → Exec (Unit {0})
symlink t p = call (λ d. elim (d.node p) [
  | none ↦ (done tt, put p (some (link t)) d)
  | some _ ↦ (failed exists, d)
])

-- os.Rename: at once.
unfoldable pub rename : FilePath → FilePath → Exec (Unit {0})
rename p q = call (λ d. elim (d.node p) [
  | none ↦ (failed not_exist, d)
  | some n ↦ (done tt, put p none (put q (some n) d))
])

-- os.MkdirAll of a slot's directory.
unfoldable pub mkdir_all : FilePath → Exec (Unit {0})
mkdir_all p = call (λ d. elim (d.node p) [
  | none ↦ (done tt, put p (some folder) d)
  | some n ↦ (if is_folder (some n) then done tt else failed broken, d)
])
