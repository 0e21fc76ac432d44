-- ===== src/Wire/Json.antt =====
-- JSON values, and how encoding/json writes and reads the fields of a struct by their tags.
pub mod Reads
use edge_fleet_operator_demo.Base.{
  ℕ, String, Bool, true, false, Option, none, some, List, StringMap, [], ◌∷◌, str_eq, ltb, ◌==◌,
  if◌then◌else◌,
}
use edge_fleet_operator_demo.Base.Words.{i64_half}

-- The numbers of a device are not negative.
mutual
  pub data Json : Type 0 where
    null : Json
    bool : Bool → Json
    num : ℕ → Json
    str : String → Json
    arr : Items → Json
    obj : Fields → Json

  pub data Items : Type 0 where
    no_items : Items
    item : Json → Items → Items

  pub data Fields : Type 0 where
    no_fields : Fields
    field : String → Json → Fields → Fields

-- A field marked omitempty, before the fields that follow it.
unfoldable pub opt_str : String → String → Fields → Fields
opt_str key s rest = if str_eq s "" then rest else field key (str s) rest

pub opt_num : String → ℕ → Fields → Fields
opt_num key n rest = if n == 0 then rest else field key (num n) rest

pub opt_bool : String → Bool → Fields → Fields
opt_bool key true rest = field key (bool true) rest
opt_bool key false rest = rest

pub opt_items : String → Items → Fields → Fields
opt_items key no_items rest = rest
opt_items key (item v vs) rest = field key (arr (item v vs)) rest

pub opt_fields : String → Fields → Fields → Fields
opt_fields key no_fields rest = rest
opt_fields key (field k v fs) rest = field key (obj (field k v fs)) rest

unfoldable pub write_items : {A : Type 0} → (A → Json) → List A → Items
write_items write [] = no_items
write_items write (x ∷ xs) = item (write x) (write_items write xs)

-- The entries of a map, in the order of the list that stands for it.
pub write_map : StringMap → Fields
write_map [] = no_fields
write_map ((k, v) ∷ m) = field k (str v) (write_map m)

-- A value read over what is there already: null leaves it, and another type is an error.
unfoldable pub read_str : Json → String → Option String
read_str (str s) old = some s
read_str null old = some old
read_str _ old = none

-- An int64.
unfoldable pub read_num : Json → ℕ → Option ℕ
read_num (num n) old = if ltb n i64_half then some n else none
read_num null old = some old
read_num _ old = none

unfoldable pub read_bool : Json → Bool → Option Bool
read_bool (bool b) old = some b
read_bool null old = some old
read_bool _ old = none

module _ {A B : Type 0} where
  abbrev pub then_set : Option A → (A → B) → Option B
  then_set none f = none
  then_set (some a) f = some (f a)

  abbrev pub and_then : Option A → (A → Option B) → Option B
  and_then none f = none
  and_then (some a) f = f a

pub read_items : {A : Type 0} → (Json → Option A) → Items → Option (List A)
read_items read no_items = some []
read_items read (item v vs) = and_then (read v) λ x. then_set (read_items read vs) λ xs. x ∷ xs

unfoldable pub read_array : {A : Type 0} → (Json → Option A) → Json → Option (List A)
unfolding read_items
read_array read (arr vs) = read_items read vs
read_array read null = some []
read_array read _ = none

-- The fields of an object, one after another; a server writes no key twice.
unfoldable pub read_fields : {A : Type 0} → (String → Json → A → Option A) → Fields → A → Option A
read_fields set no_fields a = some a
read_fields set (field k v rest) a = and_then (set k v a) (read_fields set rest)

-- A struct, by what each key sets; other keys are skipped by what is given.
unfoldable pub read_struct : {A : Type 0} → (String → Json → A → Option A) → Json → A → Option A
unfolding read_fields
read_struct set (obj fs) old = read_fields set fs old
read_struct set null old = some old
read_struct set _ old = none

pub read_entries : Fields → Option StringMap
unfolding read_str
read_entries no_fields = some []
read_entries (field k v rest) =
    and_then (read_str v "") λ s. then_set (read_entries rest) λ m. (k, s) ∷ m

-- A map of texts.
unfoldable pub read_map : Json → StringMap → Option StringMap
unfolding read_entries
read_map (obj fs) old = read_entries fs
read_map null old = some []
read_map _ old = none
