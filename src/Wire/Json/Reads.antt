-- ===== src/Wire/Json/Reads.antt =====
-- Reading back the fields that encoding/json wrote.
use edge_fleet_operator_demo.Base.{
  ℕ, ◌<◌, ◌≡◌, refl, ap, inl, inr, eq_iff, Bool-cases, String, Bool, true, false, Option, some,
  List, All, StringMap, [], ◌∷◌, str_eq, ◌==◌, arith,
}
use edge_fleet_operator_demo.Base.Words.{i64_half}
use edge_fleet_operator_demo.Wire.Json.{
  Json, bool, num, str, arr, obj, Items, no_items, item, Fields, no_fields, field, opt_str, opt_num,
  opt_bool, opt_items, opt_fields, write_items, write_map, read_num, read_items, read_fields,
  read_entries,
}

module _ {A : Type 0} (set : String → Json → A → Option A) (key : String) (a b : A) where
  -- A field that was written sets the struct; one that was left out finds the zero value there.
  pub read-opt_str :
      (s : String) (rest : Fields)
      → set key (str s) a ≡ some b
      → (s ≡ "" → a ≡ b)
      → read_fields set (opt_str key s rest) a ≡ read_fields set rest b
  unfolding read_fields opt_str
  read-opt_str s rest sets empty = elim (Bool-cases (str_eq s "")) [
    | inl e ↦ rw (opt_str, e) (ap (read_fields set rest) (empty ((eq_iff s "").0 e)))
    | inr n ↦ rw (opt_str, n, sets) refl
  ]

  pub read-opt_num :
      (n : ℕ) (rest : Fields)
      → set key (num n) a ≡ some b
      → (n ≡ 0 → a ≡ b)
      → read_fields set (opt_num key n rest) a ≡ read_fields set rest b
  unfolding read_fields opt_num
  read-opt_num n rest sets empty = elim (Bool-cases (n == 0)) [
    | inl e ↦ rw (opt_num, e) (ap (read_fields set rest) (empty (ground arith)))
    | inr m ↦ rw (opt_num, m, sets) refl
  ]

  pub read-opt_bool :
      (v : Bool) (rest : Fields)
      → set key (bool v) a ≡ some b
      → (v ≡ false → a ≡ b)
      → read_fields set (opt_bool key v rest) a ≡ read_fields set rest b
  unfolding read_fields opt_bool
  read-opt_bool true rest sets empty = rw sets refl
  read-opt_bool false rest sets empty = ap (read_fields set rest) (empty refl)

  pub read-opt_items :
      (vs : Items) (rest : Fields)
      → set key (arr vs) a ≡ some b
      → (vs ≡ no_items → a ≡ b)
      → read_fields set (opt_items key vs rest) a ≡ read_fields set rest b
  unfolding read_fields opt_items
  read-opt_items no_items rest sets empty = ap (read_fields set rest) (empty refl)
  read-opt_items (item v vs) rest sets empty = rw sets refl

  pub read-opt_fields :
      (fs : Fields) (rest : Fields)
      → set key (obj fs) a ≡ some b
      → (fs ≡ no_fields → a ≡ b)
      → read_fields set (opt_fields key fs rest) a ≡ read_fields set rest b
  unfolding read_fields opt_fields
  read-opt_fields no_fields rest sets empty = ap (read_fields set rest) (empty refl)
  read-opt_fields (field k v fs) rest sets empty = rw sets refl

pub read_num-num : (n old : ℕ) → n < i64_half → read_num (num n) old ≡ some n
unfolding read_num
read_num-num n old small = ground arith

-- A list of values that are each read back.
pub read_items-write :
    {A : Type 0} (read : Json → Option A) (write : A → Json) (P : A → Type 0) (xs : List A)
    → ((x : A) → P x → read (write x) ≡ some x)
    → All P xs
    → read_items read (write_items write xs) ≡ some xs
unfolding read_items write_items
read_items-write read write P [] back all = refl
read_items-write read write P (x ∷ xs) back all =
    rw (back x all.0, read_items-write read write P xs back all.1) refl

pub write_items-nil :
    {A : Type 0} (write : A → Json) (xs : List A) → write_items write xs ≡ no_items → xs ≡ []
unfolding write_items
write_items-nil write [] e = refl
write_items-nil write (x ∷ xs) e = absurd (cc e)

pub read_entries-write : (m : StringMap) → read_entries (write_map m) ≡ some m
unfolding read_entries write_map
read_entries-write [] = refl
read_entries-write ((k, v) ∷ m) = rw (read_entries-write m) refl

pub write_map-nil : (m : StringMap) → write_map m ≡ no_fields → m ≡ []
unfolding write_map
write_map-nil [] e = refl
write_map-nil (p ∷ m) e = absurd (cc e)
