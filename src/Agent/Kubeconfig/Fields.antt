-- ===== src/Agent/Kubeconfig/Fields.antt =====
-- The scan of loadKubeconfig in internal/agent/kube.go.
use mathlib.Core.Path.{subst}
use edge_fleet_operator_demo.Base.{
  ◌≡◌, refl, sym, ◌∙◌, inl, inr, String, ◌<>◌, Bool, false, Bool-cases, ◌||◌, Option, Option-cases,
  none, some, List, [], ◌∷◌, StringMap, lookup, str_eq, eq_iff, eq_refl, if◌then◌else◌,
}
use edge_fleet_operator_demo.Agent.Text.{trim_space}
use edge_fleet_operator_demo.Agent.Kubeconfig.{
  keys, split_lines, cut_prefix, keep_first, scan_line, scan, fields_of,
}

abbrev pub or_else : {A : Type 0} → Option A → Option A → Option A
or_else none b = b
or_else (some a) b = some a

abbrev pub trimmed : Option String → Option String
trimmed none = none
trimmed (some v) = some (trim_space v)

-- The value that a line has for a key.
abbrev pub value_in : String → String → Option String
value_in key line = trimmed (cut_prefix (trim_space line) (key <> ": "))

-- The value in the first line that has one.
unfoldable pub first_value : String → List String → Option String
first_value key [] = none
first_value key (line ∷ lines) = or_else (value_in key line) (first_value key lines)

unfoldable pub is_among : String → List String → Bool
is_among key [] = false
is_among key (k ∷ ks) = str_eq k key || is_among key ks

or_else_assoc : {A : Type 0} (a b c : Option A) → or_else (or_else a b) c ≡ or_else a (or_else b c)
or_else_assoc none b c = refl
or_else_assoc (some a) b c = refl

or_else_same : {A : Type 0} (a b : Option A) → or_else (or_else a b) b ≡ or_else a b
or_else_same none none = refl
or_else_same none (some b) = refl
or_else_same (some a) b = refl

keep_first_same :
    (key v : String) (fields : StringMap)
    → lookup key (keep_first key (some v) fields)
      ≡ or_else (lookup key fields) (some (trim_space v))
unfolding keep_first lookup
keep_first_same key v fields = elim (Option-cases (lookup key fields)) [
  | inl g ↦ rw (keep_first, g, lookup, eq_refl key) refl
  | inr (x, g) ↦ rw (keep_first, g, g) refl
]

keep_first_other :
    (key j v : String) (fields : StringMap)
    → str_eq j key ≡ false
    → lookup key (keep_first j (some v) fields) ≡ lookup key fields
unfolding keep_first lookup
keep_first_other key j v fields e = elim (Option-cases (lookup j fields)) [
  | inl g ↦ rw (keep_first, g, lookup, e) refl
  | inr (x, g) ↦ rw (keep_first, g) refl
]

none_after : {A : Type 0} (a : Option A) → or_else a none ≡ a
none_after none = refl
none_after (some a) = refl

lookup-keep_first :
    (key j : String) (v : Option String) (fields : StringMap)
    → lookup key (keep_first j v fields)
      ≡ (if str_eq j key then or_else (lookup key fields) (trimmed v) else lookup key fields)
unfolding keep_first
lookup-keep_first key j none fields = elim (Bool-cases (str_eq j key)) [
  | inl e ↦ rw e (sym (none_after (lookup key fields)))
  | inr e ↦ rw e refl
]
lookup-keep_first key j (some v) fields = elim (Bool-cases (str_eq j key)) [
  | inl e ↦ rw e (
      subst
        (λ j.
          lookup key (keep_first j (some v) fields)
          ≡ or_else (lookup key fields) (some (trim_space v)))
        (sym ((eq_iff j key).0 e)) (keep_first_same key v fields))
  | inr e ↦ rw e (keep_first_other key j v fields e)
]

-- One line: the keys that it can set are those of the list.
lookup-scan_line :
    (key line : String) (ks : List String) (fields : StringMap)
    → lookup key (scan_line line ks fields) ≡ (
        if is_among key ks
        then or_else (lookup key fields) (trimmed (cut_prefix line (key <> ": ")))
        else lookup key fields)
unfolding scan_line is_among
lookup-scan_line key line [] fields = refl
lookup-scan_line key line (j ∷ ks) fields =
    let found = cut_prefix line (j <> ": ") in
    let first = lookup-keep_first key j found fields in
    let rest = lookup-scan_line key line ks (keep_first j found fields) in
    elim (Bool-cases (str_eq j key)) [
      | inl e ↦
          let same : j ≡ key = (eq_iff j key).0 e in
          let here : lookup key (keep_first j found fields)
              ≡ or_else (lookup key fields) (trimmed (cut_prefix line (key <> ": "))) =
            first ∙ rw (e, same) refl in
          elim (Bool-cases (is_among key ks)) [
            | inl m ↦ rest ∙ rw (m, here, e) (or_else_same (lookup key fields) _)
            | inr m ↦ rest ∙ rw (m, here, e) refl
          ]
      | inr e ↦
          let here : lookup key (keep_first j found fields) ≡ lookup key fields =
            first ∙ rw e refl in
          rest ∙ rw (here, e) refl
    ]

lookup-scan :
    (key : String) (lines : List String) (fields : StringMap)
    → lookup key (scan lines fields) ≡ (
        if is_among key keys
        then or_else (lookup key fields) (first_value key lines)
        else lookup key fields)
unfolding scan first_value
lookup-scan key [] fields = elim (Bool-cases (is_among key keys)) [
  | inl m ↦ rw m (sym (none_after (lookup key fields)))
  | inr m ↦ rw m refl
]
lookup-scan key (line ∷ lines) fields =
    let set = lookup-scan_line key (trim_space line) keys fields in
    let rest = lookup-scan key lines (scan_line (trim_space line) keys fields) in
    elim (Bool-cases (is_among key keys)) [
      | inl m ↦ rest ∙ rw (m, set, m) (or_else_assoc (lookup key fields) (value_in key line) _)
      | inr m ↦ rest ∙ rw (m, set, m) refl
    ]

-- The two loops with their map of what was seen find what a search finds: a key that is looked for
-- has the trimmed value of the first line that begins, after spaces, with the key and a colon, or
-- none; and no other key is set.
pub lookup-fields_of :
    (raw key : String)
    → lookup key (fields_of raw)
      ≡ (if is_among key keys then first_value key (split_lines raw) else none)
unfolding fields_of lookup
lookup-fields_of raw key = lookup-scan key (split_lines raw) []
