-- ===== src/Agent/Kubeconfig/RoundTrip.antt =====
-- loadKubeconfig of internal/agent/kube.go reads back the fields of a flat file.
use text.Mathlib.Text.{starts_with}
use text.Mathlib.TextEquality.{starts_with_iff}
use text.Mathlib.TextLemmas.{append_assoc, append-eq-nil_iff}
use edge_fleet_operator_demo.Base.{
  ◌≡◌, refl, sym, ap, ◌∙◌, inl, inr, String, ◌<>◌, Bool-cases, true, false, Option, none, some,
  List, [], ◌∷◌, All, lookup, str_eq, eq_iff, if◌then◌else◌,
}
use edge_fleet_operator_demo.Agent.Text.{trim_space}
use edge_fleet_operator_demo.Agent.Kubeconfig.{keys, split_lines, cut_prefix, fields_of}
use edge_fleet_operator_demo.Agent.Kubeconfig.Fields.{
  or_else, trimmed, value_in, first_value, is_among, lookup-fields_of,
}
use edge_fleet_operator_demo.Agent.Kubeconfig.Print.{
  Entry, print_entry, print, pairs, lacks, IsPrintable, split_lines-line, trim_space-print_entry,
  cut_prefix-append, same_word,
}

at_colon : (k s : String) → (k <> ": ") <> s ≡ k <> (":" <> (" " <> s))
at_colon k s = append_assoc k ": " s ∙ ap (λ t. k <> t) (append_assoc ":" " " s)

cut_prefix-other :
    (k j v : String)
    → lacks b':' k ≡ true
    → lacks b':' j ≡ true
    → str_eq k j ≡ false
    → cut_prefix ((k <> ": ") <> v) (j <> ": ") ≡ none
unfolding cut_prefix
cut_prefix-other k j v hk hj ne = elim (Bool-cases (starts_with ((k <> ": ") <> v) (j <> ": "))) [
  | inl e ↦
      let (u, is) = (starts_with_iff ((k <> ": ") <> v) (j <> ": ")).0 e in
      let same : j ≡ k =
        same_word j k (" " <> u) (" " <> v) hj hk (sym (at_colon j u) ∙ is ∙ at_colon k v) in
      absurd (cc (ne, (eq_iff k j).1 (sym same)))
  | inr e ↦ rw (cut_prefix, e) refl
]

value_in-print_entry :
    (key : String) (e : Entry)
    → lacks b':' key ≡ true
    → IsPrintable e
    → value_in key (print_entry e) ≡ (if str_eq e.key key then some e.value else none)
value_in-print_entry key e hk p =
    let line = trim_space-print_entry e p in
    let found : String → Option String = λ l. trimmed (cut_prefix l (key <> ": ")) in
    ap found line ∙ elim (Bool-cases (str_eq e.key key)) [
      | inl is ↦
          let same : e.key ≡ key = (eq_iff e.key key).0 is in
          rw is (
            ap (λ k. trimmed (cut_prefix ((e.key <> ": ") <> e.value) (k <> ": "))) (sym same)
            ∙ ap trimmed (cut_prefix-append (e.key <> ": ") e.value)
            ∙ ap some p.plain_value)
      | inr not ↦ rw not (ap trimmed (cut_prefix-other e.key key e.value p.word hk not))
    ]

value_in-empty : (key : String) → value_in key "" ≡ none
unfolding trim_space cut_prefix
value_in-empty key = elim (Bool-cases (starts_with "" (key <> ": "))) [
  | inl e ↦
      let (u, is) = (starts_with_iff "" (key <> ": ")).0 e in
      let parts = append-eq-nil_iff.0 (append-eq-nil_iff.0 is).0 in absurd (cc (parts.1))
  | inr e ↦ rw (cut_prefix, e) refl
]

first_value-print :
    (key : String) (es : List Entry)
    → lacks b':' key ≡ true
    → All IsPrintable es
    → first_value key (split_lines (print es)) ≡ lookup key (pairs es)
unfolding first_value lookup print split_lines
first_value-print key [] hk ps = ap (λ o. or_else o none) (value_in-empty key)
first_value-print key (e ∷ es) hk ps =
    let lines = split_lines-line (print_entry e) (print es) ps.0.one_line in
    let rest = first_value-print key es hk ps.1 in
    let here = value_in-print_entry key e hk ps.0 in
    ap (first_value key) lines ∙ elim (Bool-cases (str_eq e.key key)) [
      | inl is ↦ rw (here, is) refl
      | inr not ↦ rw (here, not) rest
    ]

no_colon :
    (key : String) (ks : List String)
    → All (λ k. lacks b':' k ≡ true) ks
    → is_among key ks ≡ true
    → lacks b':' key ≡ true
unfolding is_among
no_colon key [] all h = absurd (cc h)
no_colon key (k ∷ ks) all h = elim (Bool-cases (str_eq k key)) [
  | inl e ↦ ap (lacks b':') (sym ((eq_iff k key).0 e)) ∙ all.0
  | inr e ↦ no_colon key ks all.1 (rw e at h)
]

keys_plain : All (λ k. lacks b':' k ≡ true) keys
unfolding lacks
keys_plain = (refl, (refl, (refl, (refl, tt))))

-- A flat file of printable entries is read back: for each of the four keys, loadKubeconfig has the
-- value of its first entry, or none. An entry is printable if it has spaces before it, a key
-- without a colon that does not begin with a space, and a value that is not empty, with no space at
-- either end, all on one line.
pub fields_of-print :
    (es : List Entry) (key : String)
    → All IsPrintable es
    → is_among key keys ≡ true
    → lookup key (fields_of (print es)) ≡ lookup key (pairs es)
fields_of-print es key ps known =
    lookup-fields_of (print es) key
    ∙ rw known (first_value-print key es (no_colon key keys keys_plain known) ps)
