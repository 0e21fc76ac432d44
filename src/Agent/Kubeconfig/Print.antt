-- ===== src/Agent/Kubeconfig/Print.antt =====
-- A flat kubeconfig as it is written: what loadKubeconfig of internal/agent/kube.go is meant to read.
use Prim.Native.Char.{code}
use text.Mathlib.TextLemmas.{cons-append, nil-append, append_assoc, cons-eq-cons}
use text.Mathlib.TextPositions.{starts_with-append, slice-append_right, len-append}
use edge_fleet_operator_demo.Base.{
  ℕ, ◌≡◌, refl, sym, ap, ◌∙◌, inl, inr, String, ◌<>◌, Bool, Bool-cases, true, false, not, ◌&&◌,
  some, List, [], ◌∷◌, StringMap, ◌==◌,
}
use edge_fleet_operator_demo.Agent.Text.{all_spaces, trim_space}
use edge_fleet_operator_demo.Agent.Text.Trim.{
  EndsInk, trim_left-append, trim_right-append, begins_ink, trim_left_ink,
}
use edge_fleet_operator_demo.Agent.Kubeconfig.{split_lines, cut_prefix}

-- One field, with the spaces before it.
pub record Entry : Type 0 where
  pub indent : String
  pub key : String
  pub value : String

unfoldable pub print_entry : Entry → String
print_entry e = e.indent <> (e.key <> ": ") <> e.value

unfoldable pub print : List Entry → String
unfolding print_entry
print [] = ""
print (e ∷ es) = print_entry e <> ("\n" <> print es)

abbrev pub pairs : List Entry → StringMap
pairs [] = []
pairs (e ∷ es) = (e.key, e.value) ∷ pairs es

unfoldable pub lacks : ℕ → String → Bool
lacks n String.[] = true
lacks n (String.◌∷◌ c s) = not (code c == n) && lacks n s

-- An entry on one line of its own, with a key of one word and a value that is there.
pub record IsPrintable (e : Entry) : Type 0 where
  pub spaces : all_spaces e.indent ≡ true
  pub word : lacks b':' e.key ≡ true
  pub starts_ink : begins_ink e.key ≡ true
  pub ends_ink : EndsInk e.value
  pub one_line : lacks b'\n' (print_entry e) ≡ true
  pub plain_value : trim_space e.value ≡ e.value

split_lines-newline : (s : String) → split_lines ("\n" <> s) ≡ "" ∷ split_lines s
unfolding split_lines
split_lines-newline s = ap split_lines (cons-append _ "" s) ∙ rw (nil-append s) refl

pub split_lines-line :
    (l s : String) → lacks b'\n' l ≡ true → split_lines (l <> ("\n" <> s)) ≡ l ∷ split_lines s
unfolding split_lines lacks
split_lines-line String.[] s h = ap split_lines (nil-append ("\n" <> s)) ∙ split_lines-newline s
split_lines-line (String.◌∷◌ c l) s h = elim (Bool-cases (code c == b'\n')) [
  | inl e ↦ absurd (cc (rw e at h))
  | inr e ↦
      ap split_lines (cons-append c l ("\n" <> s))
      ∙ rw (split_lines, e, split_lines-line l s (rw e at h))
          (ap (λ t. t ∷ split_lines s) (cons-append c "" l ∙ rw (nil-append l) refl))
]

pub trim_space-print_entry :
    (e : Entry) → IsPrintable e → trim_space (print_entry e) ≡ (e.key <> ": ") <> e.value
unfolding trim_space print_entry
trim_space-print_entry e p =
    let shape = append_assoc e.key ": " e.value in
    rw (trim_left-append e.indent ((e.key <> ": ") <> e.value) p.spaces) (
      rw shape (
        rw (trim_left_ink e.key (": " <> e.value) p.starts_ink)
          (rw (← shape) (trim_right-append (e.key <> ": ") e.value p.ends_ink))))

pub cut_prefix-append : (p v : String) → cut_prefix (p <> v) p ≡ some v
unfolding cut_prefix
cut_prefix-append p v =
    rw (starts_with-append p v) (rw (len-append p v) (ap some (slice-append_right p v)))

and_right : (a b : Bool) → (a && b) ≡ true → b ≡ true
and_right true b h = h
and_right false b h = absurd (cc h)

-- Up to the first colon.
pub same_word :
    (k j r s : String)
    → lacks b':' k ≡ true
    → lacks b':' j ≡ true
    → k <> (":" <> r) ≡ j <> (":" <> s)
    → k ≡ j
unfolding lacks
same_word String.[] String.[] r s hk hj e = refl
same_word String.[] (String.◌∷◌ d j) r s hk hj e = absurd (
    let heads =
      (cons-eq-cons).0
        (sym (cons-append _ "" r) ∙ sym (nil-append (":" <> r)) ∙ e ∙ cons-append d j (":" <> s)) in
    cc (rw (← heads.0) at hj))
same_word (String.◌∷◌ c k) String.[] r s hk hj e = absurd (
    let heads =
      (cons-eq-cons).0
        (sym (cons-append c k (":" <> r)) ∙ e ∙ nil-append (":" <> s) ∙ cons-append _ "" s) in
    cc (rw heads.0 at hk))
same_word (String.◌∷◌ c k) (String.◌∷◌ d j) r s hk hj e =
    let both =
      (cons-eq-cons).0 (sym (cons-append c k (":" <> r)) ∙ e ∙ cons-append d j (":" <> s)) in
    (cons-eq-cons).1 (both.0, same_word k j r s (and_right _ _ hk) (and_right _ _ hj) both.1)
