-- ===== src/Agent/Text/Trim.antt =====
-- What strings.TrimSpace does to a text that was put together.
use Prim.Native.Char.{code}
use text.Mathlib.TextLemmas.{cons-append, nil-append}
use edge_fleet_operator_demo.Base.{
  ◌≡◌, ◌≢◌, refl, sym, ap, ◌∙◌, inl, inr, String, ◌<>◌, Bool, Bool-cases, true, false, not, ◌&&◌,
}
use edge_fleet_operator_demo.Agent.Text.{is_space, all_spaces, trim_right, trim_left}

-- A text of spaces before another is taken away.
pub trim_left-append : (w s : String) → all_spaces w ≡ true → trim_left (w <> s) ≡ trim_left s
unfolding trim_left all_spaces
trim_left-append String.[] s h = ap trim_left (nil-append s)
trim_left-append (String.◌∷◌ c w) s h = elim (Bool-cases (is_space (code c))) [
  | inl e ↦ ap trim_left (cons-append c w s) ∙ rw (trim_left, e) (trim_left-append w s (rw e at h))
  | inr e ↦ absurd (cc (rw e at h))
]

-- A text that does not end in a space: it is not empty, and trimming leaves it.
abbrev pub EndsInk : String → Type 0
EndsInk v = (v ≢ "") × (trim_right v ≡ v)

EndsInk-all_spaces : (v : String) → EndsInk v → all_spaces v ≡ false
unfolding trim_right all_spaces
EndsInk-all_spaces String.[] (h, e) = absurd (h refl)
EndsInk-all_spaces (String.◌∷◌ c s) (h, e) = elim (Bool-cases (is_space (code c) && all_spaces s)) [
  | inl b ↦ absurd (h (sym e ∙ (rw (trim_right, b) refl)))
  | inr b ↦ b
]

all_spaces-append : (w v : String) → all_spaces v ≡ false → all_spaces (w <> v) ≡ false
unfolding all_spaces
all_spaces-append String.[] v h = ap all_spaces (nil-append v) ∙ h
all_spaces-append (String.◌∷◌ c w) v h =
    ap all_spaces (cons-append c w v) ∙ elim (Bool-cases (is_space (code c))) [
      | inl e ↦ rw (all_spaces, e) (all_spaces-append w v h)
      | inr e ↦ rw (all_spaces, e) refl
    ]

-- The end of a text decides what is trimmed there.
pub trim_right-append : (w v : String) → EndsInk v → trim_right (w <> v) ≡ w <> v
unfolding trim_right
trim_right-append String.[] v (h, e) = ap trim_right (nil-append v) ∙ e ∙ sym (nil-append v)
trim_right-append (String.◌∷◌ c w) v ink =
    let inside = trim_right-append w v ink in
    let not_all = all_spaces-append w v (EndsInk-all_spaces v ink) in
    ap trim_right (cons-append c w v) ∙ elim (Bool-cases (is_space (code c))) [
      | inl e ↦ rw (trim_right, e, not_all, inside) (sym (cons-append c w v))
      | inr e ↦ rw (trim_right, e, inside) (sym (cons-append c w v))
    ]

-- A text that begins with no space.
unfoldable pub begins_ink : String → Bool
begins_ink String.[] = false
begins_ink (String.◌∷◌ c s) = not (is_space (code c))

pub trim_left_ink : (k s : String) → begins_ink k ≡ true → trim_left (k <> s) ≡ k <> s
unfolding trim_left begins_ink
trim_left_ink String.[] s h = absurd (cc h)
trim_left_ink (String.◌∷◌ c k) s h = elim (Bool-cases (is_space (code c))) [
  | inl e ↦ absurd (cc (rw e at h))
  | inr e ↦ ap trim_left (cons-append c k s) ∙ rw (trim_left, e) (sym (cons-append c k s))
]
