-- ===== src/Base/Before.antt =====
-- The byte order of texts, in which Go's `<` compares two strings.
use Prim.Native.Nat.{Ordering, compare as compare_ℕ}
use Prim.Native.Char.{Char, code}
use Prim.Native.String.compare
use Prim.Native.String.{String, [], ◌∷◌, then, compare}
use native.Mathlib.Omega.{compare-lt, compare-eq, compare-gt}
use text.Mathlib.TextEquality.{Char-path}
use text.Mathlib.Text.{is_lt}
use mathlib.Core.Path.{ap₂, subst, subst⁻¹}
use edge_fleet_operator_demo.Base.{◌<◌, ◌≡◌, ◌↔◌, refl, sym, ◌∙◌, ◌⊎◌, inl, inr, true, arith}

-- The code points are compared one by one, and a text stands behind its beginnings.
abbrev pub Before : String → String → Type 0
Before s [] = ⊥
Before [] (d ∷ t) = Unit {0}
Before (c ∷ s) (d ∷ t) = (code c < code d) ⊎ ((code c ≡ code d) × Before s t)

Before-irrefl : (s : String) → ¬ Before s s
Before-irrefl [] b = b
Before-irrefl (c ∷ s) (inl l) = omega (arith, l)
Before-irrefl (c ∷ s) (inr (e, b)) = Before-irrefl s b

pub Before-trans : (r s t : String) → Before r s → Before s t → Before r t
Before-trans r s [] b c = c
Before-trans r [] (e ∷ t) b c = absurd b
Before-trans [] (d ∷ s) (e ∷ t) b c = tt
Before-trans (x ∷ r) (d ∷ s) (e ∷ t) (inl l) (inl m) = inl (omega (arith, l, m))
Before-trans (x ∷ r) (d ∷ s) (e ∷ t) (inl l) (inr (q, c)) = inl (omega (arith, l, q))
Before-trans (x ∷ r) (d ∷ s) (e ∷ t) (inr (p, b)) (inl m) = inl (omega (arith, p, m))
Before-trans (x ∷ r) (d ∷ s) (e ∷ t) (inr (p, b)) (inr (q, c)) = inr (p ∙ q, Before-trans r s t b c)

pub Before-asymm : (s t : String) → Before s t → ¬ Before t s
Before-asymm s t b c = Before-irrefl s (Before-trans s t s b c)

-- What `compare` says of two texts.
abbrev Tells : String → String → Ordering → Type 0
Tells s t Ordering.lt = Before s t
Tells s t Ordering.eq = s ≡ t
Tells s t Ordering.gt = Before t s

Tells-then :
    (c d : Char) (s t : String) (o r : Ordering)
    → compare_ℕ (code c) (code d) ≡ o
    → Tells s t r
    → Tells (c ∷ s) (d ∷ t) (then o r)
Tells-then c d s t Ordering.lt r e h = inl (compare-lt (code c) (code d) e)
Tells-then c d s t Ordering.gt r e h = inl (compare-gt (code c) (code d) e)
Tells-then c d s t Ordering.eq Ordering.lt e h = inr (compare-eq (code c) (code d) e, h)
Tells-then c d s t Ordering.eq Ordering.gt e h = inr (sym (compare-eq (code c) (code d) e), h)
Tells-then c d s t Ordering.eq Ordering.eq e h =
    ap₂ (λ (x : Char) (y : String). x ∷ y) (Char-path c d (compare-eq (code c) (code d) e)) h

tells : (s t : String) → Tells s t (compare s t)
tells [] [] = subst⁻¹ (Tells [] []) compare.nil-nil refl
tells [] (d ∷ t) = subst⁻¹ (Tells [] (d ∷ t)) (compare.nil-cons d t) tt
tells (c ∷ s) [] = subst⁻¹ (Tells (c ∷ s) []) (compare.cons-nil c s) tt
tells (c ∷ s) (d ∷ t) =
    subst⁻¹ (Tells (c ∷ s) (d ∷ t)) (compare.cons-cons c d s t)
      (Tells-then c d s t (compare_ℕ (code c) (code d)) (compare s t) refl (tells s t))

by_order : (s t : String) (o : Ordering) → Tells s t o → Before s t ⊎ ((s ≡ t) ⊎ Before t s)
by_order s t Ordering.lt h = inl h
by_order s t Ordering.eq h = inr (inl h)
by_order s t Ordering.gt h = inr (inr h)

-- Of two texts that differ, one is before the other.
pub Before-total : (s t : String) → Before s t ⊎ ((s ≡ t) ⊎ Before t s)
Before-total s t = by_order s t (compare s t) (tells s t)

by_lt : (s t : String) (o : Ordering) → Tells s t o → (is_lt o ≡ true) ↔ Before s t
by_lt s t Ordering.lt h = (λ _. h, λ _. refl)
by_lt s t Ordering.eq h =
    (λ e. absurd (cc e), λ b. absurd (Before-irrefl t (subst (λ r. Before r t) h b)))
by_lt s t Ordering.gt h = (λ e. absurd (cc e), λ b. absurd (Before-asymm s t b h))

pub is_lt_iff : (s t : String) → (is_lt (compare s t) ≡ true) ↔ Before s t
is_lt_iff s t = by_lt s t (compare s t) (tells s t)
