-- ===== src/Base/Text.antt =====
-- Go's order on strings, by code points: on UTF-8 that is the order of the bytes.
use Prim.Native.Nat.{ℕ, Ordering, compare as compare_ℕ}
use Prim.Native.Char.{code}
use Prim.Native.String.{String, compare, then}
use Prim.Native.String.compare as clauses
use mathlib.Core.Path.{◌≡◌, refl, sym, ◌∙◌}
use mathlib.Core.Logic.{◌⊎◌, inl, inr}
use native.Mathlib.Omega.{arith}
use text.Mathlib.TextEquality.{path_by_compare}

abbrev pub flip : Ordering → Ordering
flip Ordering.lt = Ordering.gt
flip Ordering.eq = Ordering.eq
flip Ordering.gt = Ordering.lt

-- cmp.Or of two comparisons
abbrev pub cmp_or : Ordering → Ordering → Ordering
cmp_or a b = then a b

compare_ℕ_flip : (m n : ℕ) → compare_ℕ n m ≡ flip (compare_ℕ m n)
compare_ℕ_flip m n = ground arith

pub flip-cmp_or : (a b : Ordering) → flip (cmp_or a b) ≡ cmp_or (flip a) (flip b)
flip-cmp_or a b = ground arith

pub compare-flip : (s t : String) → compare t s ≡ flip (compare s t)
compare-flip String.[] String.[] = refl
compare-flip String.[] (String.◌∷◌ d t) = cc (clauses.nil-cons d t, clauses.cons-nil d t)
compare-flip (String.◌∷◌ c s) String.[] = cc (clauses.nil-cons c s, clauses.cons-nil c s)
compare-flip (String.◌∷◌ c s) (String.◌∷◌ d t) = cc (
  clauses.cons-cons c d s t,
  clauses.cons-cons d c t s,
  flip-cmp_or (compare_ℕ (code c) (code d)) (compare s t),
  compare_ℕ_flip (code c) (code d),
  compare-flip s t,
)

pub eq_of_compare : (s t : String) → compare s t ≡ Ordering.eq → s ≡ t
eq_of_compare = path_by_compare

pub Ordering-cases : (o : Ordering) → (o ≡ Ordering.lt) ⊎ ((o ≡ Ordering.eq) ⊎ (o ≡ Ordering.gt))
Ordering-cases Ordering.lt = inl refl
Ordering-cases Ordering.eq = inr (inl refl)
Ordering-cases Ordering.gt = inr (inr refl)

compare_ℕ_trans :
    (a b c : ℕ)
    → compare_ℕ a b ≡ Ordering.lt
    → compare_ℕ b c ≡ Ordering.lt
    → compare_ℕ a c ≡ Ordering.lt
compare_ℕ_trans a b c h k = ground (arith, h, k)

then_trans :
    (a b c : ℕ) (o p q : Ordering)
    → then (compare_ℕ a b) o ≡ Ordering.lt
    → then (compare_ℕ b c) p ≡ Ordering.lt
    → (o ≡ Ordering.lt → p ≡ Ordering.lt → q ≡ Ordering.lt)
    → then (compare_ℕ a c) q ≡ Ordering.lt
then_trans a b c o p q h k l = ground (arith, h, k, l)

-- Nothing is before the empty string.
not_before_nil : {A : Type 0} (s : String) → compare s "" ≡ Ordering.lt → A
not_before_nil String.[] h = absurd (cc)
not_before_nil (String.◌∷◌ c s) h = let g = clauses.cons-nil c s in absurd (cc)

pub compare_trans :
    (s t u : String)
    → compare s t ≡ Ordering.lt
    → compare t u ≡ Ordering.lt
    → compare s u ≡ Ordering.lt
compare_trans s String.[] u h k = not_before_nil s h
compare_trans String.[] t String.[] h k = not_before_nil t k
compare_trans String.[] t (String.◌∷◌ e u) h k = clauses.nil-cons e u
compare_trans s t String.[] h k = not_before_nil t k
compare_trans (String.◌∷◌ c s) (String.◌∷◌ d t) (String.◌∷◌ e u) h k =
    clauses.cons-cons c e s u
    ∙ then_trans (code c) (code d) (code e) _ _ _ (sym (clauses.cons-cons c d s t) ∙ h)
        (sym (clauses.cons-cons d e t u) ∙ k) (compare_trans s t u)
