-- ===== src/Reset/Depth.antt =====
-- The recursion of resetExpr and resetNamed ends, recursive types included.
use svcmetrics.Base.{
  ℕ, zero, suc, ◌+◌, ◌-◌, ◌≤◌, ◌≡◌, refl, String, Bool, true, false, ◌&&◌, not, ◌||◌, Option, none,
  some, Bool-cases, inl, inr, arith, if◌then◌else◌, ltb, get_or, is_some, str_eq,
}
use mathlib.Core.Option.{none-ne-some}
use svcmetrics.Base.Dict.{lookup}
use svcmetrics.Reset.{
  Expr, ident, paren_expr, index_expr, index_list_expr, selector_expr, star_expr, slice_type,
  array_type, map_type, struct_type, other_expr, TypeSpec, PkgInfo, Toolchain, Generator,
}
use svcmetrics.Reset.Names.{basic_zero}
use svcmetrics.Reset.Emit.{
  max_reset_depth, unfold_named, known_named, reset_named, reset_step, reset_expr, closed,
}

-- The nodes of a tree that a run may step down.
abbrev pub size : Expr → ℕ
size (ident _) = 1
size (paren_expr x) = suc (size x)
size (index_expr x _) = suc (size x)
size (index_list_expr x _) = suc (size x)
size (selector_expr x _) = suc (size x)
size (star_expr x) = suc (size x)
size (slice_type x) = suc (size x)
size (array_type _ x) = suc (size x)
size (map_type k v) = suc (size k + size v)
size (struct_type _) = 1
size (other_expr _) = 1

-- The calls for `k` unfoldings of definitions of at most `most` nodes.
abbrev pub budget : ℕ → ℕ → ℕ
budget most zero = 0
budget most (suc k) = suc most + budget most k

-- Calls enough for a tree at a depth.
abbrev pub enough_fuel : ℕ → Expr → ℕ → ℕ
enough_fuel most e depth = size e + budget most (suc max_reset_depth - depth)

size_positive : (e : Expr) → 1 ≤ size e
size_positive (ident _) = omega arith
size_positive (paren_expr x) = omega arith
size_positive (index_expr x _) = omega arith
size_positive (index_list_expr x _) = omega arith
size_positive (selector_expr x _) = omega arith
size_positive (star_expr x) = omega arith
size_positive (slice_type x) = omega arith
size_positive (array_type _ x) = omega arith
size_positive (map_type k v) = omega arith
size_positive (struct_type _) = omega arith
size_positive (other_expr _) = omega arith

budget_pred : (most k : ℕ) → budget most (k - 1) ≤ budget most k
budget_pred most zero = omega arith
budget_pred most (suc k) = let e : suc k - 1 ≡ k = omega arith in rw e (omega arith)

budget_drop : (most k : ℕ) → 1 ≤ k → suc most + budget most (k - 1) ≤ budget most k
budget_drop most zero h = absurd (omega arith)
budget_drop most (suc k) h = let e : suc k - 1 ≡ k = omega arith in rw e (omega arith)

deeper : (depth : ℕ) → suc max_reset_depth - (depth + 1) ≡ suc max_reset_depth - depth - 1
deeper depth = omega arith

abbrev pub Returns : Option Generator → Type 0
Returns o = (g : Generator) × (o ≡ some g)

pub if-Returns :
    (b : Bool) (o p : Option Generator) → Returns o → Returns p → Returns (if b then o else p)
if-Returns true o p h k = h
if-Returns false o p h k = k

module _ (tc : Toolchain) (info : PkgInfo) (most : ℕ) where
  closed-Returns : (o : Option Generator) → Returns o → Returns (closed tc info o)
  closed-Returns (some g) h = (_, refl)
  closed-Returns none (g, h) = absurd (none-ne-some g h)

  -- What the next `n` calls are enough for.
  abbrev Handles : (String → Expr → ℕ → Generator → Option Generator) → ℕ → Type 0
  Handles again n =
      (expr : String) (x : Expr) (depth : ℕ) (g : Generator)
      → enough_fuel most x depth ≤ n
      → Returns (again expr x depth g)

  module _ (again : String → Expr → ℕ → Generator → Option Generator) (n : ℕ)
      (handles : Handles again n) where
    opened-Returns :
        (expr : String) (def : Expr) (depth : ℕ) (unknown : Generator) (g : Generator)
        → size def ≤ most
        → suc (budget most (suc max_reset_depth - depth)) ≤ suc n
        → Returns (if ltb max_reset_depth depth then some unknown else again expr def (depth + 1) g)
    opened-Returns expr def depth unknown g small fits =
        elim (Bool-cases (ltb max_reset_depth depth)) [
          | inl deep ↦ rw deep (_, refl)
          | inr shallow ↦
              let left = suc max_reset_depth - depth in
              let some_left : 1 ≤ left = ground arith in
              rw shallow (
                handles expr def (depth + 1) g
                  (rw (deeper depth) (omega (arith, budget_drop most left some_left))))
        ]

    basic-Returns :
        (o : Option String) (f : String → Generator) (p : Option Generator)
        → Returns p
        → Returns (elim o [ some z ↦ some (f z) | none ↦ p ])
    basic-Returns (some z) f p h = (_, refl)
    basic-Returns none f p h = h

    unfold_named-Returns :
        (expr : String) (typ : Expr) (name : String) (depth : ℕ) (def : Expr) (g : Generator)
        → size def ≤ most
        → suc (budget most (suc max_reset_depth - depth)) ≤ suc n
        → Returns (unfold_named tc info again expr typ name depth def g)
    unfold_named-Returns expr typ name depth (struct_type k) g small fits = (_, refl)
    unfold_named-Returns expr typ name depth (ident u) g small fits =
        elim (Bool-cases (ltb max_reset_depth depth)) [
          | inl deep ↦ rw deep (_, refl)
          | inr shallow ↦ rw shallow (
              basic-Returns (basic_zero u) _ _
                (rw shallow at (opened-Returns expr (ident u) depth g g small fits)))
        ]
    unfold_named-Returns expr typ name depth (slice_type x) g small fits =
        opened-Returns expr (slice_type x) depth _ g small fits
    unfold_named-Returns expr typ name depth (array_type l x) g small fits =
        opened-Returns expr (array_type l x) depth _ g small fits
    unfold_named-Returns expr typ name depth (map_type k v) g small fits =
        opened-Returns expr (map_type k v) depth _ g small fits
    unfold_named-Returns expr typ name depth (star_expr x) g small fits =
        opened-Returns expr (star_expr x) depth _ g small fits
    unfold_named-Returns expr typ name depth (paren_expr x) g small fits = (_, refl)
    unfold_named-Returns expr typ name depth (index_expr x i) g small fits = (_, refl)
    unfold_named-Returns expr typ name depth (index_list_expr x i) g small fits = (_, refl)
    unfold_named-Returns expr typ name depth (selector_expr x y) g small fits = (_, refl)
    unfold_named-Returns expr typ name depth (other_expr k) g small fits = (_, refl)

    known_named-Returns :
        (expr : String) (typ : Expr) (name : String) (depth : ℕ) (o : Option TypeSpec)
        (g : Generator)
        → ((ts : TypeSpec) → o ≡ some ts → size ts.definition ≤ most)
        → suc (budget most (suc max_reset_depth - depth)) ≤ suc n
        → Returns (known_named tc info again expr typ name depth o g)
    known_named-Returns expr typ name depth none g small fits = (_, refl)
    known_named-Returns expr typ name depth (some ts) g small fits =
        if-Returns (get_or false (lookup name info.has_reset)) _ _ (_, refl)
          (if-Returns (ts.is_alias || ts.has_params) _ _ (_, refl)
            (unfold_named-Returns expr typ name depth ts.definition g (small ts refl) fits))

    module _
        (small : (name : String) (ts : TypeSpec)
          → lookup name info.types ≡ some ts
          → size ts.definition ≤ most) where
      reset_named-Returns :
          (expr : String) (typ : Expr) (name : String) (depth : ℕ) (g : Generator)
          → suc (budget most (suc max_reset_depth - depth)) ≤ suc n
          → Returns (reset_named tc info again expr typ name depth g)
      unfolding reset_named
      reset_named-Returns expr typ name depth g fits =
          known_named-Returns expr typ name depth (lookup name info.types) g (small name) fits

      reset_step-Returns :
          (expr : String) (typ : Expr) (depth : ℕ) (g : Generator)
          → enough_fuel most typ depth ≤ suc n
          → Returns (reset_step tc info again expr typ depth g)
      reset_step-Returns expr (paren_expr x) depth g fits = handles expr x depth g (omega arith)
      reset_step-Returns expr (ident name) depth g fits =
          if-Returns (is_some (basic_zero name) && not (is_some (lookup name info.types))) _ _
            (_, refl)
            (if-Returns (str_eq name "error" || str_eq name "any") _ _ (_, refl)
              (reset_named-Returns expr (ident name) name depth g (omega arith)))
      reset_step-Returns expr (index_expr x i) depth g fits =
          reset_named-Returns expr (index_expr x i) _ depth g (omega (arith, size_positive x))
      reset_step-Returns expr (index_list_expr x i) depth g fits =
          reset_named-Returns expr (index_list_expr x i) _ depth g (omega (arith, size_positive x))
      reset_step-Returns expr (selector_expr x name) depth g fits = (_, refl)
      reset_step-Returns expr (star_expr x) depth g fits = closed-Returns _ (
          handles _ x (depth + 1) _
            (rw (deeper depth) (omega (arith, budget_pred most (suc max_reset_depth - depth)))))
      reset_step-Returns expr (slice_type x) depth g fits = (_, refl)
      reset_step-Returns expr (array_type l x) depth g fits = (_, refl)
      reset_step-Returns expr (map_type k v) depth g fits = (_, refl)
      reset_step-Returns expr (struct_type k) depth g fits = (_, refl)
      reset_step-Returns expr (other_expr k) depth g fits = (_, refl)

  -- On fuel that is enough for its type at its depth, an expression is reset.
  pub reset_expr-Returns :
      (fuel : ℕ) (expr : String) (typ : Expr) (depth : ℕ) (g : Generator)
      → ((name : String) (ts : TypeSpec)
          → lookup name info.types ≡ some ts
          → size ts.definition ≤ most)
      → enough_fuel most typ depth ≤ fuel
      → Returns (reset_expr tc info fuel expr typ depth g)
  unfolding reset_expr
  reset_expr-Returns zero expr typ depth g small fits = absurd (omega (arith, size_positive typ))
  reset_expr-Returns (suc n) expr typ depth g small fits =
      reset_step-Returns (reset_expr tc info n) n (λ e x d h. reset_expr-Returns n e x d h small)
        small expr typ depth g fits
