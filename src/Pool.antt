-- ===== src/Pool.antt =====
-- internal/pool/pool.go: a pool of objects that Put resets. Like sync.Pool it may hand out any object
-- that it holds and may drop any at any time, so Get takes the position that it picks.
use mathlib.Core.Path.{subst}
use mathlib.Core.Option.{some-injective}
use svcmetrics.Base.{
  ℕ, zero, suc, ◌≡◌, inl, inr, none, some, List, [], ◌∷◌, get_elem?, All, Option-cases,
}

module _ {T : Type 0} (reset : T → T) (new_fn : T) where
  unfoldable pub remove_at : ℕ → List T → List T
  remove_at n [] = []
  remove_at zero (x ∷ xs) = xs
  remove_at (suc n) (x ∷ xs) = x ∷ remove_at n xs

  -- The object, and the pool without it.
  unfoldable pub get : ℕ → List T → T × List T
  unfolding remove_at
  get pick pool = elim (get_elem? pool pick) [
    | none ↦ (new_fn, pool)
    | some x ↦ (x, remove_at pick pool)
  ]

  unfoldable pub put : T → List T → List T
  put x pool = reset x ∷ pool

  -- What can happen to a pool: an object is taken and given back, or the runtime drops one.
  pub data Step : List T → List T → Type 0 where
    taken : (pick : ℕ) (pool : List T) → Step pool (get pick pool).1
    given : (x : T) (pool : List T) → Step pool (put x pool)
    dropped : (n : ℕ) (pool : List T) → Step pool (remove_at n pool)

  pub data Reach : List T → Type 0 where
    created : Reach []
    stepped : {p q : List T} → Reach p → Step p q → Reach q

  module _ (P : T → Type 0) where
    remove_at-All : (n : ℕ) (pool : List T) → All P pool → All P (remove_at n pool)
    unfolding remove_at
    remove_at-All n [] h = tt
    remove_at-All zero (x ∷ xs) h = h.1
    remove_at-All (suc n) (x ∷ xs) h = (h.0, remove_at-All n xs h.1)

    elem_all : (n : ℕ) (pool : List T) (x : T) → All P pool → get_elem? pool n ≡ some x → P x
    elem_all n [] x h e = cc
    elem_all zero (y ∷ ys) x h e = subst P (some-injective _ _ e) h.0
    elem_all (suc n) (y ∷ ys) x h e = elem_all n ys x h.1 e

    module _ (new_initial : P new_fn) (reset_initial : (x : T) → P (reset x)) where
      Step-All : {p q : List T} → Step p q → All P p → All P q
      unfolding get put
      Step-All (taken pick pool) h = elim (Option-cases (get_elem? pool pick)) [
        | inl e ↦ rw (e, get) h
        | inr (x, e) ↦ rw (e, get) (remove_at-All pick pool h)
      ]
      Step-All (given x pool) h = (reset_initial x, h)
      Step-All (dropped n pool) h = remove_at-All n pool h

      Reach-All : {p : List T} → Reach p → All P p
      Reach-All created = tt
      Reach-All (stepped r st) = Step-All st (Reach-All r)

      -- If every new object and every reset one satisfies `P`, then so does what Get hands out, at
      -- any time in the life of a pool.
      pub get_initial : (pool : List T) (pick : ℕ) → Reach pool → P (get pick pool).0
      unfolding get
      get_initial pool pick r = elim (Option-cases (get_elem? pool pick)) [
        | inl e ↦ rw (e, get) new_initial
        | inr (x, e) ↦ rw (e, get) (elem_all pick pool x (Reach-All r) e)
      ]
