-- ===== src/Repository/Batch/Place.antt =====
-- The loop with its index does what a plain scan of the entries does.
use svcmetrics.Base.{
  ℕ, zero, suc, ◌≡◌, refl, Option, none, some, List, [], ◌∷◌, ◌++◌, length, arith, if◌then◌else◌,
  Option-cases, inl, inr,
}
use svcmetrics.Model.{Metrics}
use svcmetrics.Repository.Batch.{
  BatchKey, key_eq, key_of, absorb, merged, index_get, update_at, Fold, fold_one,
}
use svcmetrics.Repository.Batch.Keys.{key_eq_iff, position, key_of-absorb, key_of-merged}

abbrev or_else : Option ℕ → Option ℕ → Option ℕ
or_else none b = b
or_else (some a) b = some a

module _ {F : Type 0} where
  -- One metric into the entries, by a scan.
  unfoldable pub place : Metrics F → List (Metrics F) → List (Metrics F)
  place m [] = merged m ∷ []
  place m (o ∷ os) = if key_eq (key_of o) (key_of m) then absorb m o ∷ os else o ∷ place m os

  position-append :
      (q : BatchKey) (os : List (Metrics F)) (x : Metrics F)
      → position q (os ++ x ∷ [])
        ≡ or_else (position q os) (if key_eq (key_of x) q then some (length os) else none)
  unfolding position
  position-append q [] x = ground arith
  position-append q (o ∷ os) x = ground (arith, position-append q os x)

  place-absent :
      (m : Metrics F) (os : List (Metrics F))
      → position (key_of m) os ≡ none
      → os ++ merged m ∷ [] ≡ place m os
  unfolding position place
  place-absent m [] h = refl
  place-absent m (o ∷ os) h = ground (arith, place-absent m os)

  place-present :
      (m : Metrics F) (os : List (Metrics F)) (p : ℕ)
      → position (key_of m) os ≡ some p
      → update_at (absorb m) p os ≡ place m os
  unfolding position place update_at
  place-present m [] p h = cc
  place-present m (o ∷ os) zero h = ground arith
  place-present m (o ∷ os) (suc p) h = ground (arith, place-present m os p)

  position-place :
      (m : Metrics F) (os : List (Metrics F)) (p : ℕ) (q : BatchKey)
      → position (key_of m) os ≡ some p
      → position q (place m os) ≡ position q os
  unfolding position place
  position-place m [] p q h = cc
  position-place m (o ∷ os) zero q h = ground (arith, key_of-absorb m o)
  position-place m (o ∷ os) (suc p) q h = ground (arith, key_of-absorb m o, position-place m os p q)

  -- The index holds the position of every key.
  pub record IndexFits (s : Fold F) : Type 0 where
    pub at : (q : BatchKey) → index_get q s.index ≡ position q s.out

  index-append :
      (m : Metrics F) (s : Fold F) (q : BatchKey)
      → position (key_of m) s.out ≡ none
      → index_get q s.index ≡ position q s.out
      → index_get q ((key_of m, length s.out) ∷ s.index) ≡ position q (s.out ++ merged m ∷ [])
  unfolding index_get
  index-append m s q h e =
      ground (arith, position-append q s.out (merged m), key_of-merged m, key_eq_iff (key_of m) q)

  pub out-fold_one : (m : Metrics F) (s : Fold F) → IndexFits s → (fold_one m s).out ≡ place m s.out
  unfolding fold_one
  out-fold_one m s h = elim (Option-cases (position (key_of m) s.out)) [
    | inl e ↦ rw (h.at (key_of m), e, fold_one) (place-absent m s.out e)
    | inr (p, e) ↦ rw (h.at (key_of m), e, fold_one) (place-present m s.out p e)
  ]

  pub fold_one-IndexFits : (m : Metrics F) (s : Fold F) → IndexFits s → IndexFits (fold_one m s)
  unfolding fold_one
  fold_one-IndexFits m s h = elim (Option-cases (position (key_of m) s.out)) [
    | inl e ↦ rw (h.at (key_of m), e, fold_one) (record { at = λ q. index-append m s q e (h.at q) })
    | inr (p, e) ↦
        rw (h.at (key_of m), e, fold_one)
          (record {
            at = λ q. rw (place-present m s.out p e, position-place m s.out p q e) (h.at q);
          })
  ]
