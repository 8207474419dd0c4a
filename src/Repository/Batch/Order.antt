-- ===== src/Repository/Batch/Order.antt =====
-- The sort of the entries: it keeps what every key finds and leaves them in strict order.
use Prim.Native.Nat.{Ordering}
use Prim.Native.String.{compare}
use svcmetrics.Base.{◌≡◌, ◌≢◌, refl, none, List, [], ◌∷◌, arith, ◌∙◌, inl, inr}
use svcmetrics.Base.Text.{flip, compare-flip, flip-cmp_or, eq_of_compare, Ordering-cases}
use svcmetrics.Model.{Metrics}
use svcmetrics.Repository.Batch.{BatchKey, key_of, compare_metrics, insert_sorted, sort}
use svcmetrics.Repository.Batch.Keys.{key_eq_iff, find}

module _ {F : Type 0} where
  -- No two entries have one key.
  abbrev pub IsUnique : List (Metrics F) → Type 0
  IsUnique [] = Unit
  IsUnique (m ∷ ms) = (find (key_of m) ms ≡ none) × IsUnique ms

  abbrev IsBefore : Metrics F → List (Metrics F) → Type 0
  IsBefore m [] = Unit
  IsBefore m (x ∷ xs) = compare_metrics m x ≡ Ordering.lt

  -- Strictly increasing by type, then by name.
  abbrev pub IsSorted : List (Metrics F) → Type 0
  IsSorted [] = Unit
  IsSorted (m ∷ ms) = IsBefore m ms × IsSorted ms

  compare_metrics-flip : (a b : Metrics F) → compare_metrics b a ≡ flip (compare_metrics a b)
  unfolding compare_metrics
  compare_metrics-flip a b = cc (
    compare-flip a.mtype b.mtype,
    compare-flip a.id b.id,
    flip-cmp_or (compare a.mtype b.mtype) (compare a.id b.id),
  )

  key_of_compare : (a b : Metrics F) → compare_metrics a b ≡ Ordering.eq → key_of a ≡ key_of b
  unfolding compare_metrics
  key_of_compare a b h = ground (arith, eq_of_compare a.mtype b.mtype, eq_of_compare a.id b.id)

  find-insert_sorted :
      (m : Metrics F) (xs : List (Metrics F)) (q : BatchKey)
      → find (key_of m) xs ≡ none
      → find q (insert_sorted m xs) ≡ find q (m ∷ xs)
  unfolding find insert_sorted
  find-insert_sorted m [] q h = refl
  find-insert_sorted m (x ∷ xs) q h = ground (
    arith,
    find-insert_sorted m xs q,
    key_eq_iff (key_of x) q,
    key_eq_iff (key_of m) q,
    key_eq_iff (key_of x) (key_of m),
  )

  insert_sorted-IsUnique :
      (m : Metrics F) (xs : List (Metrics F))
      → find (key_of m) xs ≡ none
      → IsUnique xs
      → IsUnique (insert_sorted m xs)
  unfolding find insert_sorted
  insert_sorted-IsUnique m [] h u = (refl, tt)
  insert_sorted-IsUnique m (x ∷ xs) h u = ground (
    arith,
    find-insert_sorted m xs (key_of x),
    insert_sorted-IsUnique m xs,
    key_eq_iff (key_of m) (key_of x),
    key_eq_iff (key_of x) (key_of m),
  )

  insert_sorted-IsBefore :
      (x m : Metrics F) (xs : List (Metrics F))
      → compare_metrics x m ≡ Ordering.lt
      → IsBefore x xs
      → IsBefore x (insert_sorted m xs)
  unfolding insert_sorted
  insert_sorted-IsBefore x m [] h b = h
  insert_sorted-IsBefore x m (y ∷ ys) h b = ground arith

  find-cons_none :
      (m x : Metrics F) (xs : List (Metrics F))
      → find (key_of m) (x ∷ xs) ≡ none
      → (compare_metrics m x ≢ Ordering.eq) × (find (key_of m) xs ≡ none)
  unfolding find
  find-cons_none m x xs h =
      (λ e. ground (arith, key_of_compare m x, key_eq_iff (key_of x) (key_of m)), ground arith)

  insert_sorted-IsSorted :
      (m : Metrics F) (xs : List (Metrics F))
      → find (key_of m) xs ≡ none
      → IsSorted xs
      → IsSorted (insert_sorted m xs)
  unfolding find insert_sorted
  insert_sorted-IsSorted m [] h u = (tt, tt)
  insert_sorted-IsSorted m (x ∷ xs) h u =
      let (other, absent) = find-cons_none m x xs h in
      elim (Ordering-cases (compare_metrics m x)) [
        | inl lt ↦ rw (lt, insert_sorted) (lt, u)
        | inr (inl eq) ↦ absurd (other eq)
        | inr (inr gt) ↦
            rw (gt, insert_sorted)
              (
                insert_sorted-IsBefore x m xs (compare_metrics-flip m x ∙ cc gt) u.0,
                insert_sorted-IsSorted m xs absent u.1,
              )
      ]

  pub find-sort :
      (ms : List (Metrics F)) (q : BatchKey) → IsUnique ms → find q (sort ms) ≡ find q ms
  unfolding find sort
  find-sort [] q u = refl
  find-sort (m ∷ ms) q u =
      find-insert_sorted m (sort ms) q (find-sort ms (key_of m) u.1 ∙ u.0) ∙ cc (find-sort ms q u.1)

  pub sort-IsUnique : (ms : List (Metrics F)) → IsUnique ms → IsUnique (sort ms)
  unfolding sort
  sort-IsUnique [] u = tt
  sort-IsUnique (m ∷ ms) u =
      insert_sorted-IsUnique m (sort ms) (find-sort ms (key_of m) u.1 ∙ u.0) (sort-IsUnique ms u.1)

  pub sort-IsSorted : (ms : List (Metrics F)) → IsUnique ms → IsSorted (sort ms)
  unfolding sort
  sort-IsSorted [] u = tt
  sort-IsSorted (m ∷ ms) u =
      insert_sorted-IsSorted m (sort ms) (find-sort ms (key_of m) u.1 ∙ u.0) (sort-IsSorted ms u.1)
