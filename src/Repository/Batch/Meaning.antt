-- ===== src/Repository/Batch/Meaning.antt =====
-- What `aggregate_batch` computes: an independent fold for each key.
use svcmetrics.Base.{◌≡◌, refl, ◌∙◌, ap, Option, none, some, List, [], ◌∷◌, arith, if◌then◌else◌}
use svcmetrics.Errors.{ok, ok_injective, map_ok_inv}
use svcmetrics.Model.{Metrics}
use svcmetrics.Repository.Batch.{
  BatchKey, key_eq, key_of, absorb, merged, Fold, fold_one, fold_batch, sort, aggregate_batch,
  index_get,
}
use svcmetrics.Repository.Batch.Validity.{fold_batch-cons}
use svcmetrics.Repository.Batch.Keys.{key_eq_iff, find, position, key_of-absorb, key_of-merged}
use svcmetrics.Repository.Batch.Place.{place, IndexFits, out-fold_one, fold_one-IndexFits}
use svcmetrics.Repository.Batch.Order.{IsUnique, IsSorted, find-sort, sort-IsUnique, sort-IsSorted}

module _ {F : Type 0} where
  abbrev pub absorb_option : Metrics F → Option (Metrics F) → Metrics F
  absorb_option m none = merged m
  absorb_option m (some o) = absorb m o

  -- The entry of one key after one more metric.
  abbrev pub folded_one : BatchKey → Option (Metrics F) → Metrics F → Option (Metrics F)
  folded_one q acc m = if key_eq (key_of m) q then some (absorb_option m acc) else acc

  -- The entry of one key after a batch.
  unfoldable pub folded : BatchKey → Option (Metrics F) → List (Metrics F) → Option (Metrics F)
  folded q acc [] = acc
  folded q acc (m ∷ ms) = folded q (folded_one q acc m) ms

  find-place :
      (m : Metrics F) (os : List (Metrics F)) (q : BatchKey)
      → find q (place m os) ≡ folded_one q (find q os) m
  unfolding find place
  find-place m [] q = ground (arith, key_of-merged m)
  find-place m (o ∷ os) q = ground (
    arith,
    find-place m os q,
    key_of-absorb m o,
    key_eq_iff (key_of o) (key_of m),
    key_eq_iff (key_of o) q,
    key_eq_iff (key_of m) q,
  )

  place-IsUnique : (m : Metrics F) (os : List (Metrics F)) → IsUnique os → IsUnique (place m os)
  unfolding place find
  place-IsUnique m [] u = (refl, tt)
  place-IsUnique m (o ∷ os) u = ground (
    arith,
    find-place m os (key_of o),
    place-IsUnique m os,
    key_of-absorb m o,
    key_eq_iff (key_of o) (key_of m),
    key_eq_iff (key_of m) (key_of o),
  )

  -- What holds of the state of the loop.
  pub record IsGood (s : Fold F) : Type 0 where
    pub index : IndexFits s
    pub unique : IsUnique s.out

  fold_one-IsGood : (m : Metrics F) (s : Fold F) → IsGood s → IsGood (fold_one m s)
  fold_one-IsGood m s g = record {
    index = fold_one-IndexFits m s g.index;
    unique = rw (out-fold_one m s g.index) (place-IsUnique m s.out g.unique);
  }

  find-fold_one :
      (m : Metrics F) (s : Fold F) (q : BatchKey)
      → IsGood s
      → find q (fold_one m s).out ≡ folded_one q (find q s.out) m
  find-fold_one m s q g = rw (out-fold_one m s g.index) (find-place m s.out q)

  fold_batch_lem :
      (ms : List (Metrics F)) (s : Fold F) (out : List (Metrics F))
      → IsGood s
      → fold_batch ms s ≡ ok out
      → IsUnique out × ((q : BatchKey) → find q out ≡ folded q (find q s.out) ms)
  unfolding fold_batch folded
  fold_batch_lem [] s out g h = (rw (← ok_injective h) g.unique, λ q. rw (← ok_injective h))
  fold_batch_lem (m ∷ ms) s out g h =
      let rest = (fold_batch-cons m ms s out h).1 in
      let (unique, finds) = fold_batch_lem ms (fold_one m s) out (fold_one-IsGood m s g) rest in
      (unique, λ q. finds q ∙ ap (λ o. folded q o ms) (find-fold_one m s q g))

  abbrev start : Fold F
  start = record { index = []; out = [] }

  empty-IsGood : IsGood start
  unfolding index_get position
  empty-IsGood = record { index = record { at = λ q. refl }; unique = tt }

  -- The result for a batch that is taken is in strict order, with one entry for a key, and the entry
  -- of each key is the fold of the metrics of that key alone.
  pub aggregate_batch_folds :
      (ms out : List (Metrics F))
      → aggregate_batch ms ≡ ok out
      → IsSorted out × IsUnique out × ((q : BatchKey) → find q out ≡ folded q none ms)
  unfolding aggregate_batch find
  aggregate_batch_folds ms out h =
      let (entries, folds, sorts) = map_ok_inv sort (fold_batch ms start) h in
      let (unique, finds) = fold_batch_lem ms start entries empty-IsGood folds in
      rw (← sorts) (
        sort-IsSorted entries unique,
        sort-IsUnique entries unique,
        λ q. find-sort entries q unique ∙ finds q,
      )
