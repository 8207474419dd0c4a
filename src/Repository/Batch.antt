-- ===== src/Repository/Batch.antt =====
-- internal/repository/batch.go: `aggregateBatch` validates a batch, folds it into one entry for each
-- metric and sorts it. The slots that the pointers of a result point at are its own, so a pointer
-- is the value in its entry.
pub mod Keys
pub mod Place
pub mod Order
pub mod Meaning
pub mod Validity
use Prim.Native.Nat.{Ordering}
use Prim.Native.String.{compare}
use svcmetrics.Base.{
  ℕ, zero, suc, String, Bool, ◌&&◌, Option, none, some, List, [], ◌∷◌, ◌++◌, length, str_eq,
  if◌then◌else◌,
}
use svcmetrics.Base.Text.{cmp_or}
use svcmetrics.Base.Word.{Int64, add64}
use svcmetrics.Model.{Metrics, is_gauge, is_counter}
use svcmetrics.Errors.{Err, Result, ok, err, map_ok, invalid_metric, text}

pub record BatchKey : Type 0 where
  pub mtype : String
  pub id : String

unfoldable pub key_eq : BatchKey → BatchKey → Bool
key_eq a b = str_eq a.mtype b.mtype && str_eq a.id b.id

-- index[key] of the map from keys to positions
unfoldable pub index_get : BatchKey → List (BatchKey × ℕ) → Option ℕ
unfolding key_eq
index_get k [] = none
index_get k ((j, n) ∷ m) = if key_eq j k then some n else index_get k m

-- out[pos] = f(out[pos])
unfoldable pub update_at {ℓ} : {A : Type ℓ} → (A → A) → ℕ → List A → List A
update_at f n [] = []
update_at f zero (x ∷ xs) = f x ∷ xs
update_at f (suc n) (x ∷ xs) = x ∷ update_at f n xs

-- *o.Delta += *m.Delta; both are set, since `validate` passed the two metrics.
abbrev pub add_delta : Option Int64 → Option Int64 → Option Int64
add_delta (some a) (some b) = some (add64 a b)
add_delta _ _ = none

-- The state of the loop: the positions by key, and the entries.
pub record Fold (F : Type 0) : Type 0 where
  pub index : List (BatchKey × ℕ)
  pub out : List (Metrics F)

module _ {F : Type 0} where
  abbrev pub key_of : Metrics F → BatchKey
  key_of m = record { mtype = m.mtype; id = m.id }

  -- The checks at the head of the loop, in their order.
  unfoldable pub validate : Metrics F → Option Err
  validate m =
      if str_eq m.id ""
      then some (text "metric ID missing" ∷ invalid_metric ∷ [])
      else if is_gauge m.mtype
      then elim m.value [
        | none ↦ some (text "value missing for gauge" ∷ invalid_metric ∷ [])
        | some _ ↦ none
      ]
      else if is_counter m.mtype
      then elim m.delta [
        | none ↦ some (text "delta missing for counter" ∷ invalid_metric ∷ [])
        | some _ ↦ none
      ]
      else some (text "unknown type" ∷ invalid_metric ∷ [])

  -- What the slot of a metric that was seen before becomes.
  unfoldable pub absorb : Metrics F → Metrics F → Metrics F
  absorb m o =
      if is_gauge m.mtype
      then record o { value = m.value }
      else record o { delta = add_delta o.delta m.delta }

  -- The entry of a metric that is met for the first time.
  unfoldable pub merged : Metrics F → Metrics F
  merged m =
      if is_gauge m.mtype
      then record { id = m.id; mtype = m.mtype; delta = none; value = m.value }
      else record { id = m.id; mtype = m.mtype; delta = m.delta; value = none }

  unfoldable pub fold_one : Metrics F → Fold F → Fold F
  fold_one m s = elim (index_get (key_of m) s.index) [
    | some pos ↦ record s { out = update_at (absorb m) pos s.out }
    | none ↦ record { index = (key_of m, length s.out) ∷ s.index; out = s.out ++ merged m ∷ [] }
  ]

  -- The loop over the metrics; an invalid one ends it.
  unfoldable pub fold_batch : List (Metrics F) → Fold F → Result (List (Metrics F))
  fold_batch [] s = ok s.out
  fold_batch (m ∷ ms) s =
      let rest = fold_batch ms (fold_one m s) in elim (validate m) [ some e ↦ err e | none ↦ rest ]

  -- cmp.Or(cmp.Compare(a.MType, b.MType), cmp.Compare(a.ID, b.ID))
  unfoldable pub compare_metrics : Metrics F → Metrics F → Ordering
  compare_metrics a b = cmp_or (compare a.mtype b.mtype) (compare a.id b.id)

  -- slices.SortFunc, as an insertion sort: the keys differ, so every sort has this result.
  unfoldable pub insert_sorted : Metrics F → List (Metrics F) → List (Metrics F)
  insert_sorted m [] = m ∷ []
  insert_sorted m (x ∷ xs) = elim (compare_metrics m x) [
    | Ordering.gt ↦ x ∷ insert_sorted m xs
    | _ ↦ m ∷ x ∷ xs
  ]

  unfoldable pub sort : List (Metrics F) → List (Metrics F)
  sort [] = []
  sort (m ∷ ms) = insert_sorted m (sort ms)

  unfoldable pub aggregate_batch : List (Metrics F) → Result (List (Metrics F))
  unfolding fold_batch
  aggregate_batch ms = map_ok sort (fold_batch ms (record { index = []; out = [] }))
