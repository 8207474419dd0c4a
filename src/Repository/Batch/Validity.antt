-- ===== src/Repository/Batch/Validity.antt =====
-- When `aggregate_batch` succeeds.
use svcmetrics.Base.{
  ◌≡◌, ◌≢◌, refl, ◌↔◌, ◌⊎◌, none, some, List, [], ◌∷◌, arith, eq_iff, All, is_some, true,
}
use svcmetrics.Errors.{Err, ok, err, map_ok_inv, has, is_invalid_metric}
use svcmetrics.Model.{Metrics, gauge, counter}
use svcmetrics.Repository.Batch.{Fold, fold_one, fold_batch, validate, sort, aggregate_batch}

module _ {F : Type 0} where
  -- A metric that a caller may send: named, of a known type and with the value of that type.
  abbrev pub IsWellFormed : Metrics F → Type 0
  IsWellFormed m =
      (m.id ≢ "")
      × (((m.mtype ≡ gauge) × (is_some m.value ≡ true))
          ⊎ ((m.mtype ≡ counter) × (is_some m.delta ≡ true)))

  pub validate_iff : (m : Metrics F) → (validate m ≡ none) ↔ IsWellFormed m
  unfolding validate
  validate_iff m = (
    λ h. ground (arith, eq_iff m.id "", eq_iff m.mtype gauge, eq_iff m.mtype counter),
    λ h.
        ground (
          arith,
          eq_iff m.id "",
          eq_iff m.mtype gauge,
          eq_iff m.mtype counter,
          eq_iff counter gauge,
        ),
  )

  -- Every refusal wraps ErrInvalidMetric.
  pub has-validate :
      (m : Metrics F) (e : Err) → validate m ≡ some e → has is_invalid_metric e ≡ true
  unfolding validate has
  has-validate m e h = ground arith

  fold_batch_total :
      (ms : List (Metrics F)) (s : Fold F)
      → All IsWellFormed ms
      → (out : List (Metrics F)) × (fold_batch ms s ≡ ok out)
  unfolding fold_batch
  fold_batch_total [] s h = (s.out, refl)
  fold_batch_total (m ∷ ms) s h =
      rw ((validate_iff m).1 h.0, fold_batch) (fold_batch_total ms (fold_one m s) h.1)

  -- A batch that passes has passed its first metric.
  pub fold_batch-cons :
      (m : Metrics F) (ms : List (Metrics F)) (s : Fold F) (out : List (Metrics F))
      → fold_batch (m ∷ ms) s ≡ ok out
      → (validate m ≡ none) × (fold_batch ms (fold_one m s) ≡ ok out)
  unfolding fold_batch
  fold_batch-cons m ms s out h = ground arith

  fold_batch_inv :
      (ms : List (Metrics F)) (s : Fold F) (out : List (Metrics F))
      → fold_batch ms s ≡ ok out
      → All IsWellFormed ms
  fold_batch_inv [] s out h = tt
  fold_batch_inv (m ∷ ms) s out h =
      let (valid, rest) = fold_batch-cons m ms s out h in
      ((validate_iff m).0 valid, fold_batch_inv ms (fold_one m s) out rest)

  fold_batch_err :
      (ms : List (Metrics F)) (s : Fold F) (e : Err)
      → fold_batch ms s ≡ err e
      → has is_invalid_metric e ≡ true
  unfolding fold_batch
  fold_batch_err [] s e h = cc
  fold_batch_err (m ∷ ms) s e h =
      ground (arith, has-validate m e, fold_batch_err ms (fold_one m s) e)

  -- A batch is taken exactly when every metric in it is well-formed.
  pub aggregate_batch_iff :
      (ms : List (Metrics F))
      → All IsWellFormed ms ↔ ((out : List (Metrics F)) × (aggregate_batch ms ≡ ok out))
  unfolding aggregate_batch
  aggregate_batch_iff ms =
      let start : Fold F = record { index = []; out = [] } in
      (
        λ h. let (out, e) = fold_batch_total ms start h in (sort out, rw e),
        λ (out, h).
            let (o, e, _) = map_ok_inv sort (fold_batch ms start) h in fold_batch_inv ms start o e,
      )

  -- The refusal of a batch wraps ErrInvalidMetric.
  pub aggregate_batch_refuses :
      (ms : List (Metrics F)) (e : Err)
      → aggregate_batch ms ≡ err e
      → has is_invalid_metric e ≡ true
  unfolding aggregate_batch
  aggregate_batch_refuses ms e h =
      let start : Fold F = record { index = []; out = [] } in
      ground (arith, fold_batch_err ms start e)
