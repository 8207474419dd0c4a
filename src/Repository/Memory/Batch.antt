-- ===== src/Repository/Memory/Batch.antt =====
-- UpdateBatch against the methods that take one metric.
use svcmetrics.Base.{
  String, ◌≡◌, refl, ◌∙◌, sym, ap, none, some, List, [], ◌∷◌, true, if◌then◌else◌, arith, All,
}
use svcmetrics.Base.Dict.{lookup}
use svcmetrics.Model.{Metrics, is_gauge, is_counter}
use svcmetrics.Errors.{Err, Result, ok, err, has, is_invalid_metric}
use svcmetrics.Repository.Batch.{aggregate_batch}
use svcmetrics.Repository.Batch.Meaning.{aggregate_batch_folds}
use svcmetrics.Repository.Batch.Validity.{
  IsWellFormed, aggregate_batch_iff, aggregate_batch_refuses,
}
use svcmetrics.Repository.Memory.{
  MemStorage, update_gauge, update_counter, apply_metric, apply_all, apply_aggregated, update_batch,
}
use svcmetrics.Repository.Memory.Assign.{
  gauge_key, counter_key, set_by, raised_by, gauges-apply_all, counters-apply_all, gauges-apply_wf,
  counters-apply_wf,
}

module _ {F : Type 0} where
  -- One metric by UpdateGauge or UpdateCounter.
  unfoldable pub update_one : Metrics F → MemStorage F → MemStorage F
  update_one m s =
      if is_gauge m.mtype
      then elim m.value [ none ↦ s | some v ↦ (update_gauge m.id v s).1 ]
      else if is_counter m.mtype
      then elim m.delta [ none ↦ s | some d ↦ (update_counter m.id d s).1 ]
      else s

  unfoldable pub update_each : List (Metrics F) → MemStorage F → MemStorage F
  unfolding update_one
  update_each [] s = s
  update_each (m ∷ ms) s = update_each ms (update_one m s)

  update_one-apply_metric : (m : Metrics F) (s : MemStorage F) → update_one m s ≡ apply_metric m s
  unfolding update_one apply_metric update_gauge update_counter
  update_one-apply_metric m s = ground arith

  update_each-apply_all :
      (ms : List (Metrics F)) (s : MemStorage F) → update_each ms s ≡ apply_all ms s
  unfolding update_each apply_all
  update_each-apply_all [] s = refl
  update_each-apply_all (m ∷ ms) s =
      ap (update_each ms) (update_one-apply_metric m s)
      ∙ update_each-apply_all ms (apply_metric m s)

  -- Two storages that answer every read alike.
  pub record SameMetrics (a b : MemStorage F) : Type 0 where
    pub gauges : (k : String) → lookup k a.gauges ≡ lookup k b.gauges
    pub counters : (k : String) → lookup k a.counters ≡ lookup k b.counters

  apply_aggregated_same :
      (ms out : List (Metrics F)) (s : MemStorage F)
      → All IsWellFormed ms
      → aggregate_batch ms ≡ ok out
      → SameMetrics (apply_all out s) (update_each ms s)
  apply_aggregated_same ms out s wf e =
      let (_, unique, finds) = aggregate_batch_folds ms out e in
      rw update_each-apply_all (record {
        gauges = λ k.
            gauges-apply_all out s k unique
            ∙ ap (λ o. set_by o (lookup k s.gauges)) (finds (gauge_key k))
            ∙ sym (gauges-apply_wf ms s k none (lookup k s.gauges) wf refl);
        counters = λ k.
            counters-apply_all out s k unique
            ∙ ap (λ o. raised_by o (lookup k s.counters)) (finds (counter_key k))
            ∙ sym (counters-apply_wf ms s k none (lookup k s.counters) wf tt refl);
      })

  -- A batch of well-formed metrics succeeds, and leaves what the methods for one metric leave when
  -- they take its metrics in turn.
  pub update_batch_each :
      (ms : List (Metrics F)) (s : MemStorage F)
      → All IsWellFormed ms
      → ((update_batch ms s).0 ≡ none) × SameMetrics (update_batch ms s).1 (update_each ms s)
  unfolding update_batch
  update_batch_each [] s wf =
      (refl, unfold update_each in record { gauges = λ k. refl; counters = λ k. refl })
  update_batch_each (m ∷ ms) s wf =
      let (out, e) = (aggregate_batch_iff (m ∷ ms)).0 wf in
      rw e (refl, apply_aggregated_same (m ∷ ms) out s wf e)

  apply_aggregated_inv :
      (r : Result (List (Metrics F))) (s : MemStorage F) (e : Err)
      → (apply_aggregated r s).0 ≡ some e
      → (r ≡ err e) × ((apply_aggregated r s).1 ≡ s)
  apply_aggregated_inv (err x) s e h = (cc, refl)
  apply_aggregated_inv (ok out) s e h = cc

  -- A batch that is refused has a malformed metric, is refused as ErrInvalidMetric and changes
  -- nothing.
  pub update_batch_atomic :
      (ms : List (Metrics F)) (s : MemStorage F) (e : Err)
      → (update_batch ms s).0 ≡ some e
      → ((update_batch ms s).1 ≡ s) × (has is_invalid_metric e ≡ true) × ¬ All IsWellFormed ms
  unfolding update_batch
  update_batch_atomic [] s e h = cc
  update_batch_atomic (m ∷ ms) s e h =
      let (refused, kept) = apply_aggregated_inv (aggregate_batch (m ∷ ms)) s e h in
      let taken = aggregate_batch_iff (m ∷ ms) in
      (
        kept,
        aggregate_batch_refuses (m ∷ ms) e refused,
        λ wf. let (out, success) = taken.0 wf in cc,
      )
