-- ===== src/Examples/Storage.antt =====
-- Batches and the in-memory storage at concrete inputs.
use svcmetrics.Base.{ℕ, ◌≡◌, refl, true, none, some, List, [], ◌∷◌, String, All}
use svcmetrics.Errors.{Err, ok, has, is_invalid_metric, invalid_metric, text}
use svcmetrics.Model.{Metrics, gauge, counter}
use svcmetrics.Base.Word.{add64}
use svcmetrics.Repository.Batch.{
  BatchKey, validate, sort, fold_one, index_get, update_at, insert_sorted, compare_metrics, absorb,
  merged, aggregate_batch,
}
use svcmetrics.Repository.Batch.Keys.{find}
use svcmetrics.Repository.Batch.Order.{IsSorted, IsUnique}
use svcmetrics.Repository.Batch.Meaning.{folded, aggregate_batch_folds}
use svcmetrics.Repository.Batch.Validity.{IsWellFormed, validate_iff}
use svcmetrics.Repository.Memory.{new_mem_storage, update_batch}
use svcmetrics.Repository.Memory.Batch.{
  update_each, SameMetrics, update_batch_each, update_batch_atomic,
}
use svcmetrics.Repository.Memory.{MemStorage}
use svcmetrics.Repository.Retriable.{PgErrCode}

abbrev gauge_of : String → ℕ → Metrics ℕ
gauge_of id v = record { id = id; mtype = gauge; delta = none; value = some v }

abbrev counter_of : String → ℕ → Metrics ℕ
counter_of id d = record { id = id; mtype = counter; delta = some d; value = none }

abbrev batch : List (Metrics ℕ)
batch =
    counter_of "PollCount" 2
    ∷ gauge_of "Alloc" 7
    ∷ counter_of "PollCount" 3
    ∷ gauge_of "Alloc" 9
    ∷ []

abbrev folded_batch : List (Metrics ℕ)
folded_batch = counter_of "PollCount" 5 ∷ gauge_of "Alloc" 9 ∷ []

abbrev bad_batch : List (Metrics ℕ)
bad_batch =
    gauge_of "Alloc" 7
    ∷ record { id = "PollCount"; mtype = counter; delta = none; value = none }
    ∷ []

abbrev refusal : Err
refusal = text "delta missing for counter" ∷ invalid_metric ∷ []

batch-IsWellFormed : All (IsWellFormed {F = ℕ}) batch
unfolding validate
batch-IsWellFormed = (
  (validate_iff (counter_of "PollCount" 2)).0 refl,
  (
    (validate_iff (gauge_of "Alloc" 7)).0 refl,
    (
      (validate_iff (counter_of "PollCount" 3)).0 refl,
      ((validate_iff (gauge_of "Alloc" 9)).0 refl, tt),
    ),
  ),
)

batch_taken : aggregate_batch batch ≡ ok folded_batch
unfolding aggregate_batch validate sort fold_one index_get update_at insert_sorted compare_metrics
    absorb merged add64
batch_taken = refl

store_refused : (update_batch bad_batch (new_mem_storage {F = ℕ})).0 ≡ some refusal
unfolding update_batch aggregate_batch validate
store_refused = refl

update_batch_each_example :
    ((update_batch batch new_mem_storage).0 ≡ none)
    × SameMetrics (update_batch batch new_mem_storage).1 (update_each batch new_mem_storage)
update_batch_each_example = update_batch_each batch new_mem_storage batch-IsWellFormed

aggregate_batch_folds_example :
    IsSorted folded_batch
    × IsUnique folded_batch
    × ((q : BatchKey) → find q folded_batch ≡ folded q none batch)
aggregate_batch_folds_example = aggregate_batch_folds batch folded_batch batch_taken

update_batch_atomic_example :
    ((update_batch bad_batch new_mem_storage).1 ≡ new_mem_storage)
    × (has is_invalid_metric refusal ≡ true)
    × ¬ All (IsWellFormed {F = ℕ}) bad_batch
update_batch_atomic_example = update_batch_atomic bad_batch new_mem_storage refusal store_refused

-- The class codes of github.com/jackc/pgerrcode that matter here.
abbrev pg_codes : PgErrCode
pg_codes = record {
  is_connection_exception = λ c. true;
  is_insufficient_resources = λ c. true;
  serialization_failure = "40001";
  deadlock_detected = "40P01";
  admin_shutdown = "57P01";
  crash_shutdown = "57P02";
  cannot_connect_now = "57P03";
}

abbrev running : MemStorage ℕ
running = record { gauges = ("Alloc", 1) ∷ ("Lookups", 2) ∷ []; counters = ("PollCount", 1) ∷ [] }
