-- ===== src/Examples/Database.antt =====
-- The storage in PostgreSQL at concrete inputs.
use svcmetrics.Base.{arith, ℕ, ◌≡◌, refl, ap, true, false, none, some, List, [], ◌∷◌, str_eq}
use svcmetrics.Base.Word.{add64, not_positive}
use svcmetrics.Base.Dict.{lookup, insert}
use svcmetrics.Errors.{ok, bad_conn, has, find_link}
use svcmetrics.Model.{Metrics, gauge, counter}
use svcmetrics.Repository.Retriable.{PgErrCode, is_retriable_pg_error, is_retriable_pg_code}
use svcmetrics.Repository.Memory.{MemStorage}
use svcmetrics.Repository.Memory
use svcmetrics.Repository.Postgres.Statements.{
  Table, Server, served, refused, lost, counter_upsert, gauge_upsert, upserted, bigint_add, call,
  next_answer,
}
use svcmetrics.Repository.Postgres.Transaction.{Ended, commit_tx, row, update_batch_tx, write_rows}
use svcmetrics.Repository.Postgres.Batch.{batch_rows, update_batch-Ended, update_batch-Represents}
use svcmetrics.Repository.Postgres.Represents.{Represents}
use svcmetrics.Repository.Postgres.Counter.{update_counter_twice}
use svcmetrics.Repository.Postgres.{pg_config, update_batch, update_counter}
use svcmetrics.Retry.{
  do_op, pause_after, wait, with_jitter, after_attempt, after_pause, attempts, do_value,
}
use svcmetrics.Repository.Batch.{
  aggregate_batch, validate, sort, fold_one, index_get, insert_sorted, compare_metrics, merged,
  absorb, fold_batch, key_eq, update_at,
}
use svcmetrics.Examples.Quiet.{quiet, quiet_pause}

abbrev pub codes : PgErrCode
codes = record {
  is_connection_exception = λ c. str_eq c "08006";
  is_insufficient_resources = λ c. false;
  serialization_failure = "40001";
  deadlock_detected = "40P01";
  admin_shutdown = "57P01";
  crash_shutdown = "57P02";
  cannot_connect_now = "57P03";
}

abbrev batch : List (Metrics ℕ)
batch =
    record { id = "PollCount"; mtype = counter; delta = some 2; value = none }
    ∷ record { id = "Alloc"; mtype = gauge; delta = none; value = some 7 }
    ∷ []

abbrev table : Table ℕ
table = record { gauges = []; counters = ("PollCount", some 5) ∷ [] }

-- The first transaction breaks off, the second one loses the answer to its commit.
abbrev shaky : Server ℕ
shaky = record { table = table; answers = served ∷ refused (bad_conn ∷ []) ∷ [] }

abbrev memory : MemStorage ℕ
memory = record { gauges = []; counters = ("PollCount", 5) ∷ [] }

update_batch-Ended_example :
    Ended table (batch_rows batch table) (update_batch codes (quiet (Server ℕ)) none batch shaky)
update_batch-Ended_example =
    update_batch-Ended codes (quiet (Server ℕ)) none
      (λ e k d s.
        ap (λ p. p.1.table) (quiet_pause (pg_config codes (quiet (Server ℕ)) none) e k d s refl))
      batch shaky

table-Represents : Represents table memory
unfolding lookup
table-Represents = record { gauges = λ k. refl; counters = λ k. ground arith }

recovered : (update_batch codes (quiet (Server ℕ)) none batch shaky).0 ≡ none
unfolding update_batch aggregate_batch validate do_op is_retriable_pg_error has find_link
    pause_after wait with_jitter not_positive sort fold_one index_get insert_sorted compare_metrics
    merged lookup insert add64 absorb fold_batch key_eq update_at bigint_add call counter_upsert
    gauge_upsert next_answer upserted commit_tx row update_batch_tx write_rows is_retriable_pg_code
    after_attempt after_pause attempts do_value
recovered = refl

update_batch-Represents_example :
    ((Memory.update_batch batch memory).0 ≡ none)
    × Represents
        (update_batch codes (quiet (Server ℕ)) none batch shaky).1.table
        (Memory.update_batch batch memory).1
update_batch-Represents_example =
    update_batch-Represents codes (quiet (Server ℕ)) none
      (λ e k d s.
        ap (λ p. p.1.table) (quiet_pause (pg_config codes (quiet (Server ℕ)) none) e k d s refl))
      batch shaky memory recovered table-Represents

-- The answer to the first upsert is lost.
abbrev losing : Server ℕ
losing = record { table = table; answers = lost (bad_conn ∷ []) ∷ served ∷ [] }

abbrev counted : ℕ → Table ℕ
counted n = record { gauges = []; counters = ("PollCount", some n) ∷ [] }

again : is_retriable_pg_error codes (some (bad_conn ∷ [])) ≡ true
unfolding is_retriable_pg_error has find_link
again = refl

first : counter_upsert "PollCount" 2 (counted 5) ≡ ok (7, counted 7)
unfolding counter_upsert lookup insert upserted bigint_add add64
first = refl

second : counter_upsert "PollCount" 2 (counted 7) ≡ ok (9, counted 9)
unfolding counter_upsert lookup insert upserted bigint_add add64
second = refl

update_counter_twice_example :
    update_counter codes (quiet (Server ℕ)) none "PollCount" 2 losing
    ≡ (ok 9, record { table = counted 9; answers = [] })
update_counter_twice_example =
    update_counter_twice codes (quiet (Server ℕ)) none
      (λ e k d s. quiet_pause (pg_config codes (quiet (Server ℕ)) none) e k d s refl) "PollCount" 2
      (counted 7) (counted 9) 7 9 (bad_conn ∷ []) losing [] refl again first second
