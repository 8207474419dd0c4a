-- ===== src/Repository/Postgres.antt =====
-- internal/repository/postgres.go: the storage in PostgreSQL. A call of database/sql takes the next answer
-- of the connection off a list, so that a theorem over all lists is over every pattern of failures. The
-- table has the rows of migrations/00001_create_metrics_table.sql; its key (id, mtype), with the two types
-- that its check admits, makes it two maps, of nullable columns.
pub mod Statements
pub mod Transaction
pub mod Represents
pub mod Batch
pub mod Counter
pub mod Open
use svcmetrics.Base.{ℕ, Bool, true, false, String, Option, none, some, List, [], ◌∷◌, if◌then◌else◌}
use svcmetrics.Base.Dict.{Dict}
use svcmetrics.Base.Word.{Int64}
use svcmetrics.Model.{Metrics}
use svcmetrics.Errors.{Err, Result, ok, err, map_ok, has, text, not_found, Link, no_rows}
use svcmetrics.Retry.{Config, Runtime, Operation, do_value, do_op}
use svcmetrics.Repository.Retriable.{PgErrCode, is_retriable_pg_error}
use svcmetrics.Repository.Batch.{aggregate_batch}
use svcmetrics.Repository.Postgres.Statements.{
  Server, Statement, query, call, gauge_upsert, counter_upsert, gauge_select, counter_select,
  gauges_select, counters_select, put_rows,
}
use svcmetrics.Repository.Postgres.Transaction.{update_batch_tx}

abbrev is_no_rows : Link → Bool
is_no_rows no_rows = true
is_no_rows _ = false

module _ {F : Type 0} where
  abbrev answered : {A : Type 0} → A → Result A × Server F → A × Option Err × Server F
  answered zero (ok a, s) = (a, none, s)
  answered zero (err e, s) = (zero, some e, s)

  -- The function given to DoValue; with an error the value is the zero of its type.
  unfoldable pub attempt : {A : Type 0} → A → Statement F A → Operation (Server F) A
  unfolding query
  attempt zero q s = answered zero (query q s)

  -- if err != nil, with the text that wraps it
  abbrev pub wrapped : {A : Type 0} → String → A × Option Err × Server F → Result A × Server F
  wrapped what (a, none, s) = (ok a, s)
  wrapped what (a, some e, s) = (err (text what ∷ e), s)

  -- The switch behind a select of one column, which may be NULL.
  abbrev pub found : {A : Type 0} → String → Option A × Option Err × Server F → Result A × Server F
  found what (column, some e, s) =
      (err (if has is_no_rows e then text what ∷ not_found ∷ [] else text what ∷ e), s)
  found what (none, none, s) = (err (text what ∷ not_found ∷ []), s)
  found what (some a, none, s) = (ok a, s)

  -- The storage: the runtime and the observer of its retries, and the error codes of the driver.
  module _ (pc : PgErrCode) (rt : Runtime (Server F))
      (on_retry : Option (Err → ℕ → Int64 → Server F → Server F)) where
    abbrev pub pg_config : Config (Server F)
    pg_config = record {
      intervals = none;
      retriable = some (λ e. is_retriable_pg_error pc (some e));
      on_retry = on_retry;
    }

    unfoldable pub update_gauge : F → String → F → Server F → Result F × Server F
    unfolding attempt gauge_upsert
    update_gauge zero name value s =
        wrapped "update gauge" (do_value rt pg_config (attempt zero (gauge_upsert name value)) s)

    unfoldable pub update_counter : String → Int64 → Server F → Result Int64 × Server F
    unfolding attempt counter_upsert
    update_counter name value s =
        wrapped "update counter" (do_value rt pg_config (attempt 0 (counter_upsert name value)) s)

    abbrev pub tx_operation : List (Metrics F) → Operation (Server F) (Unit {0})
    tx_operation batch s = let (e, s') = update_batch_tx batch s in (tt, e, s')

    abbrev pub write_aggregated : Result (List (Metrics F)) → Server F → Option Err × Server F
    write_aggregated (err e) s = (some e, s)
    write_aggregated (ok batch) s =
        let (_, e, s') = do_op rt pg_config (tx_operation batch) s in (e, s')

    unfoldable pub update_batch : List (Metrics F) → Server F → Option Err × Server F
    unfolding update_batch_tx
    update_batch [] s = (none, s)
    update_batch (m ∷ ms) s = write_aggregated (aggregate_batch (m ∷ ms)) s

    unfoldable pub get_gauge : String → Server F → Result F × Server F
    unfolding attempt gauge_select
    get_gauge name s = found "gauge" (do_value rt pg_config (attempt none (gauge_select name)) s)

    unfoldable pub get_counter : String → Server F → Result Int64 × Server F
    unfolding attempt counter_select
    get_counter name s =
        found "counter" (do_value rt pg_config (attempt none (counter_select name)) s)

    unfoldable pub get_all_gauges : Server F → Result (Dict F) × Server F
    unfolding attempt gauges_select put_rows
    get_all_gauges s =
        let (r, s') =
          wrapped "get all gauges" (do_value rt pg_config (attempt [] gauges_select) s) in
        (map_ok (λ rows. put_rows rows []) r, s')

    unfoldable pub get_all_counters : Server F → Result (Dict Int64) × Server F
    unfolding attempt counters_select put_rows
    get_all_counters s =
        let (r, s') =
          wrapped "get all counters" (do_value rt pg_config (attempt [] counters_select) s) in
        (map_ok (λ rows. put_rows rows []) r, s')
