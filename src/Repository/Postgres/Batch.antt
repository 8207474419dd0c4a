-- ===== src/Repository/Postgres/Batch.antt =====
-- UpdateBatch of PgStorage, over every pattern of failures: at most once, and as MemStorage does it.
use mathlib.Core.Path.{subst}
use svcmetrics.Base.{
  ℕ, ◌≡◌, ◌≢◌, refl, sym, ap, ◌∙◌, true, Option, none, some, List, [], ◌∷◌, inl, arith,
}
use svcmetrics.Base.Word.{Int64}
use svcmetrics.Model.{Metrics}
use mathlib.Core.Option.{some-injective, none-ne-some}
use svcmetrics.Errors.{Err, Result, ok, err, has, is_commit}
use svcmetrics.Retry.{Runtime, do_op, pause_after}
use svcmetrics.Retry.Runs.{do_value_induct}
use svcmetrics.Repository.Retriable.{PgErrCode, is_retriable_pg_error, is_retriable_pg_error-never}
use svcmetrics.Repository.Batch.{sort, aggregate_batch}
use svcmetrics.Repository.Memory
use svcmetrics.Repository.Memory.{
  MemStorage, apply_metric, apply_all, store_value, store_delta, add_counter,
}
use svcmetrics.Repository.Postgres.Statements.{Server, Table}
use svcmetrics.Repository.Postgres.Transaction.{
  rows, Ended, applied, unapplied, unknown, update_batch_tx-Ended,
}
use svcmetrics.Repository.Postgres.{pg_config, tx_operation, write_aggregated, update_batch}
use svcmetrics.Repository.Postgres.Represents.{Represents, rows-Represents}

module _ {F : Type 0} where
  abbrev pub aggregated_rows : Result (List (Metrics F)) → Table F → Option (Table F)
  aggregated_rows (ok batch) t = rows batch t
  aggregated_rows (err e) t = none

  -- The table that a batch makes of `t`, written once: none where it is malformed or out of range.
  abbrev pub batch_rows : List (Metrics F) → Table F → Option (Table F)
  batch_rows ms t = aggregated_rows (aggregate_batch ms) t

  module _ (pc : PgErrCode) (rt : Runtime (Server F))
      (on_retry : Option (Err → ℕ → Int64 → Server F → Server F))
      (leaves_table : (e : Err) (k : ℕ) (d : Int64) (s : Server F)
        → (pause_after rt (pg_config pc rt on_retry) e k d s).1.table ≡ s.table) where
    never_repeated : (e : Err) → has is_commit e ≡ true → is_retriable_pg_error pc (some e) ≢ true
    never_repeated e h r = ground (arith, is_retriable_pg_error-never pc e (inl h))

    kept :
        (t : Table F) (whole : Option (Table F)) (e : Err) (s : Server F)
        → is_retriable_pg_error pc (some e) ≡ true
        → Ended t whole (some e, s)
        → s.table ≡ t
    kept t whole _ _ again (unapplied e s same) = same
    kept t whole _ _ again (unknown e w s lost _ _) = absurd (never_repeated e lost again)

    write_aggregated-Ended :
        (r : Result (List (Metrics F))) (s : Server F)
        → Ended s.table (aggregated_rows r s.table) (write_aggregated pc rt on_retry r s)
    unfolding do_op
    write_aggregated-Ended (err e) s = unapplied e s refl
    write_aggregated-Ended (ok batch) s =
        do_value_induct rt (pg_config pc rt on_retry) (tx_operation pc rt on_retry batch)
          (λ u. u.table ≡ s.table) (λ out. Ended s.table (rows batch s.table) (out.1, out.2))
          (λ u same. update_batch_tx-Ended batch s.table u same)
          (λ u res e v same call again. kept s.table (rows batch s.table) e v again (
            subst (λ p. Ended s.table (rows batch s.table) (p.1, p.2)) call
              (update_batch_tx-Ended batch s.table u same)))
          (λ e k d u same. leaves_table e k d u ∙ same) (λ res e u again same. unapplied e u same) s
          refl

    -- UpdateBatch writes a batch at most once, over every pattern of failures and repeats, where pauses
    -- leave the table alone: without an error the table is the one with the whole batch written once; with
    -- an error it is as before, or the last commit failed and it is the one with the batch written once.
    pub update_batch-Ended :
        (ms : List (Metrics F)) (s : Server F)
        → Ended s.table (batch_rows ms s.table) (update_batch pc rt on_retry ms s)
    unfolding update_batch aggregate_batch sort rows
    update_batch-Ended [] s = applied s.table s refl refl
    update_batch-Ended (m ∷ ms) s = write_aggregated-Ended (aggregate_batch (m ∷ ms)) s

  nothing_written :
      (t w : Table F) (m : MemStorage F)
      → batch_rows [] t ≡ some w
      → Represents t m
      → Represents w m
  unfolding aggregate_batch sort rows
  nothing_written t w m e r = subst (λ u. Represents u m) (some-injective _ _ e) r

  -- A batch written once to a table that represents a storage makes one that represents the storage behind
  -- its UpdateBatch, which succeeds.
  batch_rows-Represents :
      (ms : List (Metrics F)) (t w : Table F) (m : MemStorage F)
      → batch_rows ms t ≡ some w
      → Represents t m
      → ((Memory.update_batch ms m).0 ≡ none) × Represents w (Memory.update_batch ms m).1
  unfolding Memory.update_batch
  batch_rows-Represents [] t w m e r = (refl, nothing_written t w m e r)
  batch_rows-Represents (x ∷ ms) t w m e r = given (aggregate_batch (x ∷ ms)) e
    where
      given :
          (o : Result (List (Metrics F)))
          → aggregated_rows o t ≡ some w
          → ((Memory.apply_aggregated o m).0 ≡ none) × Represents w (Memory.apply_aggregated o m).1
      given (ok batch) e = (refl, rows-Represents batch t w m e r)
      given (err x') e = absurd (none-ne-some _ e)

  written :
      (t : Table F) (whole : Option (Table F)) (p : Option Err × Server F)
      → Ended t whole p
      → p.0 ≡ none
      → whole ≡ some p.1.table
  written t whole _ (applied w s e same) ended = e ∙ ap some (sym same)
  written t whole _ (unapplied e s same) ended = cc
  written t whole _ (unknown e w s lost _ _) ended = cc

  module _ (pc : PgErrCode) (rt : Runtime (Server F))
      (on_retry : Option (Err → ℕ → Int64 → Server F → Server F))
      (leaves_table : (e : Err) (k : ℕ) (d : Int64) (s : Server F)
        → (pause_after rt (pg_config pc rt on_retry) e k d s).1.table ≡ s.table) where
    -- PgStorage refines MemStorage: where a table holds the metrics of a storage in memory and UpdateBatch
    -- answers no error, over whatever failures and repeats, and pauses leave the table alone, then the batch
    -- succeeds in memory too, and the table holds the metrics of the storage behind it.
    pub update_batch-Represents :
        (ms : List (Metrics F)) (s : Server F) (m : MemStorage F)
        → (update_batch pc rt on_retry ms s).0 ≡ none
        → Represents s.table m
        → ((Memory.update_batch ms m).0 ≡ none)
          × Represents (update_batch pc rt on_retry ms s).1.table (Memory.update_batch ms m).1
    update_batch-Represents ms s m done r =
        batch_rows-Represents ms s.table _ m
          (written s.table (batch_rows ms s.table) _
            (update_batch-Ended pc rt on_retry leaves_table ms s) done)
          r
