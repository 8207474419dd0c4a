-- ===== src/Repository/Postgres/Counter.antt =====
-- UpdateGauge and UpdateCounter of PgStorage where an answer is lost on the way.
use svcmetrics.Base.{ℕ, ◌*◌, ◌≡◌, refl, String, true, Option, none, some, List, [], ◌∷◌}
use svcmetrics.Base.Word.{Int64}
use svcmetrics.Errors.{Err, ok}
use svcmetrics.Retry.{Runtime, second, pause_after}
use svcmetrics.Retry.Runs.{do_value_recovers}
use svcmetrics.Repository.Retriable.{PgErrCode, is_retriable_pg_error}
use svcmetrics.Repository.Postgres.Statements.{
  Answer, served, lost, Server, Table, counter_upsert, next_answer, query,
}
use svcmetrics.Repository.Postgres.{pg_config, attempt, update_counter}

module _ {F : Type 0} where
  lost_answer :
      (name : String) (d : Int64) (t₁ : Table F) (n : Int64) (e : Err) (s : Server F)
      (rest : List Answer)
      → s.answers ≡ lost e ∷ rest
      → counter_upsert name d s.table ≡ ok (n, t₁)
      → attempt 0 (counter_upsert name d) s ≡ (0, some e, record { table = t₁; answers = rest })
  unfolding attempt query next_answer
  lost_answer name d t₁ n e s rest queue first = simp (queue, first)

  served_answer :
      (name : String) (d : Int64) (t t₁ : Table F) (n : Int64) (rest : List Answer)
      → counter_upsert name d t ≡ ok (n, t₁)
      → attempt 0 (counter_upsert name d) (record { table = t; answers = served ∷ rest })
        ≡ (n, none, record { table = t₁; answers = rest })
  unfolding attempt query next_answer
  served_answer name d t t₁ n rest first = simp first

module _ {F : Type 0} (pc : PgErrCode) (rt : Runtime (Server F))
    (on_retry : Option (Err → ℕ → Int64 → Server F → Server F))
    (sleeps : (e : Err) (k : ℕ) (d : Int64) (s : Server F)
      → pause_after rt (pg_config pc rt on_retry) e k d s ≡ (true, s)) where
  -- UpdateCounter adds twice where the answer to its upsert is lost with an error that is retriable, every
  -- pause is slept through and the second attempt is served: it answers no error, and the table is the one
  -- with the upsert run two times, if both sums are in range.
  pub update_counter_twice :
      (name : String) (d : Int64) (t₁ t₂ : Table F) (n₁ n₂ : Int64) (e : Err) (s : Server F)
      (rest : List Answer)
      → s.answers ≡ lost e ∷ served ∷ rest
      → is_retriable_pg_error pc (some e) ≡ true
      → counter_upsert name d s.table ≡ ok (n₁, t₁)
      → counter_upsert name d t₁ ≡ ok (n₂, t₂)
      → update_counter pc rt on_retry name d s ≡ (ok n₂, record { table = t₂; answers = rest })
  unfolding update_counter
  update_counter_twice name d t₁ t₂ n₁ n₂ e s rest queue again first second_time =
      let s₁ : Server F = record { table = t₁; answers = served ∷ rest } in
      rw
        (do_value_recovers rt (pg_config pc rt on_retry) (attempt 0 (counter_upsert name d))
          ((1 * second) ∷ []) ((3 * second) ∷ (5 * second) ∷ []) s s₁
          (record { table = t₂; answers = rest }) n₂ refl
          (
            0,
            e,
            s₁,
            s₁,
            lost_answer name d t₁ n₁ e s (served ∷ rest) queue first,
            again,
            sleeps e 1 (1 * second) s₁,
            refl,
          )
          (served_answer name d t₁ t₂ n₂ rest second_time))
        refl
