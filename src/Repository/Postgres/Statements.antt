-- ===== src/Repository/Postgres/Statements.antt =====
-- internal/repository/postgres.go: the statements, on the table, and the connection to the server.
use svcmetrics.Base.{
  ◌^◌, ◌%◌, String, Bool, not, ◌&&◌, Option, none, some, List, [], ◌∷◌, leb, get_or, if◌then◌else◌,
}
use svcmetrics.Base.Dict.{Dict, lookup, insert}
use svcmetrics.Base.Word.{Int64, word_mod, add64}
use svcmetrics.Errors.{Err, Result, ok, err, no_rows, pg}

-- A column is none where it is NULL.
pub record Table (F : Type 0) : Type 0 where
  pub gauges : Dict (Option F)
  pub counters : Dict (Option Int64)

-- How a call ends: the server ran it and its answer arrived; it did not run; or it ran and its answer was
-- lost on the way.
pub data Answer : Type 0 where
  served : Answer
  refused : Err → Answer
  lost : Err → Answer

-- The table that is committed, and the answers of the calls to come; once they are used up, all is well.
pub record Server (F : Type 0) : Type 0 where
  pub table : Table F
  pub answers : List Answer

abbrev pub Statement : Type 0 → Type 0 → Type 0
Statement F A = Table F → Result (A × Table F)

abbrev pub is_negative : Int64 → Bool
is_negative w = leb (2 ^ 63) w

-- The sum of two values of type bigint: none where it is out of range.
unfoldable pub bigint_add : Int64 → Int64 → Option Int64
bigint_add a b =
    let sum = add64 a b in
    if is_negative a
    then (if is_negative b && not (is_negative sum) then none else some sum)
    else (if not (is_negative b) && is_negative sum then none else some sum)

-- What a row of type counter holds after an upsert by `d`: COALESCE(metrics.delta, 0) + EXCLUDED.delta, or
-- the value inserted, as the bits of a bigint.
unfoldable pub upserted : Option (Option Int64) → Int64 → Option Int64
upserted none d = some (d % word_mod)
upserted (some column) d = bigint_add (get_or 0 column) d

abbrev pub out_of_range : Err
out_of_range = pg "22003" ∷ []

-- IS NOT NULL
unfoldable pub not_null : {V : Type 0} → Dict (Option V) → List (String × V)
not_null [] = []
not_null ((name, none) ∷ rows) = not_null rows
not_null ((name, some v) ∷ rows) = (name, v) ∷ not_null rows

module _ {F : Type 0} where
  unfoldable pub gauge_upsert : String → F → Statement F F
  gauge_upsert name v t = ok (v, record t { gauges = insert name (some v) t.gauges })

  abbrev pub store_counter : String → Table F → Option Int64 → Result (Int64 × Table F)
  store_counter name t none = err out_of_range
  store_counter name t (some n) = ok (n, record t { counters = insert name (some n) t.counters })

  unfoldable pub counter_upsert : String → Int64 → Statement F Int64
  unfolding upserted
  counter_upsert name d t = store_counter name t (upserted (lookup name t.counters) d)

  unfoldable pub gauge_select : String → Statement F (Option F)
  gauge_select name t = elim (lookup name t.gauges) [
    | none ↦ err (no_rows ∷ [])
    | some column ↦ ok (column, t)
  ]

  unfoldable pub counter_select : String → Statement F (Option Int64)
  counter_select name t = elim (lookup name t.counters) [
    | none ↦ err (no_rows ∷ [])
    | some column ↦ ok (column, t)
  ]

  unfoldable pub gauges_select : Statement F (List (String × F))
  unfolding not_null
  gauges_select t = ok (not_null t.gauges, t)

  unfoldable pub counters_select : Statement F (List (String × Int64))
  unfolding not_null
  counters_select t = ok (not_null t.counters, t)

  abbrev pub taken : List Answer → Server F → Answer × Server F
  taken [] s = (served, s)
  taken (a ∷ rest) s = (a, record s { answers = rest })

  -- The answer of the next call, and the server behind it.
  unfoldable pub next_answer : Server F → Answer × Server F
  next_answer s = taken s.answers s

  module _ {A : Type 0} where
    -- What a statement that ran leaves: its table is committed unless it failed.
    abbrev pub committed : Server F → Result (A × Table F) → Server F
    committed s (ok (a, t)) = record s { table = t }
    committed s (err e) = s

    abbrev pub result : Result (A × Table F) → Result A
    result (ok (a, t)) = ok a
    result (err e) = err e

    abbrev pub delivered : Statement F A → Answer × Server F → Result A × Server F
    delivered q (served, s) = (result (q s.table), committed s (q s.table))
    delivered q (refused e, s) = (err e, s)
    delivered q (lost e, s) = (err e, committed s (q s.table))

    -- A statement outside a transaction commits by itself.
    unfoldable pub query : Statement F A → Server F → Result A × Server F
    unfolding next_answer
    query q s = delivered q (next_answer s)

  abbrev pub called : Answer × Server F → Option Err × Server F
  called (served, s) = (none, s)
  called (refused e, s) = (some e, s)
  called (lost e, s) = (some e, s)

  -- A call that leaves the committed table alone.
  unfoldable pub call : Server F → Option Err × Server F
  unfolding next_answer
  call s = called (next_answer s)

-- res[name] = value for every row.
unfoldable pub put_rows : {V : Type 0} → List (String × V) → Dict V → Dict V
put_rows [] d = d
put_rows ((name, v) ∷ rows) d = put_rows rows (insert name v d)
