-- ===== src/Repository/Postgres/Represents.antt =====
-- A table and a storage in memory with the same metrics, and what a row does to both.
use mathlib.Core.Path.{subst}
use svcmetrics.Base.{
  ◌≡◌, refl, String, Option, none, some, List, [], ◌∷◌, Bool-cases, inl, inr, arith, get_or,
}
use svcmetrics.Base.Dict.{lookup, insert, lookup-insert}
use svcmetrics.Base.Word.{Int64, add64}
use svcmetrics.Model.{Metrics, is_gauge, is_counter}
use mathlib.Core.Option.{some-injective, none-ne-some}
use svcmetrics.Errors.{Result, ok, err, ok_injective}
use svcmetrics.Repository.Memory.{
  MemStorage, apply_metric, apply_all, store_value, store_delta, add_counter,
}
use svcmetrics.Repository.Postgres.Statements.{
  Table, gauge_upsert, counter_upsert, upserted, bigint_add, store_counter,
}
use svcmetrics.Repository.Postgres.Transaction.{
  row, rows, on_rows, table_of, gauge_row, counter_row,
}

abbrev pub joined : {A : Type 0} → Option (Option A) → Option A
joined none = none
joined (some o) = o

-- The sum of the database is the sum in memory.
upserted-add64 :
    (column : Option (Option Int64)) (held : Option Int64) (d n : Int64)
    → joined column ≡ held
    → upserted column d ≡ some n
    → n ≡ add64 (get_or 0 held) d
unfolding upserted bigint_add add64
upserted-add64 none held d n same e = ground arith
upserted-add64 (some o) held d n same e = ground arith

module _ {F : Type 0} where
  -- A table and a storage in memory that hold the same metrics; NULL is no metric.
  pub record Represents (t : Table F) (m : MemStorage F) : Type 0 where
    pub gauges : (k : String) → joined (lookup k t.gauges) ≡ lookup k m.gauges
    pub counters : (k : String) → joined (lookup k t.counters) ≡ lookup k m.counters

  gauge-Represents :
      (name : String) (v : F) (t : Table F) (m : MemStorage F)
      → Represents t m
      → Represents
          (record t { gauges = insert name (some v) t.gauges })
          (record m { gauges = insert name v m.gauges })
  gauge-Represents name v t m r = record {
    gauges = λ k. ground (
      arith,
      lookup-insert name k (some v) t.gauges,
      lookup-insert name k v m.gauges,
      r.gauges k,
    );
    counters = r.counters;
  }

  gauge_row-Represents :
      (name : String) (v : Option F) (t w : Table F) (m : MemStorage F)
      → gauge_row name v t ≡ ok w
      → Represents t m
      → Represents w (store_value name v m)
  unfolding gauge_upsert store_value
  gauge_row-Represents name none t w m e r = subst (λ u. Represents u m) (ok_injective e) r
  gauge_row-Represents name (some v) t w m e r =
      subst (λ u. Represents u (record m { gauges = insert name v m.gauges })) (ok_injective e)
        (gauge-Represents name v t m r)

  counter-Represents :
      (name : String) (d : Int64) (t w : Table F) (m : MemStorage F) (o : Option Int64)
      → upserted (lookup name t.counters) d ≡ o
      → table_of (store_counter name t o) ≡ ok w
      → Represents t m
      → Represents w (add_counter name d m)
  unfolding add_counter
  counter-Represents name d t w m none sum e r = cc
  counter-Represents name d t w m (some n) sum e r =
      let total = add64 (get_or 0 (lookup name m.counters)) d in
      let same : n ≡ total = upserted-add64 (lookup name t.counters) _ d n (r.counters name) sum in
      subst (λ u. Represents u (add_counter name d m)) (ok_injective e)
        (record {
          gauges = r.gauges;
          counters = λ k. ground (
            arith,
            lookup-insert name k (some n) t.counters,
            lookup-insert name k total m.counters,
            r.counters k,
            same,
          );
        })

  counter_row-Represents :
      (name : String) (d : Option Int64) (t w : Table F) (m : MemStorage F)
      → counter_row name d t ≡ ok w
      → Represents t m
      → Represents w (store_delta name d m)
  unfolding counter_upsert store_delta
  counter_row-Represents name none t w m e r = subst (λ u. Represents u m) (ok_injective e) r
  counter_row-Represents name (some d) t w m e r =
      counter-Represents name d t w m (upserted (lookup name t.counters) d) refl e r

  row-Represents :
      (x : Metrics F) (t w : Table F) (m : MemStorage F)
      → row x t ≡ ok w
      → Represents t m
      → Represents w (apply_metric x m)
  unfolding row apply_metric
  row-Represents x t w m e r = elim (Bool-cases (is_gauge x.mtype)) [
    | inl g ↦ rw g (gauge_row-Represents x.id x.value t w m (rw g at e) r)
    | inr n ↦ elim (Bool-cases (is_counter x.mtype)) [
      | inl c ↦ rw (n, c) (counter_row-Represents x.id x.delta t w m (rw (n, c) at e) r)
      | inr u ↦ rw (n, u) (subst (λ v. Represents v m) (ok_injective (rw (n, u) at e)) r)
    ]
  ]

  pub rows-Represents :
      (ms : List (Metrics F)) (t w : Table F) (m : MemStorage F)
      → rows ms t ≡ some w
      → Represents t m
      → Represents w (apply_all ms m)
  unfolding rows apply_all
  rows-Represents [] t w m e r = subst (λ u. Represents u m) (some-injective _ _ e) r
  rows-Represents (x ∷ ms) t w m e r = on_row (row x t) refl e (λ t' first rest.
      rows-Represents ms t' w (apply_metric x m) rest (row-Represents x t t' m first r))
    where
      on_row :
          (o : Result (Table F))
          → row x t ≡ o
          → on_rows (rows ms) o ≡ some w
          → ((t' : Table F)
              → row x t ≡ ok t'
              → rows ms t' ≡ some w
              → Represents w (apply_all ms (apply_metric x m)))
          → Represents w (apply_all ms (apply_metric x m))
      on_row (ok t') first e next = next t' first e
      on_row (err x') first e next = absurd (none-ne-some _ e)
