-- ===== src/Repository/Memory/Assign.antt =====
-- What a list of metrics makes of an entry of the storage: of a list with one metric for each key,
-- and of any list of well-formed metrics.
use svcmetrics.Base.{
  String, ◌≡◌, refl, ◌∙◌, Option, none, some, List, [], ◌∷◌, Bool, true, get_or, is_some,
  if◌then◌else◌, arith, eq_iff, All, str_eq,
}
use svcmetrics.Base.Dict.{lookup, lookup-insert}
use svcmetrics.Base.Word.{Int64, add64, add64_assoc}
use svcmetrics.Model.{Metrics, gauge, counter, is_gauge-not-is_counter}
use svcmetrics.Repository.Batch.{BatchKey, key_eq, key_of, absorb, merged}
use svcmetrics.Repository.Batch.Keys.{key_eq_iff, find}
use svcmetrics.Repository.Batch.Order.{IsUnique}
use svcmetrics.Repository.Batch.Meaning.{folded, folded_one}
use svcmetrics.Repository.Batch.Validity.{IsWellFormed}
use svcmetrics.Repository.Memory.{MemStorage, store_value, store_delta, apply_metric, apply_all}

abbrev pub gauge_key : String → BatchKey
gauge_key k = record { mtype = gauge; id = k }

abbrev pub counter_key : String → BatchKey
counter_key k = record { mtype = counter; id = k }

-- What an entry is after an assignment, and after a sum.
abbrev pub or_old {ℓ} : {A : Type ℓ} → Option A → Option A → Option A
or_old none g = g
or_old (some v) g = some v

abbrev pub plus_old : Option Int64 → Option Int64 → Option Int64
plus_old none c = c
plus_old (some d) c = some (add64 (get_or 0 c) d)

module _ {F : Type 0} where
  -- The same, of the entry of a batch for a key.
  abbrev pub set_by : Option (Metrics F) → Option F → Option F
  set_by none g = g
  set_by (some o) g = or_old o.value g

  abbrev pub raised_by : Option (Metrics F) → Option Int64 → Option Int64
  raised_by none c = c
  raised_by (some o) c = plus_old o.delta c

  abbrev pub only : Bool → Metrics F → Option (Metrics F)
  only b m = if b then some m else none

  -- The two maps after one assignment.
  gauges-store_value :
      (name k : String) (v : Option F) (s : MemStorage F)
      → lookup k (store_value name v s).gauges
        ≡ (if str_eq name k then or_old v (lookup k s.gauges) else lookup k s.gauges)
  unfolding store_value
  gauges-store_value name k none s = ground arith
  gauges-store_value name k (some v) s = lookup-insert name k v s.gauges

  counters-store_value :
      (name : String) (v : Option F) (s : MemStorage F)
      → (store_value name v s).counters ≡ s.counters
  unfolding store_value
  counters-store_value name none s = refl
  counters-store_value name (some v) s = refl

  gauges-store_delta :
      (name : String) (d : Option Int64) (s : MemStorage F)
      → (store_delta name d s).gauges ≡ s.gauges
  unfolding store_delta
  gauges-store_delta name none s = refl
  gauges-store_delta name (some d) s = refl

  counters-store_delta :
      (name k : String) (d : Option Int64) (s : MemStorage F)
      → lookup k (store_delta name d s).counters
        ≡ (if str_eq name k then plus_old d (lookup k s.counters) else lookup k s.counters)
  unfolding store_delta
  counters-store_delta name k none s = ground arith
  counters-store_delta name k (some d) s =
      lookup-insert name k _ s.counters ∙ ground (arith, eq_iff name k)

  gauges-apply_metric :
      (m : Metrics F) (s : MemStorage F) (k : String)
      → lookup k (apply_metric m s).gauges
        ≡ set_by (only (key_eq (key_of m) (gauge_key k)) m) (lookup k s.gauges)
  unfolding apply_metric key_eq
  gauges-apply_metric m s k =
      ground (arith, gauges-store_value m.id k m.value s, gauges-store_delta m.id m.delta s)

  counters-apply_metric :
      (m : Metrics F) (s : MemStorage F) (k : String)
      → lookup k (apply_metric m s).counters
        ≡ raised_by (only (key_eq (key_of m) (counter_key k)) m) (lookup k s.counters)
  unfolding apply_metric key_eq
  counters-apply_metric m s k = ground (
    arith,
    counters-store_delta m.id k m.delta s,
    counters-store_value m.id m.value s,
    is_gauge-not-is_counter m.mtype,
  )

  -- A list with one entry for each key.
  pub gauges-apply_all :
      (ms : List (Metrics F)) (s : MemStorage F) (k : String)
      → IsUnique ms
      → lookup k (apply_all ms s).gauges ≡ set_by (find (gauge_key k) ms) (lookup k s.gauges)
  unfolding apply_all find
  gauges-apply_all [] s k u = refl
  gauges-apply_all (m ∷ ms) s k u = ground (
    arith,
    gauges-apply_metric m s k,
    gauges-apply_all ms (apply_metric m s) k,
    key_eq_iff (key_of m) (gauge_key k),
  )

  pub counters-apply_all :
      (ms : List (Metrics F)) (s : MemStorage F) (k : String)
      → IsUnique ms
      → lookup k (apply_all ms s).counters
        ≡ raised_by (find (counter_key k) ms) (lookup k s.counters)
  unfolding apply_all find
  counters-apply_all [] s k u = refl
  counters-apply_all (m ∷ ms) s k u = ground (
    arith,
    counters-apply_metric m s k,
    counters-apply_all ms (apply_metric m s) k,
    key_eq_iff (key_of m) (counter_key k),
  )

  set_by_step :
      (m : Metrics F) (k : String) (acc : Option (Metrics F)) (g x : Option F)
      → IsWellFormed m
      → x ≡ set_by acc g
      → set_by (only (key_eq (key_of m) (gauge_key k)) m) x
        ≡ set_by (folded_one (gauge_key k) acc m) g
  unfolding absorb merged key_eq
  set_by_step m k acc g x h e =
      ground (arith, eq_iff m.mtype gauge, is_gauge-not-is_counter m.mtype, eq_iff m.mtype counter)

  -- The same of any list of well-formed metrics, through the fold of its entries for a key.
  pub gauges-apply_wf :
      (ms : List (Metrics F)) (s : MemStorage F) (k : String) (acc : Option (Metrics F))
      (g : Option F)
      → All IsWellFormed ms
      → lookup k s.gauges ≡ set_by acc g
      → lookup k (apply_all ms s).gauges ≡ set_by (folded (gauge_key k) acc ms) g
  unfolding apply_all folded
  gauges-apply_wf [] s k acc g h e = e
  gauges-apply_wf (m ∷ ms) s k acc g h e =
      gauges-apply_wf ms (apply_metric m s) k (folded_one (gauge_key k) acc m) g h.1
        (gauges-apply_metric m s k ∙ set_by_step m k acc g _ h.0 e)

  abbrev pub HasDelta : Option (Metrics F) → Type 0
  HasDelta none = Unit
  HasDelta (some o) = is_some o.delta ≡ true

  folded_one-HasDelta :
      (m : Metrics F) (k : String) (acc : Option (Metrics F))
      → IsWellFormed m
      → HasDelta acc
      → HasDelta (folded_one (counter_key k) acc m)
  unfolding absorb merged key_eq
  folded_one-HasDelta m k none h d =
      ground (arith, eq_iff m.mtype gauge, is_gauge-not-is_counter m.mtype, eq_iff m.mtype counter)
  folded_one-HasDelta m k (some o) h d =
      ground (arith, eq_iff m.mtype gauge, is_gauge-not-is_counter m.mtype, eq_iff m.mtype counter)

  raised_by_step :
      (m : Metrics F) (k : String) (acc : Option (Metrics F)) (c x : Option Int64)
      → IsWellFormed m
      → HasDelta acc
      → x ≡ raised_by acc c
      → raised_by (only (key_eq (key_of m) (counter_key k)) m) x
        ≡ raised_by (folded_one (counter_key k) acc m) c
  unfolding absorb merged key_eq
  raised_by_step m k none c x h d e =
      ground (arith, eq_iff m.mtype gauge, is_gauge-not-is_counter m.mtype, eq_iff m.mtype counter)
  raised_by_step m k (some o) c x h d e = ground (
    arith,
    eq_iff m.mtype gauge,
    is_gauge-not-is_counter m.mtype,
    eq_iff m.mtype counter,
    add64_assoc (get_or 0 c) (get_or 0 o.delta) (get_or 0 m.delta),
  )

  pub counters-apply_wf :
      (ms : List (Metrics F)) (s : MemStorage F) (k : String) (acc : Option (Metrics F))
      (c : Option Int64)
      → All IsWellFormed ms
      → HasDelta acc
      → lookup k s.counters ≡ raised_by acc c
      → lookup k (apply_all ms s).counters ≡ raised_by (folded (counter_key k) acc ms) c
  unfolding apply_all folded
  counters-apply_wf [] s k acc c h d e = e
  counters-apply_wf (m ∷ ms) s k acc c h d e =
      counters-apply_wf ms (apply_metric m s) k (folded_one (counter_key k) acc m) c h.1
        (folded_one-HasDelta m k acc h.0 d)
        (counters-apply_metric m s k ∙ raised_by_step m k acc c _ h.0 d e)
