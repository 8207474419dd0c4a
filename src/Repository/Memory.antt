-- ===== src/Repository/Memory.antt =====
-- internal/repository/memory.go: the in-memory storage. Every method holds the lock from its first
-- access of the maps to its last, so a method is one step on the state.
pub mod Assign
pub mod Batch
pub mod Reload
pub mod Save
pub mod Load
pub mod Maps
use svcmetrics.Base.{
  String, Option, none, some, List, [], ◌∷◌, ◌++◌, ℕ, suc, ◌+◌, Bool, true, false, get_or,
  if◌then◌else◌, ltb,
}
use svcmetrics.Base.Dict.{Dict, lookup, insert}
use svcmetrics.Base.Word.{Int64, add64}
use svcmetrics.Model.{Metrics, gauge, counter, is_gauge, is_counter}
use svcmetrics.Errors.{Err, Result, ok, err, not_found, invalid_metric, text}
use svcmetrics.Repository.Batch.{aggregate_batch}

pub record MemStorage (F : Type 0) : Type 0 where
  pub gauges : Dict F
  pub counters : Dict Int64

module _ {F : Type 0} where
  unfoldable pub new_mem_storage : MemStorage F
  new_mem_storage = record { gauges = []; counters = [] }

  unfoldable pub update_gauge : String → F → MemStorage F → Result F × MemStorage F
  update_gauge name value s = (ok value, record s { gauges = insert name value s.gauges })

  -- s.counters[name] += value, where a missing key reads as 0
  unfoldable pub add_counter : String → Int64 → MemStorage F → MemStorage F
  add_counter name value s = record s {
    counters = insert name (add64 (get_or 0 (lookup name s.counters)) value) s.counters;
  }

  unfoldable pub update_counter : String → Int64 → MemStorage F → Result Int64 × MemStorage F
  unfolding add_counter
  update_counter name value s =
      let s' = add_counter name value s in (ok (get_or 0 (lookup name s'.counters)), s')

  -- s.gauges[name] = *value and s.counters[name] += *delta. An aggregated metric has the value of
  -- its type, so no nil pointer is followed.
  unfoldable pub store_value : String → Option F → MemStorage F → MemStorage F
  store_value name none s = s
  store_value name (some v) s = record s { gauges = insert name v s.gauges }

  unfoldable pub store_delta : String → Option Int64 → MemStorage F → MemStorage F
  unfolding add_counter
  store_delta name none s = s
  store_delta name (some d) s = add_counter name d s

  -- The switch in the loop of UpdateBatch.
  unfoldable pub apply_metric : Metrics F → MemStorage F → MemStorage F
  unfolding store_value store_delta
  apply_metric m s =
      if is_gauge m.mtype
      then store_value m.id m.value s
      else if is_counter m.mtype
      then store_delta m.id m.delta s
      else s

  unfoldable pub apply_all : List (Metrics F) → MemStorage F → MemStorage F
  apply_all [] s = s
  apply_all (m ∷ ms) s = apply_all ms (apply_metric m s)

  abbrev pub apply_aggregated : Result (List (Metrics F)) → MemStorage F → Option Err × MemStorage F
  apply_aggregated (err e) s = (some e, s)
  apply_aggregated (ok batch) s = (none, apply_all batch s)

  unfoldable pub update_batch : List (Metrics F) → MemStorage F → Option Err × MemStorage F
  update_batch [] s = (none, s)
  update_batch (m ∷ ms) s = apply_aggregated (aggregate_batch (m ∷ ms)) s

  unfoldable pub get_gauge : String → MemStorage F → Result F
  get_gauge name s = elim (lookup name s.gauges) [
    | none ↦ err (text "gauge" ∷ not_found ∷ [])
    | some v ↦ ok v
  ]

  unfoldable pub get_counter : String → MemStorage F → Result Int64
  get_counter name s = elim (lookup name s.counters) [
    | none ↦ err (text "counter" ∷ not_found ∷ [])
    | some v ↦ ok v
  ]

  unfoldable pub get_all_gauges : MemStorage F → Result (Dict F)
  get_all_gauges s = ok s.gauges

  unfoldable pub get_all_counters : MemStorage F → Result (Dict Int64)
  get_all_counters s = ok s.counters

  -- The metrics of a range over a map.
  unfoldable pub gauge_metrics : Dict F → List (Metrics F)
  gauge_metrics [] = []
  gauge_metrics ((name, v) ∷ rest) =
      record { id = name; mtype = gauge; delta = none; value = some v } ∷ gauge_metrics rest

  unfoldable pub counter_metrics : Dict Int64 → List (Metrics F)
  counter_metrics [] = []
  counter_metrics ((name, d) ∷ rest) =
      record { id = name; mtype = counter; delta = some d; value = none } ∷ counter_metrics rest

  unfoldable pub snapshot : MemStorage F → List (Metrics F)
  unfolding gauge_metrics counter_metrics
  snapshot s = gauge_metrics s.gauges ++ counter_metrics s.counters

  -- The loop of Load: whether the entry is taken, and the storage behind it.
  unfoldable pub load_one : Metrics F → MemStorage F → Bool × MemStorage F
  load_one m s =
      let as_counter : Bool × MemStorage F =
        if is_counter m.mtype
        then elim m.delta [
          | none ↦ (false, s)
          | some d ↦ (true, record s { counters = insert m.id d s.counters })
        ]
        else (false, s) in
      if is_gauge m.mtype
      then elim m.value [
        | none ↦ as_counter
        | some v ↦ (true, record s { gauges = insert m.id v s.gauges })
      ]
      else as_counter

  unfoldable pub load_all : ℕ → List (Metrics F) → MemStorage F → ℕ × MemStorage F
  unfolding load_one
  load_all skipped [] s = (skipped, s)
  load_all skipped (m ∷ ms) s =
      let (taken, s') = load_one m s in load_all (if taken then skipped else suc skipped) ms s'

  -- Load, from the entries that json.Unmarshal read out of the snapshot.
  unfoldable pub load_entries : List (Metrics F) → MemStorage F → Option Err × MemStorage F
  unfolding load_all
  load_entries ms s =
      let (skipped, s') = load_all 0 ms s in
      (if ltb 0 skipped then some (text "skipped entries" ∷ invalid_metric ∷ []) else none, s')
