-- ===== src/Repository/Memory/Maps.antt =====
-- internal/repository/memory.go: the maps of the storage have one entry for a key, whatever is stored.
use svcmetrics.Base.{
  ℕ, refl, String, Bool, true, false, Option, none, some, List, [], ◌∷◌, str_eq, if_keeps,
  option_keeps, Bool-cases, inl, inr, eq_iff, arith,
}
use svcmetrics.Base.Dict.{Dict, lookup, insert, lookup-insert}
use svcmetrics.Base.Word.{Int64}
use svcmetrics.Model.{Metrics, is_gauge, is_counter}
use svcmetrics.Errors.{Result, ok, err}
use svcmetrics.Repository.Batch.{aggregate_batch}
use svcmetrics.Repository.Memory.{
  MemStorage, update_gauge, add_counter, update_counter, store_value, store_delta, apply_metric,
  apply_all, apply_aggregated, update_batch, load_one, load_all, load_entries,
}
use svcmetrics.Repository.Memory.Reload.{IsMap}

insert-IsMap : {V : Type 0} (name : String) (x : V) (d : Dict V) → IsMap d → IsMap (insert name x d)
unfolding insert lookup
insert-IsMap name x [] u = (refl, tt)
insert-IsMap name x ((other, y) ∷ rest) u = elim (Bool-cases (str_eq other name)) [
  | inl same ↦ rw same u
  | inr differs ↦ rw differs (
    rw (lookup-insert name other x rest)
        (ground (arith, eq_iff other name, eq_iff name other, u.0)),
    insert-IsMap name x rest u.1,
  )
]

module _ {F : Type 0} where
  abbrev pub HasMaps : MemStorage F → Type 0
  HasMaps s = IsMap s.gauges × IsMap s.counters

  pub update_gauge-HasMaps :
      (name : String) (v : F) (s : MemStorage F) → HasMaps s → HasMaps (update_gauge name v s).1
  unfolding update_gauge
  update_gauge-HasMaps name v s h = (insert-IsMap name v s.gauges h.0, h.1)

  add_counter-HasMaps :
      (name : String) (d : Int64) (s : MemStorage F) → HasMaps s → HasMaps (add_counter name d s)
  unfolding add_counter
  add_counter-HasMaps name d s h = (h.0, insert-IsMap name _ s.counters h.1)

  pub update_counter-HasMaps :
      (name : String) (d : Int64) (s : MemStorage F)
      → HasMaps s
      → HasMaps (update_counter name d s).1
  unfolding update_counter
  update_counter-HasMaps name d s h = add_counter-HasMaps name d s h

  store_value-HasMaps :
      (name : String) (o : Option F) (s : MemStorage F) → HasMaps s → HasMaps (store_value name o s)
  unfolding store_value
  store_value-HasMaps name none s h = h
  store_value-HasMaps name (some v) s h = (insert-IsMap name v s.gauges h.0, h.1)

  store_delta-HasMaps :
      (name : String) (o : Option Int64) (s : MemStorage F)
      → HasMaps s
      → HasMaps (store_delta name o s)
  unfolding store_delta
  store_delta-HasMaps name none s h = h
  store_delta-HasMaps name (some d) s h = add_counter-HasMaps name d s h

  apply_metric-HasMaps : (m : Metrics F) (s : MemStorage F) → HasMaps s → HasMaps (apply_metric m s)
  unfolding apply_metric
  apply_metric-HasMaps m s h =
      if_keeps HasMaps (is_gauge m.mtype) (store_value-HasMaps m.id m.value s h)
        (if_keeps HasMaps (is_counter m.mtype) (store_delta-HasMaps m.id m.delta s h) h)

  apply_all-HasMaps :
      (ms : List (Metrics F)) (s : MemStorage F) → HasMaps s → HasMaps (apply_all ms s)
  unfolding apply_all
  apply_all-HasMaps [] s h = h
  apply_all-HasMaps (m ∷ ms) s h =
      apply_all-HasMaps ms (apply_metric m s) (apply_metric-HasMaps m s h)

  apply_aggregated-HasMaps :
      (r : Result (List (Metrics F))) (s : MemStorage F)
      → HasMaps s
      → HasMaps (apply_aggregated r s).1
  apply_aggregated-HasMaps (err e) s h = h
  apply_aggregated-HasMaps (ok batch) s h = apply_all-HasMaps batch s h

  pub update_batch-HasMaps :
      (ms : List (Metrics F)) (s : MemStorage F) → HasMaps s → HasMaps (update_batch ms s).1
  unfolding update_batch
  update_batch-HasMaps [] s h = h
  update_batch-HasMaps (m ∷ ms) s h = apply_aggregated-HasMaps (aggregate_batch (m ∷ ms)) s h

  load_one-HasMaps : (m : Metrics F) (s : MemStorage F) → HasMaps s → HasMaps (load_one m s).1
  unfolding load_one
  load_one-HasMaps m s h =
      let Kept : Bool × MemStorage F → Type 0 = λ p. HasMaps p.1 in
      let as_counter =
        if_keeps Kept (is_counter m.mtype)
          (option_keeps Kept m.delta {x = (false, s)}
            {f = λ d. (true, record s { counters = insert m.id d s.counters })} h
            (λ d. (h.0, insert-IsMap m.id d s.counters h.1)))
          h in
      if_keeps Kept (is_gauge m.mtype)
        (option_keeps Kept m.value {f = λ v. (true, record s { gauges = insert m.id v s.gauges })}
          as_counter (λ v. (insert-IsMap m.id v s.gauges h.0, h.1)))
        as_counter

  load_all-HasMaps :
      (ms : List (Metrics F)) (k : ℕ) (s : MemStorage F) → HasMaps s → HasMaps (load_all k ms s).1
  unfolding load_all
  load_all-HasMaps [] k s h = h
  load_all-HasMaps (m ∷ ms) k s h = load_all-HasMaps ms _ (load_one m s).1 (load_one-HasMaps m s h)

  pub load_entries-HasMaps :
      (ms : List (Metrics F)) (s : MemStorage F) → HasMaps s → HasMaps (load_entries ms s).1
  unfolding load_entries
  load_entries-HasMaps ms s h = load_all-HasMaps ms 0 s h
