-- ===== src/Repository/Storage/Memory.antt =====
-- MemStorage fills the contract.
use svcmetrics.Base.{String, ◌≡◌, refl, sym, ap, some, arith, str_eq, if◌then◌else◌, get_or, true}
use svcmetrics.Base.Dict.{Dict, lookup, lookup-insert, lookup-insert_self}
use svcmetrics.Base.Word.{Int64, add64}
use svcmetrics.Errors.{Err, ok, err, ok_injective, has, is_not_found}
use svcmetrics.Repository.Memory.{MemStorage}
use svcmetrics.Repository.Memory
use svcmetrics.Repository.Storage.{Storage, Contract}

abbrev pub mem_storage : (F : Type 0) → Storage (MemStorage F) F
mem_storage F = record {
  get_gauge = λ k s. (Memory.get_gauge k s, s);
  get_counter = λ k s. (Memory.get_counter k s, s);
  get_all_gauges = λ s. (Memory.get_all_gauges s, s);
  get_all_counters = λ s. (Memory.get_all_counters s, s);
  update_gauge = Memory.update_gauge;
  update_counter = Memory.update_counter;
  update_batch = Memory.update_batch;
}

module _ {F : Type 0} where
  get_gauge_iff :
      (k : String) (s : MemStorage F) (v : F)
      → Memory.get_gauge k s ≡ ok v
      → lookup k s.gauges ≡ some v
  unfolding Memory.get_gauge
  get_gauge_iff k s v h = ground arith

  get_counter_iff :
      (k : String) (s : MemStorage F) (v : Int64)
      → Memory.get_counter k s ≡ ok v
      → lookup k s.counters ≡ some v
  unfolding Memory.get_counter
  get_counter_iff k s v h = ground arith

  get_gauge_found :
      (k : String) (s : MemStorage F) (v : F) (e : Err)
      → lookup k s.gauges ≡ some v
      → Memory.get_gauge k s ≡ err e
      → ¬ (has is_not_found e ≡ true)
  unfolding Memory.get_gauge
  get_gauge_found k s v e h x = ground arith

  get_counter_found :
      (k : String) (s : MemStorage F) (v : Int64) (e : Err)
      → lookup k s.counters ≡ some v
      → Memory.get_counter k s ≡ err e
      → ¬ (has is_not_found e ≡ true)
  unfolding Memory.get_counter
  get_counter_found k s v e h x = ground arith

  get_all_gauges_effect :
      (k : String) (s : MemStorage F) (d : Dict F)
      → Memory.get_all_gauges s ≡ ok d
      → lookup k d ≡ lookup k s.gauges
  unfolding Memory.get_all_gauges
  get_all_gauges_effect k s d h = ap (lookup k) (sym (ok_injective h))

  get_all_counters_effect :
      (k : String) (s : MemStorage F) (d : Dict Int64)
      → Memory.get_all_counters s ≡ ok d
      → lookup k d ≡ lookup k s.counters
  unfolding Memory.get_all_counters
  get_all_counters_effect k s d h = ap (lookup k) (sym (ok_injective h))

  update_gauge_effect :
      (k j : String) (v w : F) (s : MemStorage F)
      → (Memory.update_gauge k v s).0 ≡ ok w
      → (w ≡ v)
        × (lookup j (Memory.update_gauge k v s).1.gauges
            ≡ (if str_eq k j then some v else lookup j s.gauges))
        × (lookup j (Memory.update_gauge k v s).1.counters ≡ lookup j s.counters)
  unfolding Memory.update_gauge
  update_gauge_effect k j v w s h = (cc, lookup-insert k j v s.gauges, refl)

  update_counter_effect :
      (k j : String) (d t : Int64) (s : MemStorage F)
      → (Memory.update_counter k d s).0 ≡ ok t
      → (t ≡ add64 (get_or 0 (lookup k s.counters)) d)
        × (lookup j (Memory.update_counter k d s).1.counters
            ≡ (if str_eq k j then some t else lookup j s.counters))
        × (lookup j (Memory.update_counter k d s).1.gauges ≡ lookup j s.gauges)
  unfolding Memory.update_counter
  update_counter_effect k j d t s h =
      let total = add64 (get_or 0 (lookup k s.counters)) d in
      let stored : t ≡ total = ground (arith, lookup-insert_self k total s.counters) in
      (stored, ground (arith, lookup-insert k j total s.counters, stored), refl)

  -- The methods of MemStorage do what the comments of the interface Storage promise.
  pub mem_storage-Contract : Contract (mem_storage F)
  mem_storage-Contract = record {
    gauge_of = λ s k. lookup k s.gauges;
    counter_of = λ s k. lookup k s.counters;
    get_gauge_ok = get_gauge_iff;
    get_gauge_some = get_gauge_found;
    get_counter_ok = get_counter_iff;
    get_counter_some = get_counter_found;
    get_all_gauges_ok = get_all_gauges_effect;
    get_all_counters_ok = get_all_counters_effect;
    update_gauge_ok = update_gauge_effect;
    update_counter_ok = update_counter_effect;
  }
