-- ===== src/Repository/Memory/Reload.antt =====
-- internal/repository/memory.go: Load behind a snapshot that Save took.
use svcmetrics.Base.{
  ℕ, ◌≡◌, refl, ◌∙◌, String, Option, none, some, List, [], ◌∷◌, ◌++◌, str_eq, Bool-cases, inl, inr,
  eq_iff,
}
use svcmetrics.Base.Dict.{Dict, lookup, insert, lookup-insert}
use svcmetrics.Base.Word.{Int64}
use svcmetrics.Model.{Metrics}
use svcmetrics.Repository.Memory.{
  MemStorage, gauge_metrics, counter_metrics, snapshot, load_one, load_all, load_entries,
}

-- A value, or another one where there is none.
abbrev pub or_else : {A : Type 0} → Option A → Option A → Option A
or_else none o = o
or_else (some a) o = some a

-- A map has one entry for a key.
abbrev pub IsMap : {V : Type 0} → Dict V → Type 0
IsMap [] = Unit
IsMap ((name, x) ∷ rest) = (lookup name rest ≡ none) × IsMap rest

-- m[name] = x for each entry of a range.
insert_all : {V : Type 0} → Dict V → Dict V → Dict V
insert_all [] d = d
insert_all ((name, x) ∷ rest) d = insert_all rest (insert name x d)

or_else-insert :
    {V : Type 0} (name asked : String) (x : V) (rest d : Dict V)
    → lookup name rest ≡ none
    → or_else (lookup asked rest) (lookup asked (insert name x d))
      ≡ or_else (lookup asked ((name, x) ∷ rest)) (lookup asked d)
unfolding lookup
or_else-insert name asked x rest d single = elim (Bool-cases (str_eq name asked)) [
  | inl same ↦
      let e : name ≡ asked = (eq_iff name asked).0 same in
      rw (lookup-insert name asked x d, same, ← e, single) refl
  | inr other ↦ rw (lookup-insert name asked x d, other) refl
]

lookup-insert_all :
    {V : Type 0} (asked : String) (g d : Dict V)
    → IsMap g
    → lookup asked (insert_all g d) ≡ or_else (lookup asked g) (lookup asked d)
unfolding insert_all lookup
lookup-insert_all asked [] d u = refl
lookup-insert_all asked ((name, x) ∷ rest) d u =
    lookup-insert_all asked rest (insert name x d) u.1 ∙ or_else-insert name asked x rest d u.0

module _ {F : Type 0} where
  load_all-gauge_metrics :
      (k : ℕ) (g : Dict F) (ms : List (Metrics F)) (t : MemStorage F)
      → load_all k (gauge_metrics g ++ ms) t
        ≡ load_all k ms (record t { gauges = insert_all g t.gauges })
  unfolding load_all load_one gauge_metrics insert_all
  load_all-gauge_metrics k [] ms t = refl
  load_all-gauge_metrics k ((name, v) ∷ g) ms t =
      load_all-gauge_metrics k g ms (record t { gauges = insert name v t.gauges })

  load_all-counter_metrics :
      (k : ℕ) (g : Dict Int64) (t : MemStorage F)
      → load_all k (counter_metrics g) t ≡ (k, record t { counters = insert_all g t.counters })
  unfolding load_all load_one counter_metrics insert_all
  load_all-counter_metrics k [] t = refl
  load_all-counter_metrics k ((name, d) ∷ g) t =
      load_all-counter_metrics k g (record t { counters = insert name d t.counters })

  load_all-snapshot :
      (s t : MemStorage F)
      → load_all 0 (snapshot s) t ≡ (
        0,
        record {
          gauges = insert_all s.gauges t.gauges;
          counters = insert_all s.counters t.counters;
        },
      )
  unfolding snapshot
  load_all-snapshot s t =
      load_all-gauge_metrics 0 s.gauges (counter_metrics s.counters) t
      ∙ load_all-counter_metrics 0 s.counters (record t { gauges = insert_all s.gauges t.gauges })

  -- Loading the snapshot of a storage whose maps have one entry for a key into any storage succeeds,
  -- and every gauge and every counter is then the one of the snapshot where it has one, and what it
  -- was before where it has none.
  pub load_entries-snapshot :
      (s t : MemStorage F)
      → IsMap s.gauges
      → IsMap s.counters
      → ((load_entries (snapshot s) t).0 ≡ none)
        × ((name : String)
            → lookup name (load_entries (snapshot s) t).1.gauges
              ≡ or_else (lookup name s.gauges) (lookup name t.gauges))
        × ((name : String)
            → lookup name (load_entries (snapshot s) t).1.counters
              ≡ or_else (lookup name s.counters) (lookup name t.counters))
  unfolding load_entries
  load_entries-snapshot s t ug uc = rw (load_all-snapshot s t) (
    refl,
    λ name. lookup-insert_all name s.gauges t.gauges ug,
    λ name. lookup-insert_all name s.counters t.counters uc,
  )
