-- ===== src/Server/Serving/Restart.antt =====
-- cmd/server/main.go: a server that keeps its metrics in a file is stopped and started again.
use svcmetrics.Base.{
  ℕ, ◌≡◌, refl, ◌∙◌, String, Bool, true, false, Option, none, some, List, [], ◌∷◌, inl, inr, str_eq,
  ◌⊎◌,
}
use mathlib.Core.Path.{subst}
use svcmetrics.Base.Dict.{Dict, lookup}
use svcmetrics.Base.Word.{Int64}
use svcmetrics.Errors.{Err, Result, ok}
use svcmetrics.Model.{Metrics}
use svcmetrics.Retry.{Runtime, pause_after}
use svcmetrics.Repository.Memory.{MemStorage, new_mem_storage, snapshot}
use svcmetrics.Repository.Memory.Reload.{load_entries-snapshot, or_else}
use svcmetrics.Repository.Memory.Maps.{HasMaps}
use svcmetrics.Repository.Memory.Save.{File, Machine, Outcome, save_config}
use svcmetrics.Repository.Memory.Save.Atomic.{HoldsSnapshot}
use svcmetrics.Repository.Memory.Load.{IsLoaded, load, load-IsLoaded, load-HasMaps}
use svcmetrics.Server.Sync.{SyncStorage}
use svcmetrics.Server.Serving.{
  ServerEvent, logged_out, start_storage, save_snapshot, handle_events, serve_file,
}
use svcmetrics.Server.Serving.Memory.{
  save_snapshot-IsSnapped, handle_events-memory, replay, replay-HasMaps,
}

-- The same metrics, in whatever order a range meets them.
abbrev pub SameMetrics : {F : Type 0} → MemStorage F → MemStorage F → Type 0
SameMetrics s t =
    ((name : String) → lookup name s.gauges ≡ lookup name t.gauges)
    × ((name : String) → lookup name s.counters ≡ lookup name t.counters)

or_else-none : {A : Type 0} (o : Option A) → or_else o none ≡ o
or_else-none none = refl
or_else-none (some a) = refl

-- The machine as the next process finds it, where `outcomes` is what its calls will answer.
abbrev pub rebooted : {F : Type 0} → List Outcome → SyncStorage F → Machine F
rebooted outcomes s = record s.machine { outcomes = outcomes }

-- What a start that restores finds behind a life that ended with the storage `m`.
abbrev pub IsRestored : {F : Type 0} → MemStorage F → SyncStorage F → Type 0
IsRestored m u =
    ((e : Err) × (u.log ≡ e ∷ []) × (u.machine.memory ≡ new_mem_storage))
    ⊎ ((u.log ≡ []) × SameMetrics u.machine.memory m)

loaded-IsRestored :
    {F : Type 0} (m : MemStorage F) (out : Option Err × Machine F)
    → HasMaps m
    → IsLoaded new_mem_storage (snapshot m) out
    → IsRestored m (logged_out [] out)
unfolding new_mem_storage lookup
loaded-IsRestored m out maps (inl (e, h, same)) = inl (e, rw h refl, same)
loaded-IsRestored m out maps (inr (h, same)) =
    let (none_left, gauges, counters) = load_entries-snapshot m new_mem_storage maps.0 maps.1 in
    inr (
      rw (h, none_left) refl,
      (
        λ name. rw same (gauges name ∙ or_else-none _),
        λ name. rw same (counters name ∙ or_else-none _),
      ),
    )

module _ {F : Type 0} (marshal : List (Metrics F) → Result String)
    (unmarshal : String → Result (List (Metrics F))) (temp_name : Dict File → String)
    (path : String) (rt : Runtime (Machine F))
    (on_retry : Option (Err → ℕ → Int64 → Machine F → Machine F)) where
  module _
      (leaves_memory : (e : Err) (k : ℕ) (n : Int64) (d : Machine F)
        → (pause_after rt (save_config on_retry) e k n d).1.memory ≡ d.memory) where
    start_storage-HasMaps :
        (restore : Bool) (d : Machine F)
        → HasMaps (start_storage unmarshal path rt on_retry restore d).machine.memory
    unfolding start_storage new_mem_storage
    start_storage-HasMaps false d = (tt, tt)
    start_storage-HasMaps true d =
        load-HasMaps path rt on_retry leaves_memory unmarshal
          (record d { memory = new_mem_storage }) (tt, tt)

  module _
      (leaves_machine : (e : Err) (k : ℕ) (n : Int64) (u : Machine F)
        → let u' = (pause_after rt (save_config on_retry) e k n u).1 in
          (u'.files ≡ u.files) × (u'.past ≡ u.past) × (u'.memory ≡ u.memory))
      (parses : (ms : List (Metrics F)) (bytes : String)
        → marshal ms ≡ ok bytes
        → unmarshal bytes ≡ ok ms) where
    start_storage-IsRestored :
        (m : MemStorage F) (d : Machine F)
        → HasMaps m
        → HoldsSnapshot marshal path (λ s. s ≡ m) d
        → IsRestored m (start_storage unmarshal path rt on_retry true d)
    unfolding start_storage
    start_storage-IsRestored m d maps (bytes, (s, same, encoded), file) =
        loaded-IsRestored m
          (load unmarshal path rt on_retry (record d { memory = new_mem_storage })) maps
          (load-IsLoaded path (record { content = bytes; synced = true }) new_mem_storage rt
            on_retry (λ e k n u. let (files, _, memory) = leaves_machine e k n u in (files, memory))
            unmarshal (snapshot m) (record d { memory = new_mem_storage })
            (subst (λ x. unmarshal bytes ≡ ok (snapshot x)) same
              (parses (snapshot s) bytes encoded))
            (file, refl))

    -- Where the name of a temporary file is not the path, pauses change neither the files nor the
    -- storage, and json.Unmarshal reads what json.MarshalIndent wrote: over every order of writes and
    -- ticks, every save interval and every pattern of failed system calls and repeats, the storage ends
    -- as the one that the writes alone make of the storage at the start, and, unless the last save
    -- logs an error, a later start that restores the file either logs an error and has an empty
    -- storage, or logs nothing and has every gauge and every counter of it and no others.
    pub serve_file-IsRestored :
        (interval : Int64) (restore : Bool) (events : List (ServerEvent F)) (d : Machine F)
        (outcomes : List Outcome)
        → ((files : Dict File) → str_eq (temp_name files) path ≡ false)
        → let s = start_storage unmarshal path rt on_retry restore d in
          let t = serve_file marshal temp_name path rt on_retry interval events s in
          let before = handle_events marshal temp_name path rt on_retry interval events s in
          let m = replay events s.machine.memory in
          let u = start_storage unmarshal path rt on_retry true (rebooted outcomes t) in
          (t.machine.memory ≡ m) × (((e : Err) × (t.log ≡ e ∷ before.log)) ⊎ IsRestored m u)
    unfolding serve_file
    serve_file-IsRestored interval restore events d outcomes other =
        let s = start_storage unmarshal path rt on_retry restore d in
        let before = handle_events marshal temp_name path rt on_retry interval events s in
        let m = replay events s.machine.memory in
        let remembered : before.machine.memory ≡ m =
          handle_events-memory marshal temp_name path rt on_retry other leaves_machine interval
            events s in
        let (same, snapped) =
          save_snapshot-IsSnapped marshal temp_name path rt on_retry other leaves_machine before in
        let maps : HasMaps m =
          replay-HasMaps events _
            (start_storage-HasMaps (λ e k n u. (leaves_machine e k n u).2) restore d) in
        (
          same ∙ remembered,
          elim snapped [
            | inl failed ↦ inl failed
            | inr (_, held) ↦ inr (
                start_storage-IsRestored m
                  (rebooted outcomes (save_snapshot marshal temp_name path rt on_retry before)) maps
                  (subst
                    (λ x.
                      HoldsSnapshot marshal path (λ y. y ≡ x)
                        (rebooted outcomes
                          (save_snapshot marshal temp_name path rt on_retry before)))
                    remembered held))
          ],
        )
