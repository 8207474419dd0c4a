-- ===== src/Server/Serving/Memory.antt =====
-- cmd/server/main.go: what the writes of a life leave in memory, saves or none.
use svcmetrics.Base.{
  ℕ, ◌≡◌, refl, ◌∙◌, ap, String, false, Option, none, some, List, [], ◌∷◌, inl, inr, str_eq, ◌==◌,
  if_keeps, ◌⊎◌,
}
use svcmetrics.Base.Dict.{Dict}
use svcmetrics.Base.Word.{Int64, not_positive}
use svcmetrics.Errors.{Err, Result}
use svcmetrics.Model.{Metrics}
use svcmetrics.Retry.{Runtime, pause_after}
use svcmetrics.Repository.Memory.{MemStorage, update_gauge, update_counter, update_batch}
use svcmetrics.Repository.Memory.Maps.{
  HasMaps, update_gauge-HasMaps, update_counter-HasMaps, update_batch-HasMaps,
}
use svcmetrics.Repository.Memory.Save.{File, Machine, save_config}
use svcmetrics.Repository.Memory.Save.Atomic.{HoldsSnapshot, save-IsAtomic}
use svcmetrics.Server.Sync.{
  SyncStorage, written_batch, sync_save, sync_update_gauge, sync_update_counter, sync_update_batch,
}
use svcmetrics.Server.Serving.{
  ServerEvent, gauge_written, counter_written, batch_written, tick, save_snapshot, handle_event,
  handle_events,
}

abbrev Remembers : {F : Type 0} → MemStorage F → SyncStorage F → Type 0
Remembers m t = t.machine.memory ≡ m

-- The writes alone.
abbrev pub written_by : {F : Type 0} → ServerEvent F → MemStorage F → MemStorage F
written_by (gauge_written name value) m = (update_gauge name value m).1
written_by (counter_written name delta) m = (update_counter name delta m).1
written_by (batch_written ms) m = (update_batch ms m).1
written_by tick m = m

abbrev pub replay : {F : Type 0} → List (ServerEvent F) → MemStorage F → MemStorage F
replay [] m = m
replay (e ∷ es) m = replay es (written_by e m)

written_by-HasMaps :
    {F : Type 0} (e : ServerEvent F) (m : MemStorage F) → HasMaps m → HasMaps (written_by e m)
written_by-HasMaps (gauge_written name value) m h = update_gauge-HasMaps name value m h
written_by-HasMaps (counter_written name delta) m h = update_counter-HasMaps name delta m h
written_by-HasMaps (batch_written ms) m h = update_batch-HasMaps ms m h
written_by-HasMaps tick m h = h

pub replay-HasMaps :
    {F : Type 0} (es : List (ServerEvent F)) (m : MemStorage F) → HasMaps m → HasMaps (replay es m)
replay-HasMaps [] m h = h
replay-HasMaps (e ∷ es) m h = replay-HasMaps es _ (written_by-HasMaps e m h)

module _ {F : Type 0} (marshal : List (Metrics F) → Result String) (temp_name : Dict File → String)
    (path : String) (rt : Runtime (Machine F))
    (on_retry : Option (Err → ℕ → Int64 → Machine F → Machine F))
    (other : (files : Dict File) → str_eq (temp_name files) path ≡ false)
    (leaves_machine : (e : Err) (k : ℕ) (n : Int64) (u : Machine F)
      → let u' = (pause_after rt (save_config on_retry) e k n u).1 in
        (u'.files ≡ u.files) × (u'.past ≡ u.past) × (u'.memory ≡ u.memory)) where
  -- Behind a save: the storage as it was, and its snapshot in the file or an error in the log.
  abbrev pub IsSnapped : SyncStorage F → SyncStorage F → Type 0
  IsSnapped s t =
      (t.machine.memory ≡ s.machine.memory)
      × (((e : Err) × (t.log ≡ e ∷ s.log))
          ⊎ ((t.log ≡ s.log) × HoldsSnapshot marshal path (λ m. m ≡ s.machine.memory) t.machine))

  pub save_snapshot-IsSnapped :
      (s : SyncStorage F) → IsSnapped s (save_snapshot marshal temp_name path rt on_retry s)
  unfolding save_snapshot
  save_snapshot-IsSnapped s =
      let (kept, held) =
        save-IsAtomic marshal temp_name path rt on_retry (λ m. m ≡ s.machine.memory) s.machine other
          (λ e k n u.
            let (files, past, same) = leaves_machine e k n u in (files, past, λ h. same ∙ h))
          refl in
      (
        kept.2,
        elim held [ inl (n, snapped) ↦ inr (rw n refl, snapped) | inr (e, h) ↦ inl (e, rw h refl) ],
      )

  sync_save-memory :
      (m : MemStorage F) (s : SyncStorage F)
      → (sync_save marshal temp_name path rt on_retry m s).machine.memory ≡ m
  unfolding sync_save save_snapshot
  sync_save-memory m s =
      (save_snapshot-IsSnapped (record s { machine = record s.machine { memory = m } })).0

  written_batch-memory :
      (ms : List (Metrics F)) (s : SyncStorage F) (r : Option Err × MemStorage F)
      → (written_batch marshal temp_name path rt on_retry ms s r).1.machine.memory ≡ r.1
  written_batch-memory ms s (some e, m) = refl
  written_batch-memory [] s (none, m) = refl
  written_batch-memory (_ ∷ _) s (none, m) = sync_save-memory m s

  module _ (interval : Int64) where
    handle_event-memory :
        (e : ServerEvent F) (s : SyncStorage F)
        → (handle_event marshal temp_name path rt on_retry interval e s).machine.memory
          ≡ written_by e s.machine.memory
    unfolding handle_event sync_update_gauge sync_update_counter sync_update_batch update_gauge
        update_counter
    handle_event-memory (gauge_written name value) s =
        if_keeps (Remembers (update_gauge name value s.machine.memory).1) (interval == 0)
          (sync_save-memory _ s) refl
    handle_event-memory (counter_written name delta) s =
        if_keeps (Remembers (update_counter name delta s.machine.memory).1) (interval == 0)
          (sync_save-memory _ s) refl
    handle_event-memory (batch_written ms) s =
        if_keeps (Remembers (update_batch ms s.machine.memory).1) (interval == 0)
          (written_batch-memory ms s _) refl
    handle_event-memory tick s =
        if_keeps (Remembers s.machine.memory) (not_positive interval) refl
          (save_snapshot-IsSnapped s).0

    pub handle_events-memory :
        (es : List (ServerEvent F)) (s : SyncStorage F)
        → (handle_events marshal temp_name path rt on_retry interval es s).machine.memory
          ≡ replay es s.machine.memory
    unfolding handle_events
    handle_events-memory [] s = refl
    handle_events-memory (e ∷ es) s =
        handle_events-memory es _ ∙ ap (replay es) (handle_event-memory e s)
