-- ===== src/Server/Serving.antt =====
-- cmd/server/main.go: the life of a server that keeps its metrics in a file: the file is restored, the
-- handlers write to the storage, a ticker saves it, and so does the shutdown. The log holds the errors of
-- files, the last one first. Writes and ticks come one after another, in any order.
pub mod Memory
pub mod Restart
use svcmetrics.Base.{ℕ, String, Bool, true, false, Option, List, [], ◌∷◌, if◌then◌else◌, ◌==◌, not}
use svcmetrics.Base.Dict.{Dict}
use svcmetrics.Base.Word.{Int64, not_positive}
use svcmetrics.Errors.{Err, Result}
use svcmetrics.Model.{Metrics}
use svcmetrics.Retry.{Runtime}
use svcmetrics.Repository.Memory.{
  MemStorage, new_mem_storage, update_gauge, update_counter, update_batch,
}
use svcmetrics.Repository.Memory.Save.{File, Machine, save}
use svcmetrics.Repository.Memory.Load.{load}
use svcmetrics.Server.Sync.{
  SyncStorage, logged, sync_update_gauge, sync_update_counter, sync_update_batch,
}

-- A write of a handler, or the ticker.
pub data ServerEvent (F : Type 0) : Type 0 where
  gauge_written : String → F → ServerEvent F
  counter_written : String → Int64 → ServerEvent F
  batch_written : List (Metrics F) → ServerEvent F
  tick : ServerEvent F

-- hs without the decoration of syncStorage
abbrev pub in_memory : {F : Type 0} → MemStorage F → SyncStorage F → SyncStorage F
in_memory memory s = record s { machine = record s.machine { memory = memory } }

abbrev pub logged_out : {F : Type 0} → List Err → Option Err × Machine F → SyncStorage F
logged_out log (e, machine) = record { machine = machine; log = logged log e }

-- s.Load behind NewMemStorage, where the settings ask for it.
unfoldable pub start_storage :
    {F : Type 0}
    → (String → Result (List (Metrics F)))
    → String
    → Runtime (Machine F)
    → Option (Err → ℕ → Int64 → Machine F → Machine F)
    → Bool
    → Machine F
    → SyncStorage F
start_storage unmarshal path rt on_retry restore d =
    let new : Machine _ = record d { memory = new_mem_storage } in
    if restore
    then logged_out [] (load unmarshal path rt on_retry new)
    else record { machine = new; log = [] }

module _ {F : Type 0} (marshal : List (Metrics F) → Result String) (temp_name : Dict File → String)
    (path : String) (rt : Runtime (Machine F))
    (on_retry : Option (Err → ℕ → Int64 → Machine F → Machine F)) where
  -- fileStore.Save, with its error logged
  unfoldable pub save_snapshot : SyncStorage F → SyncStorage F
  save_snapshot s = logged_out s.log (save marshal temp_name path rt on_retry s.machine)

  -- One event, with the save interval in seconds.
  unfoldable pub handle_event : Int64 → ServerEvent F → SyncStorage F → SyncStorage F
  handle_event interval (gauge_written name value) s =
      if interval == 0
      then (sync_update_gauge marshal temp_name path rt on_retry name value s).1
      else in_memory (update_gauge name value s.machine.memory).1 s
  handle_event interval (counter_written name delta) s =
      if interval == 0
      then (sync_update_counter marshal temp_name path rt on_retry name delta s).1
      else in_memory (update_counter name delta s.machine.memory).1 s
  handle_event interval (batch_written ms) s =
      if interval == 0
      then (sync_update_batch marshal temp_name path rt on_retry ms s).1
      else in_memory (update_batch ms s.machine.memory).1 s
  handle_event interval tick s = if not_positive interval then s else save_snapshot s

  unfoldable pub handle_events : Int64 → List (ServerEvent F) → SyncStorage F → SyncStorage F
  handle_events interval [] s = s
  handle_events interval (e ∷ es) s = handle_events interval es (handle_event interval e s)

  -- Behind srv.Shutdown there are no more writes: the last save.
  unfoldable pub serve_file : Int64 → List (ServerEvent F) → SyncStorage F → SyncStorage F
  serve_file interval events s = save_snapshot (handle_events interval events s)
