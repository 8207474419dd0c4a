-- ===== src/Server/Sync.antt =====
-- cmd/server/main.go: syncStorage, the storage in memory that is saved to its file behind every write.
pub mod Saved
use svcmetrics.Base.{ℕ, String, Option, none, some, List, [], ◌∷◌}
use svcmetrics.Base.Dict.{Dict}
use svcmetrics.Base.Word.{Int64}
use svcmetrics.Errors.{Err, Result, ok, err}
use svcmetrics.Model.{Metrics}
use svcmetrics.Retry.{Runtime}
use svcmetrics.Repository.Memory
use svcmetrics.Repository.Memory.{MemStorage}
use svcmetrics.Repository.Memory.Save.{File, Machine, save}

-- The errors of saves that were logged, the last one first.
pub record SyncStorage (F : Type 0) : Type 0 where
  pub machine : Machine F
  pub log : List Err

abbrev pub logged : List Err → Option Err → List Err
logged log none = log
logged log (some e) = e ∷ log

module _ {F : Type 0} (marshal : List (Metrics F) → Result String) (temp_name : Dict File → String)
    (path : String) (rt : Runtime (Machine F))
    (on_retry : Option (Err → ℕ → Int64 → Machine F → Machine F)) where
  -- save, with the storage in memory as it is.
  unfoldable pub sync_save : MemStorage F → SyncStorage F → SyncStorage F
  sync_save memory s =
      let (e, machine) =
        save marshal temp_name path rt on_retry (record s.machine { memory = memory }) in
      record { machine = machine; log = logged s.log e }

  -- A write of MemStorage that failed is returned, any other one is saved first.
  abbrev pub written :
      {A : Type 0} → SyncStorage F → Result A × MemStorage F → Result A × SyncStorage F
  written s (err e, memory) = (err e, record s { machine = record s.machine { memory = memory } })
  written s (ok stored, memory) = (ok stored, sync_save memory s)

  unfoldable pub sync_update_gauge : String → F → SyncStorage F → Result F × SyncStorage F
  sync_update_gauge name value s = written s (Memory.update_gauge name value s.machine.memory)

  unfoldable pub sync_update_counter : String → Int64 → SyncStorage F → Result Int64 × SyncStorage F
  sync_update_counter name value s = written s (Memory.update_counter name value s.machine.memory)

  abbrev pub written_batch :
      List (Metrics F) → SyncStorage F → Option Err × MemStorage F → Option Err × SyncStorage F
  written_batch ms s (some e, memory) =
      (some e, record s { machine = record s.machine { memory = memory } })
  written_batch [] s (none, memory) =
      (none, record s { machine = record s.machine { memory = memory } })
  written_batch (m ∷ ms) s (none, memory) = (none, sync_save memory s)

  unfoldable pub sync_update_batch : List (Metrics F) → SyncStorage F → Option Err × SyncStorage F
  sync_update_batch ms s = written_batch ms s (Memory.update_batch ms s.machine.memory)
