-- ===== src/Examples/Snapshots.antt =====
-- Saves of the storage in memory at concrete inputs.
use svcmetrics.Base.{
  ℕ, ◌≡◌, ◌⊎◌, ◌∙◌, refl, ap, str_eq, false, String, Option, none, some, List, [], ◌∷◌, true,
}
use svcmetrics.Base.Dict.{Dict, lookup, insert}
use svcmetrics.Errors.{Err, Result, ok, path_error}
use svcmetrics.Model.{Metrics, gauge}
use svcmetrics.Repository.Memory.{MemStorage, new_mem_storage, snapshot}
use svcmetrics.Repository.Memory
use svcmetrics.Repository.Memory.Save.{
  File, Machine, done, failed, save, save_config, create_temp, write_and_close, file_write,
  file_sync, file_close, chmod, system_call,
}
use svcmetrics.Repository.Memory.Save.Atomic.{IsAtomic, save-IsAtomic}
use svcmetrics.Repository.Memory.Save.Race.{Overtaken, prepare_file, save_once-Overtaken}
use svcmetrics.Server.Sync.{SyncStorage, sync_update_gauge, sync_update_counter, sync_update_batch}
use svcmetrics.Server.Sync.Saved.{IsSaved, sync_updates-IsSaved}
use svcmetrics.Examples.Quiet.{quiet, quiet_pause}

abbrev marshal : List (Metrics ℕ) → Result String
marshal ms = ok "[]"

abbrev temp_name : Dict File → String
temp_name files = "metrics.json.tmp-1"

-- The second write breaks off after some bytes.
abbrev machine : Machine ℕ
machine = record {
  memory = record { gauges = ("Alloc", 7) ∷ []; counters = [] };
  files = ("metrics.json", record { content = "{}"; synced = true }) ∷ [];
  past = [];
  outcomes = done ∷ failed "[" (path_error ∷ []) ∷ [];
}

save-IsAtomic_example :
    IsAtomic marshal "metrics.json"
      (λ m. m ≡ machine.memory)
      machine
      (save marshal temp_name "metrics.json" (quiet (Machine ℕ)) none machine)
save-IsAtomic_example =
    save-IsAtomic marshal temp_name "metrics.json" (quiet (Machine ℕ)) none
      (λ m. m ≡ machine.memory) machine (λ files. refl)
      (λ e k n u.
        let same = quiet_pause (save_config none) e k n u refl in
        (ap (λ p. p.1.files) same, ap (λ p. p.1.past) same, λ h. ap (λ p. p.1.memory) same ∙ h))
      refl

abbrev sync : SyncStorage ℕ
sync = record { machine = machine; log = [] }

abbrev heap : Metrics ℕ
heap = record { id = "HeapSys"; mtype = gauge; delta = none; value = some 3 }

sync_updates-IsSaved_example :
    let rt = quiet (Machine ℕ) in
    let gauge_out = sync_update_gauge marshal temp_name "metrics.json" rt none "Alloc" 8 sync in
    let counter_out = sync_update_counter marshal temp_name "metrics.json" rt none "Alloc" 2 sync in
    let batch_out = sync_update_batch marshal temp_name "metrics.json" rt none (heap ∷ []) sync in
    ((gauge_out.0 ≡ (Memory.update_gauge "Alloc" 8 machine.memory).0)
      × IsSaved marshal "metrics.json"
          (Memory.update_gauge "Alloc" 8 machine.memory).1
          sync
          gauge_out.1)
    × ((counter_out.0 ≡ (Memory.update_counter "Alloc" 2 machine.memory).0)
        × IsSaved marshal "metrics.json"
            (Memory.update_counter "Alloc" 2 machine.memory).1
            sync
            counter_out.1)
    × (((e : Err) × (batch_out.0 ≡ some e) × (batch_out.1 ≡ sync))
        ⊎ ((batch_out.0 ≡ none)
            × IsSaved marshal "metrics.json"
                (Memory.update_batch (heap ∷ []) machine.memory).1
                sync
                batch_out.1))
sync_updates-IsSaved_example =
    sync_updates-IsSaved marshal temp_name "metrics.json" (quiet (Machine ℕ)) none (λ files. refl)
      (λ e k n u.
        let same = quiet_pause (save_config none) e k n u refl in
        (ap (λ p. p.1.files) same, ap (λ p. p.1.past) same, ap (λ p. p.1.memory) same))
      "Alloc" 8 2 heap [] sync

abbrev numbered : Option File → String
numbered none = "metrics.json.tmp-1"
numbered (some f) = "metrics.json.tmp-2"

-- CreateTemp, which counts the files that it finds.
abbrev next_name : Dict File → String
next_name files = numbered (lookup "metrics.json.tmp-1" files)

numbered_differs : (o : Option File) → str_eq (numbered o) "metrics.json" ≡ false
numbered_differs none = refl
numbered_differs (some f) = refl

abbrev encode_gauges : List (Metrics ℕ) → Result String
encode_gauges [] = ok "[]"
encode_gauges (m ∷ ms) = ok m.id

save_once-Overtaken_example :
    Overtaken encode_gauges next_name "metrics.json" "[]" "Alloc" new_mem_storage machine.memory []
      []
unfolding new_mem_storage prepare_file create_temp write_and_close file_write file_sync file_close
    chmod system_call snapshot lookup insert
save_once-Overtaken_example =
    save_once-Overtaken encode_gauges next_name "metrics.json" "[]" "Alloc" new_mem_storage
      machine.memory [] [] (λ files. numbered_differs _) refl refl refl
