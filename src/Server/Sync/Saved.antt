-- ===== src/Server/Sync/Saved.antt =====
-- The file of syncStorage behind a write.
use svcmetrics.Base.{
  ℕ, ◌≡◌, refl, ◌∙◌, String, Option, none, some, List, ◌∷◌, ◌⊎◌, inl, inr, str_eq, false,
}
use svcmetrics.Base.Dict.{Dict}
use svcmetrics.Base.Word.{Int64}
use svcmetrics.Errors.{Err, Result, ok, err}
use svcmetrics.Model.{Metrics}
use svcmetrics.Retry.{Runtime, pause_after}
use svcmetrics.Repository.Memory
use svcmetrics.Repository.Memory.{MemStorage, apply_aggregated, apply_all}
use svcmetrics.Repository.Batch.{aggregate_batch}
use svcmetrics.Repository.Memory.Save.{File, Machine, save, save_config}
use svcmetrics.Repository.Memory.Save.Atomic.{HoldsSnapshot, IsAtomic, save-IsAtomic}
use svcmetrics.Server.Sync.{
  SyncStorage, logged, sync_save, written_batch, sync_update_gauge, sync_update_counter,
  sync_update_batch,
}

module _ {F : Type 0} (marshal : List (Metrics F) → Result String) (path : String) where
  -- Behind a write that left the storage `memory`: the file is the snapshot of it, or the save
  -- failed and its error is logged.
  abbrev pub IsSaved : MemStorage F → SyncStorage F → SyncStorage F → Type 0
  IsSaved memory s s' =
      (s'.machine.memory ≡ memory)
      × (((s'.log ≡ s.log) × HoldsSnapshot marshal path (λ m. m ≡ memory) s'.machine)
          ⊎ ((e : Err) × (s'.log ≡ e ∷ s.log)))

  logged-IsSaved :
      (memory : MemStorage F) (s : SyncStorage F) (d : Machine F) (out : Option Err × Machine F)
      → IsAtomic marshal path (λ m. m ≡ memory) d out
      → IsSaved memory s (record { machine = out.1; log = logged s.log out.0 })
  logged-IsSaved memory s d out (kept, inl (n, held)) = (kept.2, inl (rw n refl, held))
  logged-IsSaved memory s d out (kept, inr (e, h)) = (kept.2, inr (e, rw h refl))

module _ {F : Type 0} (marshal : List (Metrics F) → Result String) (temp_name : Dict File → String)
    (path : String) (rt : Runtime (Machine F))
    (on_retry : Option (Err → ℕ → Int64 → Machine F → Machine F))
    (other : (files : Dict File) → str_eq (temp_name files) path ≡ false)
    (leaves_machine : (e : Err) (k : ℕ) (n : Int64) (u : Machine F)
      → let u' = (pause_after rt (save_config on_retry) e k n u).1 in
        (u'.files ≡ u.files) × (u'.past ≡ u.past) × (u'.memory ≡ u.memory)) where
  sync_save-IsSaved :
      (memory : MemStorage F) (s : SyncStorage F)
      → IsSaved marshal path memory s (sync_save marshal temp_name path rt on_retry memory s)
  unfolding sync_save
  sync_save-IsSaved memory s =
      let d : Machine F = record s.machine { memory = memory } in
      let saved =
        save-IsAtomic marshal temp_name path rt on_retry (λ m. m ≡ memory) d other
          (λ e k n u.
            let (files, past, same) = leaves_machine e k n u in (files, past, λ h. same ∙ h))
          refl in
      logged-IsSaved marshal path memory s d (save marshal temp_name path rt on_retry d) saved

  written_batch-IsSaved :
      (m : Metrics F) (ms : List (Metrics F)) (r : Result (List (Metrics F))) (s : SyncStorage F)
      → let stored = apply_aggregated r s.machine.memory in
        let out = written_batch marshal temp_name path rt on_retry (m ∷ ms) s stored in
        ((e : Err) × (out.0 ≡ some e) × (out.1 ≡ s))
        ⊎ ((out.0 ≡ none) × IsSaved marshal path stored.1 s out.1)
  written_batch-IsSaved m ms (err e) s = inl (e, refl, refl)
  written_batch-IsSaved m ms (ok batch) s =
      inr (refl, sync_save-IsSaved (apply_all batch s.machine.memory) s)

  -- Where the name of a temporary file is not the path, and pauses change neither the files nor
  -- the storage: behind a gauge, a counter or a batch that syncStorage took, which answer what
  -- MemStorage answers, the file is the snapshot of the storage in memory, or the save failed and
  -- its error is logged; a batch with an error changes nothing.
  pub sync_updates-IsSaved :
      (name : String) (v : F) (n : Int64) (m : Metrics F) (ms : List (Metrics F))
      (s : SyncStorage F)
      → let gauge = sync_update_gauge marshal temp_name path rt on_retry name v s in
        let counter = sync_update_counter marshal temp_name path rt on_retry name n s in
        let batch = sync_update_batch marshal temp_name path rt on_retry (m ∷ ms) s in
        let memory = s.machine.memory in
        ((gauge.0 ≡ (Memory.update_gauge name v memory).0)
          × IsSaved marshal path (Memory.update_gauge name v memory).1 s gauge.1)
        × ((counter.0 ≡ (Memory.update_counter name n memory).0)
            × IsSaved marshal path (Memory.update_counter name n memory).1 s counter.1)
        × (((e : Err) × (batch.0 ≡ some e) × (batch.1 ≡ s))
            ⊎ ((batch.0 ≡ none)
                × IsSaved marshal path (Memory.update_batch (m ∷ ms) memory).1 s batch.1))
  unfolding sync_update_gauge sync_update_counter sync_update_batch Memory.update_gauge
      Memory.update_counter Memory.update_batch
  sync_updates-IsSaved name v n m ms s = (
    (refl, sync_save-IsSaved _ s),
    (refl, sync_save-IsSaved _ s),
    written_batch-IsSaved m ms (aggregate_batch (m ∷ ms)) s,
  )
