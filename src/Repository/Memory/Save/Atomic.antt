-- ===== src/Repository/Memory/Save/Atomic.antt =====
-- The file at the path of Save is never half written.
use svcmetrics.Base.{
  ℕ, ◌≡◌, refl, sym, String, true, false, Option, none, some, List, [], str_eq, ◌⊎◌, inl, inr,
}
use mathlib.Core.Path.{subst}
use mathlib.Core.Option.{none-ne-some}
use svcmetrics.Base.Dict.{Dict, lookup}
use svcmetrics.Base.Word.{Int64}
use svcmetrics.Errors.{Err, Result, ok, err}
use svcmetrics.Model.{Metrics}
use svcmetrics.Retry.{Runtime, do_op, pause_after}
use svcmetrics.Retry.Runs.{do_value_induct}
use svcmetrics.Repository.Memory.{MemStorage, snapshot}
use svcmetrics.Repository.Memory.Save.{
  File, Machine, save_bytes, save_once, save_operation, save_config, save,
}
use svcmetrics.Repository.Memory.Save.Calls.{Leads, Whole, Since, Kept, replace_file-Leads}

-- The encoded snapshot of a storage that the memory passes through.
abbrev pub IsSnapshot :
    {F : Type 0} → (List (Metrics F) → Result String) → (MemStorage F → Type 0) → String → Type 0
IsSnapshot {F} marshal Passes bytes =
    (s : MemStorage F) × Passes s × (marshal (snapshot s) ≡ ok bytes)

module _ {F : Type 0} (marshal : List (Metrics F) → Result String) (temp_name : Dict File → String)
    (path : String) (old : Option File) (before : List (Dict File)) (Passes : MemStorage F → Type 0)
    (other : (files : Dict File) → str_eq (temp_name files) path ≡ false) where
  abbrev Holds : Machine F → Type 0
  Holds d =
      (b : String) × IsSnapshot marshal Passes b
      × (lookup path d.files ≡ some (record { content = b; synced = true }))

  abbrev KeptFile : Machine F → Type 0
  KeptFile = Kept path old before (IsSnapshot marshal Passes) Passes

  save_bytes-Leads :
      (r : Result String) (d : Machine F)
      → marshal (snapshot d.memory) ≡ r
      → KeptFile d
      → Leads KeptFile Holds (save_bytes marshal temp_name path r d)
  save_bytes-Leads (err e) d m k = (k, λ n. absurd (none-ne-some e (sym n)))
  save_bytes-Leads (ok bytes) d m k =
      replace_file-Leads path old before (IsSnapshot marshal Passes) (temp_name d.files)
        (other d.files) Passes bytes d (d.memory, k.2, m) k

  save_once-Leads :
      (d : Machine F) → KeptFile d → Leads KeptFile Holds (save_once marshal temp_name path d)
  unfolding save_once
  save_once-Leads d k = save_bytes-Leads _ d refl k

  module _ (rt : Runtime (Machine F)) (on_retry : Option (Err → ℕ → Int64 → Machine F → Machine F))
      (leaves_files : (e : Err) (k : ℕ) (n : Int64) (d : Machine F)
        → let d' = (pause_after rt (save_config on_retry) e k n d).1 in
          (d'.files ≡ d.files) × (d'.past ≡ d.past) × (Passes d.memory → Passes d'.memory)) where
    save-Kept :
        (d : Machine F)
        → KeptFile d
        → let (e, d') = save marshal temp_name path rt on_retry d in
          KeptFile d' × (e ≡ none → Holds d')
    unfolding save do_op
    save-Kept d k =
        do_value_induct rt (save_config on_retry) (save_operation marshal temp_name path) KeptFile
          (λ out. Leads KeptFile Holds (out.1, out.2)) (λ u h. save_once-Leads u h)
          (λ u res e v h call again. subst (λ p. KeptFile p.2) call (save_once-Leads u h).0)
          (λ e n p u h.
            let (files, past, passes) = leaves_files e n p u in
            (
              subst (Whole path old before (IsSnapshot marshal Passes)) (sym files) h.0,
              subst (Since path old before (IsSnapshot marshal Passes)) (sym past) h.1,
              passes h.2,
            ))
          (λ res e u again h. (h, λ n. absurd (none-ne-some e (sym n)))) d k

-- The file at the path is the whole of a snapshot.
abbrev pub HoldsSnapshot :
    {F : Type 0}
    → (List (Metrics F) → Result String)
    → String
    → (MemStorage F → Type 0)
    → Machine F
    → Type 0
HoldsSnapshot marshal path Passes d =
    (b : String) × IsSnapshot marshal Passes b
    × (lookup path d.files ≡ some (record { content = b; synced = true }))

-- A save that began at `d`: since then the path held what it held or the whole of a snapshot, and it
-- holds a snapshot where there is no error.
abbrev pub IsAtomic :
    {F : Type 0}
    → (List (Metrics F) → Result String)
    → String
    → (MemStorage F → Type 0)
    → Machine F
    → Option Err × Machine F
    → Type 0
IsAtomic marshal path Passes d out =
    Kept path (lookup path d.files) d.past (IsSnapshot marshal Passes) Passes out.1
    × (((out.0 ≡ none) × HoldsSnapshot marshal path Passes out.1) ⊎ ((e : Err) × (out.0 ≡ some e)))

error_or :
    {A : Type 0} (o : Option Err) → (o ≡ none → A) → ((o ≡ none) × A) ⊎ ((e : Err) × (o ≡ some e))
error_or none f = inl (refl, f refl)
error_or (some e) f = inr (e, refl)

module _ {F : Type 0} (marshal : List (Metrics F) → Result String) (temp_name : Dict File → String)
    (path : String) (rt : Runtime (Machine F))
    (on_retry : Option (Err → ℕ → Int64 → Machine F → Machine F))
    (Passes : MemStorage F → Type 0) where
  -- Where the name of a temporary file is not the path, and pauses leave the files alone and the
  -- memory within `Passes`: over every pattern of failed system calls and repeats, the path holds
  -- at every call what it held before or the whole of a snapshot, flushed to the disk, of a
  -- storage that the memory passes through, and Save ends with such a snapshot or with an error.
  pub save-IsAtomic :
      (d : Machine F)
      → ((files : Dict File) → str_eq (temp_name files) path ≡ false)
      → ((e : Err) (k : ℕ) (n : Int64) (u : Machine F)
          → let u' = (pause_after rt (save_config on_retry) e k n u).1 in
            (u'.files ≡ u.files) × (u'.past ≡ u.past) × (Passes u.memory → Passes u'.memory))
      → Passes d.memory
      → IsAtomic marshal path Passes d (save marshal temp_name path rt on_retry d)
  save-IsAtomic d other leaves passes =
      let (kept, held) =
        save-Kept marshal temp_name path (lookup path d.files) d.past Passes other rt on_retry
          leaves d (inl refl, ([], refl, tt), passes) in
      (kept, error_or _ held)
