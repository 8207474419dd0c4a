-- ===== src/Repository/Memory/Save/Calls.antt =====
-- What the system calls of Save keep at its path.
use svcmetrics.Base.{
  ◌≡◌, refl, sym, ◌∙◌, ap, String, Bool, true, false, Option, none, some, List, [], ◌∷◌, ◌++◌,
  str_eq, ◌⊎◌, inl, inr,
}
use mathlib.Core.Option.{none-ne-some}
use svcmetrics.Base.Dict.{Dict, lookup, insert, erase, lookup-insert, lookup-erase, dict_laws}
use svcmetrics.Errors.{Err}
use svcmetrics.Repository.Memory.{MemStorage}
use svcmetrics.Repository.Memory.Save.{
  File, Outcome, done, failed, Machine, Io, called, system_call, and_then, or_cleanup, create_temp,
  file_write, file_sync, file_close, chmod, rename, remove, write_and_close, replace_file,
}

module _ {F : Type 0} where
  -- What a call leads to: `P` holds behind it, and `Q` too where it succeeds.
  abbrev pub Leads : (Machine F → Type 0) → (Machine F → Type 0) → Option Err × Machine F → Type 0
  Leads P Q o = P o.1 × (o.0 ≡ none → Q o.1)

  and_then-Leads :
      (P Q R : Machine F → Type 0) (o : Option Err × Machine F) (next : Io F)
      → Leads P Q o
      → ((d : Machine F) → P d → Q d → Leads P R (next d))
      → Leads P R (and_then o next)
  and_then-Leads P Q R (some e, d) next h k = (h.0, λ n. absurd (none-ne-some e (sym n)))
  and_then-Leads P Q R (none, d) next h k = k d h.0 (h.1 refl)

  or_cleanup-Leads :
      (P Q : Machine F → Type 0) (cleanup : Io F) (o : Option Err × Machine F)
      → Leads P Q o
      → ((d : Machine F) → P d → P (cleanup d).1)
      → Leads P Q (or_cleanup cleanup o)
  or_cleanup-Leads P Q cleanup (some e, d) h k = (k d h.0, λ n. absurd (none-ne-some e (sym n)))
  or_cleanup-Leads P Q cleanup (none, d) h k = h

module _ (path : String) (old : Option File) (before : List (Dict File))
    (Good : String → Type 0) where
  -- What may stand at the path: what stood there, or the whole of some good bytes, flushed to the disk.
  abbrev pub Whole : Dict File → Type 0
  Whole files =
      (lookup path files ≡ old)
      ⊎ ((bytes : String) × Good bytes
          × (lookup path files ≡ some (record { content = bytes; synced = true })))

  abbrev AllWhole : List (Dict File) → Type 0
  AllWhole [] = Unit
  AllWhole (files ∷ rest) = Whole files × AllWhole rest

  Whole-same :
      (files files' : Dict File)
      → lookup path files' ≡ lookup path files
      → Whole files
      → Whole files'
  Whole-same files files' e (inl h) = inl (e ∙ h)
  Whole-same files files' e (inr (bytes, good, h)) = inr (bytes, good, e ∙ h)

  -- A history since `before`.
  abbrev pub Since : List (Dict File) → Type 0
  Since past = (recent : List (Dict File)) × (past ≡ recent ++ before) × AllWhole recent

  module _ {F : Type 0} (Passes : MemStorage F → Type 0) where
    -- Now and at every call since `before`; `Passes` holds of the storage in memory.
    abbrev pub Kept : Machine F → Type 0
    Kept d = Whole d.files × Since d.past × Passes d.memory

    later : (d : Machine F) → Kept d → Since (d.files ∷ d.past)
    later d k =
        let (recent, past, whole) = k.1 in
        (d.files ∷ recent, ap (λ l. d.files ∷ l) past, (k.0, whole))

    called-Leads :
        (Q : Dict File → Type 0) (good : Dict File → Dict File)
        (bad : String → Dict File → Dict File) (o : Outcome) (d : Machine F)
        → Kept d
        → Whole (good d.files)
        → Q (good d.files)
        → ((p : String) → Whole (bad p d.files))
        → Leads Kept (λ d. Q d.files) (called good bad o d)
    called-Leads Q good bad done d k w q b = ((w, later d k, k.2), λ _. q)
    called-Leads Q good bad (failed p e) d k w q b =
        ((b p, later d k, k.2), λ n. absurd (none-ne-some e (sym n)))

  module _ (tmp : String) (other : str_eq tmp path ≡ false) where
    inserted : (f : File) (files : Dict File) → Whole files → Whole (insert tmp f files)
    inserted f files w = Whole-same files (insert tmp f files) (rw (lookup-insert, other) refl) w

    erased : (files : Dict File) → Whole files → Whole (erase tmp files)
    erased files w = Whole-same files (erase tmp files) (rw (lookup-erase, other) refl) w

    -- The temporary file with some bytes.
    abbrev Temp : String → Bool → Dict File → Type 0
    Temp bytes synced files = lookup tmp files ≡ some (record { content = bytes; synced = synced })

    module _ {F : Type 0} (Passes : MemStorage F → Type 0) where
      abbrev KeptBy : Machine F → Type 0
      KeptBy = Kept Passes

      create_temp-Leads :
          (d : Machine F) → KeptBy d → Leads KeptBy (λ _. Unit {0}) (create_temp tmp d)
      unfolding create_temp system_call
      create_temp-Leads d k =
          called-Leads Passes (λ _. Unit {0}) _ _ _ d k (inserted _ d.files k.0) tt (λ p. k.0)

      file_write-Leads :
          (bytes : String) (d : Machine F)
          → KeptBy d
          → Leads KeptBy (λ d. Temp bytes false d.files) (file_write tmp bytes d)
      unfolding file_write system_call
      file_write-Leads bytes d k =
          called-Leads Passes (Temp bytes false) _ _ _ d k (inserted _ d.files k.0) (simp dict_laws)
            (λ p. inserted _ d.files k.0)

      file_sync-Leads :
          (bytes : String) (d : Machine F)
          → KeptBy d
          → Temp bytes false d.files
          → Leads KeptBy (λ d. Temp bytes true d.files) (file_sync tmp d)
      unfolding file_sync system_call
      file_sync-Leads bytes d k t =
          called-Leads Passes (Temp bytes true) _ _ _ d k (rw t (inserted _ d.files k.0))
            (rw t (simp dict_laws)) (λ p. k.0)

      same-Leads :
          (bytes : String) (d : Machine F)
          → KeptBy d
          → Temp bytes true d.files
          → Leads KeptBy (λ d. Temp bytes true d.files) (file_close d)
      unfolding file_close system_call
      same-Leads bytes d k t = called-Leads Passes (Temp bytes true) _ _ _ d k k.0 t (λ p. k.0)

      chmod-Leads :
          (bytes : String) (d : Machine F)
          → KeptBy d
          → Temp bytes true d.files
          → Leads KeptBy (λ d. Temp bytes true d.files) (chmod d)
      unfolding chmod system_call
      chmod-Leads bytes d k t = called-Leads Passes (Temp bytes true) _ _ _ d k k.0 t (λ p. k.0)

      file_close-Kept : (d : Machine F) → KeptBy d → KeptBy (file_close d).1
      unfolding file_close system_call
      file_close-Kept d k = (called-Leads Passes (λ _. Unit {0}) _ _ _ d k k.0 tt (λ p. k.0)).0

      remove-Kept : (d : Machine F) → KeptBy d → KeptBy (remove tmp d).1
      unfolding remove system_call
      remove-Kept d k =
          (called-Leads Passes (λ _. Unit {0}) _ _ _ d k (erased d.files k.0) tt (λ p. k.0)).0

      rename-Leads :
          (bytes : String) (d : Machine F)
          → Good bytes
          → KeptBy d
          → Temp bytes true d.files
          → Leads KeptBy
              (λ d. lookup path d.files ≡ some (record { content = bytes; synced = true }))
              (rename tmp path d)
      unfolding rename system_call
      rename-Leads bytes d g k t =
          called-Leads Passes
            (λ files. lookup path files ≡ some (record { content = bytes; synced = true })) _ _ _ d
            k (rw t (inr (bytes, g, simp dict_laws))) (rw t (simp dict_laws)) (λ p. k.0)

      write_and_close-Leads :
          (bytes : String) (d : Machine F)
          → KeptBy d
          → Leads KeptBy (λ d. Temp bytes true d.files) (write_and_close tmp bytes d)
      unfolding write_and_close
      write_and_close-Leads bytes d k =
          let written =
            or_cleanup-Leads KeptBy (λ d. Temp bytes false d.files) file_close
              (file_write tmp bytes d) (file_write-Leads bytes d k) file_close-Kept in
          and_then-Leads KeptBy (λ d. Temp bytes false d.files) (λ d. Temp bytes true d.files) _ _
            written
            (λ d₁ k₁ t₁.
              and_then-Leads KeptBy (λ d. Temp bytes true d.files) (λ d. Temp bytes true d.files) _
                _
                (or_cleanup-Leads KeptBy (λ d. Temp bytes true d.files) file_close _
                  (file_sync-Leads bytes d₁ k₁ t₁) file_close-Kept)
                (λ d₂ k₂ t₂. same-Leads bytes d₂ k₂ t₂))

      pub replace_file-Leads :
          (bytes : String) (d : Machine F)
          → Good bytes
          → KeptBy d
          → Leads KeptBy
              (λ d.
                (b : String) × Good b
                × (lookup path d.files ≡ some (record { content = b; synced = true })))
              (replace_file path tmp bytes d)
      unfolding replace_file
      replace_file-Leads bytes d g k =
          let T : Machine F → Type 0 = λ d. Temp bytes true d.files in
          let R : Machine F → Type 0 = λ d.
            (b : String) × Good b
            × (lookup path d.files ≡ some (record { content = b; synced = true })) in
          and_then-Leads KeptBy (λ _. Unit {0}) R _ _ (create_temp-Leads d k)
            (λ d₁ k₁ _.
              and_then-Leads KeptBy T R _ _
                (or_cleanup-Leads KeptBy T (remove tmp) _ (write_and_close-Leads bytes d₁ k₁)
                  remove-Kept)
                (λ d₂ k₂ t₂.
                  and_then-Leads KeptBy T R _ _
                    (or_cleanup-Leads KeptBy T (remove tmp) _ (chmod-Leads bytes d₂ k₂ t₂)
                      remove-Kept)
                    (λ d₃ k₃ t₃.
                      or_cleanup-Leads KeptBy R (remove tmp) _
                        (let l = rename-Leads bytes d₃ g k₃ t₃ in (l.0, λ n. (bytes, g, l.1 n)))
                        remove-Kept)))
