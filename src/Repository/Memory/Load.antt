-- ===== src/Repository/Memory/Load.antt =====
-- internal/repository/memory.go: Load, over the system calls of the package os.
use svcmetrics.Base.{
  ℕ, ◌≡◌, refl, sym, ◌∙◌, ap, String, Option, none, some, List, [], ◌∷◌, ◌⊎◌, inl, inr,
}
use mathlib.Core.Path.{subst}
use mathlib.Core.Option.{none-ne-some}
use svcmetrics.Base.Dict.{lookup}
use svcmetrics.Base.Word.{Int64}
use svcmetrics.Errors.{Err, Result, ok, err, errno, enoent, path_error, fs_not_exist}
use svcmetrics.Model.{Metrics}
use svcmetrics.Retry.{Runtime, Operation, do_value, pause_after}
use svcmetrics.Retry.Runs.{do_value_induct}
use svcmetrics.Repository.Memory.{MemStorage, load_entries}
use svcmetrics.Repository.Memory.Maps.{HasMaps, load_entries-HasMaps}
use svcmetrics.Repository.Memory.Save.{
  File, Outcome, done, failed, Machine, next_outcome, called, system_call, save_config,
}

abbrev content_of : Option File → String × Option Err
content_of none = ("", some (path_error ∷ errno enoent ∷ fs_not_exist ∷ []))
content_of (some f) = (f.content, none)

abbrev read_answer : Outcome → Option File → String × Option Err
read_answer done f = content_of f
read_answer (failed part e) f = (part, some e)

module _ {F : Type 0} where
  -- os.ReadFile
  unfoldable pub read_file : String → Operation (Machine F) String
  read_file path d =
      let (bytes, e) = read_answer (next_outcome d.outcomes) (lookup path d.files) in
      (bytes, e, (system_call (λ files. files) (λ p files. files) d).1)

  abbrev unmarshalled : Result (List (Metrics F)) → Machine F → Option Err × Machine F
  unmarshalled (err e) d = (some e, d)
  unmarshalled (ok metrics) d =
      let (e, memory) = load_entries metrics d.memory in (e, record d { memory = memory })

  abbrev loaded :
      (String → Result (List (Metrics F)))
      → String × Option Err × Machine F
      → Option Err × Machine F
  loaded unmarshal (bytes, some e, d) = (some e, d)
  loaded unmarshal (bytes, none, d) = unmarshalled (unmarshal bytes) d

  -- `unmarshal` is json.Unmarshal.
  unfoldable pub load :
      (String → Result (List (Metrics F)))
      → String
      → Runtime (Machine F)
      → Option (Err → ℕ → Int64 → Machine F → Machine F)
      → Machine F
      → Option Err × Machine F
  load unmarshal path rt on_retry d =
      loaded unmarshal (do_value rt (save_config on_retry) (read_file path) d)

-- An error that leaves the storage `m`, or what the entries make of it.
abbrev pub IsLoaded :
    {F : Type 0} → MemStorage F → List (Metrics F) → Option Err × Machine F → Type 0
IsLoaded m metrics out =
    ((e : Err) × (out.0 ≡ some e) × (out.1.memory ≡ m))
    ⊎ ((out.0 ≡ (load_entries metrics m).0) × (out.1.memory ≡ (load_entries metrics m).1))

-- What Load leads to where the file is `f` and the storage was `m`.
module _ {F : Type 0} (path : String) (f : File) (m : MemStorage F) where
  abbrev pub Stands : Machine F → Type 0
  Stands d = (lookup path d.files ≡ some f) × (d.memory ≡ m)

  abbrev Reads : String × Option Err × Machine F → Type 0
  Reads out = Stands out.2 × (out.1 ≡ none → out.0 ≡ f.content)

  called-Reads :
      (o : Outcome) (d : Machine F)
      → Stands d
      → let (bytes, e) = read_answer o (lookup path d.files) in
        Reads (bytes, e, (called (λ files. files) (λ p files. files) o d).1)
  called-Reads done d h = rw h.0 ((refl, h.1), λ _. refl)
  called-Reads (failed part e) d h = (h, λ n. absurd (none-ne-some e (sym n)))

  read_file-Reads : (d : Machine F) → Stands d → Reads (read_file path d)
  unfolding read_file system_call
  read_file-Reads d h = called-Reads (next_outcome d.outcomes) d h

  loaded-IsLoaded :
      (unmarshal : String → Result (List (Metrics F))) (metrics : List (Metrics F))
      (out : String × Option Err × Machine F)
      → unmarshal f.content ≡ ok metrics
      → Reads out
      → IsLoaded m metrics (loaded unmarshal out)
  loaded-IsLoaded unmarshal metrics (bytes, some e, d) u h = inl (e, refl, h.0.1)
  loaded-IsLoaded unmarshal metrics (bytes, none, d) u h =
      rw (h.1 refl, u) (inr (rw h.0.1 refl, rw h.0.1 refl))

  module _ (rt : Runtime (Machine F)) (on_retry : Option (Err → ℕ → Int64 → Machine F → Machine F))
      (leaves_machine : (e : Err) (k : ℕ) (n : Int64) (d : Machine F)
        → let d' = (pause_after rt (save_config on_retry) e k n d).1 in
          (d'.files ≡ d.files) × (d'.memory ≡ d.memory)) where
    do_value-Reads :
        (d : Machine F) → Stands d → Reads (do_value rt (save_config on_retry) (read_file path) d)
    do_value-Reads d h =
        do_value_induct rt (save_config on_retry) (read_file path) Stands Reads read_file-Reads
          (λ u res e v h call again. subst (λ p. Stands p.2) call (read_file-Reads u h).0)
          (λ e k n u h.
            let (files, memory) = leaves_machine e k n u in
            (ap (lookup path) files ∙ h.0, memory ∙ h.1))
          (λ res e u again h. (h, λ n. absurd (none-ne-some e (sym n)))) d h

    -- Over every pattern of failed reads: an error that leaves the storage, or what the entries of
    -- the file make of it.
    pub load-IsLoaded :
        (unmarshal : String → Result (List (Metrics F))) (metrics : List (Metrics F))
        (d : Machine F)
        → unmarshal f.content ≡ ok metrics
        → Stands d
        → IsLoaded m metrics (load unmarshal path rt on_retry d)
    unfolding load
    load-IsLoaded unmarshal metrics d u h =
        loaded-IsLoaded unmarshal metrics _ u (do_value-Reads d h)

-- Load keeps one entry for a key, whatever it reads.
module _ {F : Type 0} (path : String) (rt : Runtime (Machine F))
    (on_retry : Option (Err → ℕ → Int64 → Machine F → Machine F))
    (leaves_memory : (e : Err) (k : ℕ) (n : Int64) (d : Machine F)
      → (pause_after rt (save_config on_retry) e k n d).1.memory ≡ d.memory) where
  abbrev Mapped : Machine F → Type 0
  Mapped d = HasMaps d.memory

  called-Mapped :
      (o : Outcome) (d : Machine F)
      → Mapped d
      → Mapped (called (λ files. files) (λ p files. files) o d).1
  called-Mapped done d h = h
  called-Mapped (failed part e) d h = h

  read_file-Mapped : (d : Machine F) → Mapped d → Mapped (read_file path d).2
  unfolding read_file system_call
  read_file-Mapped d h = called-Mapped (next_outcome d.outcomes) d h

  unmarshalled-Mapped :
      (r : Result (List (Metrics F))) (d : Machine F) → Mapped d → Mapped (unmarshalled r d).1
  unmarshalled-Mapped (err e) d h = h
  unmarshalled-Mapped (ok metrics) d h = load_entries-HasMaps metrics d.memory h

  loaded-Mapped :
      (unmarshal : String → Result (List (Metrics F))) (out : String × Option Err × Machine F)
      → Mapped out.2
      → Mapped (loaded unmarshal out).1
  loaded-Mapped unmarshal (bytes, some e, d) h = h
  loaded-Mapped unmarshal (bytes, none, d) h = unmarshalled-Mapped (unmarshal bytes) d h

  pub load-HasMaps :
      (unmarshal : String → Result (List (Metrics F))) (d : Machine F)
      → HasMaps d.memory
      → HasMaps (load unmarshal path rt on_retry d).1.memory
  unfolding load
  load-HasMaps unmarshal d h = loaded-Mapped unmarshal _ (
      do_value_induct rt (save_config on_retry) (read_file path) Mapped (λ out. Mapped out.2)
        read_file-Mapped
        (λ u res e v h call again. subst (λ p. Mapped p.2) call (read_file-Mapped u h))
        (λ e k n u h. subst HasMaps (sym (leaves_memory e k n u)) h) (λ res e u again h. h) d h)
