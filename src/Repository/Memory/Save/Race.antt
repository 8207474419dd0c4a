-- ===== src/Repository/Memory/Save/Race.antt =====
-- internal/repository/memory.go: two calls of Save that run beside each other. The lock guards the
-- snapshot only, so the calls of the one may come between those of the other.
use svcmetrics.Base.{
  ◌≡◌, refl, ◌∙◌, ap, eq_iff, arith, String, true, false, Option, none, some, List, [], ◌∷◌, str_eq,
}
use mathlib.Core.Path.{fun_ext}
use svcmetrics.Base.Dict.{
  Dict, lookup, insert, erase, lookup-insert, lookup-insert_self, lookup-erase, dict_laws,
}
use svcmetrics.Errors.{Err, Result, ok}
use svcmetrics.Model.{Metrics}
use svcmetrics.Repository.Memory.{MemStorage, snapshot}
use svcmetrics.Repository.Memory.Save.{
  File, Machine, Io, system_call, and_then, or_cleanup, create_temp, file_write, file_sync,
  file_close, chmod, rename, remove, write_and_close, replace_file, save_once,
}

module _ {F : Type 0} where
  -- save behind the encoder up to its last call, and that call.
  unfoldable pub prepare_file : String → String → Io F
  prepare_file tmp bytes d = and_then (create_temp tmp d) (λ d₁.
      and_then (or_cleanup (remove tmp) (write_and_close tmp bytes d₁))
        (λ d₂. or_cleanup (remove tmp) (chmod d₂)))

  unfoldable pub promote_file : String → String → Io F
  promote_file path tmp d = or_cleanup (remove tmp) (rename tmp path d)

  and_then_assoc :
      (o : Option Err × Machine F) (f g : Io F)
      → and_then o (λ d. and_then (f d) g) ≡ and_then (and_then o f) g
  and_then_assoc (none, d) f g = refl
  and_then_assoc (some e, d) f g = refl

  -- The two are save.
  pub replace_file-prepare_file :
      (path tmp bytes : String) (d : Machine F)
      → replace_file path tmp bytes d ≡ and_then (prepare_file tmp bytes d) (promote_file path tmp)
  unfolding replace_file prepare_file promote_file
  replace_file-prepare_file path tmp bytes d =
      ap (and_then (create_temp tmp d)) (
        fun_ext (λ d₁.
          and_then_assoc (or_cleanup (remove tmp) (write_and_close tmp bytes d₁))
            (λ d₂. or_cleanup (remove tmp) (chmod d₂)) (promote_file path tmp)))
      ∙ and_then_assoc (create_temp tmp d)
          (λ d₁.
            and_then (or_cleanup (remove tmp) (write_and_close tmp bytes d₁))
              (λ d₂. or_cleanup (remove tmp) (chmod d₂)))
          (promote_file path tmp)

  -- No system call fails.
  abbrev pub calm : MemStorage F → Dict File → List (Dict File) → Machine F
  calm memory files past = record { memory = memory; files = files; past = past; outcomes = [] }

  module _ (tmp bytes : String) (memory : MemStorage F) (files : Dict File)
      (past : List (Dict File)) where
    abbrev created : Dict File
    created = insert tmp (record { content = ""; synced = false }) files

    abbrev filled : Dict File
    filled = insert tmp (record { content = bytes; synced = false }) created

    abbrev prepared : Dict File
    prepared = insert tmp (record { content = bytes; synced = true }) filled

    prepare_file_done :
        prepare_file tmp bytes (calm memory files past)
        ≡ (none, calm memory prepared (prepared ∷ prepared ∷ filled ∷ created ∷ files ∷ past))
    unfolding prepare_file create_temp write_and_close file_write file_sync file_close chmod
        system_call
    prepare_file_done =
        rw (lookup-insert_self tmp (record { content = bytes; synced = false }) created) refl

    promote_file_done :
        (path : String)
        → lookup tmp files ≡ some (record { content = bytes; synced = true })
        → promote_file path tmp (calm memory files past) ≡ (
          none,
          calm memory
              (insert path (record { content = bytes; synced = true }) (erase tmp files))
              (files ∷ past),
        )
    unfolding promote_file rename system_call
    promote_file_done path h = rw h refl

  module _ (path tmp : String) (differs : str_eq tmp path ≡ false) (bytes : String)
      (memory : MemStorage F) (files : Dict File) (past : List (Dict File)) where
    abbrev replaced : Dict File
    replaced =
        insert path (record { content = bytes; synced = true })
          (erase tmp (prepared tmp bytes memory files past))

    replace_file_done :
        (past' : List (Dict File)) × (replace_file path tmp bytes (calm memory files past)
          ≡ (none, calm memory replaced past'))
    replace_file_done = (
      _,
      replace_file-prepare_file path tmp bytes (calm memory files past)
          ∙ ap (λ o. and_then o (promote_file path tmp))
              (prepare_file_done tmp bytes memory files past)
          ∙ promote_file_done tmp bytes memory (prepared tmp bytes memory files past) _ path (
              lookup-insert_self tmp (record { content = bytes; synced = true })
                (filled tmp bytes memory files past)),
    )

    lookup-replaced :
        (asked : String)
        → str_eq path asked ≡ false
        → str_eq tmp asked ≡ false
        → lookup asked replaced ≡ lookup asked files
    lookup-replaced asked p t = simp (lookup-insert, lookup-erase, p, t)

module _ {F : Type 0} (marshal : List (Metrics F) → Result String) (temp_name : Dict File → String)
    (path : String) where
  -- A save of the storage `old` has filled its file when one of the storage `new` begins, and is
  -- promoted when that one has ended. No call fails, and the older snapshot replaces the newer one.
  abbrev pub Overtaken :
      String → String → MemStorage F → MemStorage F → Dict File → List (Dict File) → Type 0
  Overtaken older newer old new files past =
      let first = prepare_file (temp_name files) older (calm old files past) in
      let second = save_once marshal temp_name path (record first.1 { memory = new }) in
      let last = promote_file path (temp_name files) second.1 in
      (first.0 ≡ none)
      × (second.0 ≡ none)
      × (last.0 ≡ none)
      × (lookup path second.1.files ≡ some (record { content = newer; synced = true }))
      × (lookup path last.1.files ≡ some (record { content = older; synced = true }))

  -- Where CreateTemp gives the two saves two names that are not the path, and no system call fails:
  -- a save of the storage `old` that has filled its file when a save of the storage `new` begins, and
  -- is promoted when that one has ended, replaces the newer snapshot by the older one, and neither save
  -- answers an error.
  pub save_once-Overtaken :
      (older newer : String) (old new : MemStorage F) (files : Dict File) (past : List (Dict File))
      → ((files : Dict File) → str_eq (temp_name files) path ≡ false)
      → let first = prepare_file (temp_name files) older (calm old files past) in
        str_eq (temp_name first.1.files) (temp_name files) ≡ false
        → marshal (snapshot old) ≡ ok older
        → marshal (snapshot new) ≡ ok newer
        → Overtaken older newer old new files past
  unfolding save_once
  save_once-Overtaken older newer old new files past other fresh _ encoded_new =
      let tmp = temp_name files in
      let made = prepared tmp older old files past in
      let at =
        lookup-insert_self tmp (record { content = older; synced = true })
          (filled tmp older old files past) in
      let differs : str_eq (temp_name made) tmp ≡ false =
        rw (prepare_file_done tmp older old files past) at fresh in
      let past₁ : List (Dict File) =
        made
        ∷ made
        ∷ filled tmp older old files past
        ∷ created tmp older old files past
        ∷ files
        ∷ past in
      let after = replaced path (temp_name made) (other made) newer new made past₁ in
      let (past₂, run) =
        replace_file_done path (temp_name made) (other made) newer new made past₁ in
      let kept : lookup tmp after ≡ some (record { content = older; synced = true }) =
        lookup-replaced path (temp_name made) (other made) newer new made past₁ tmp
          (ground (arith, other files, eq_iff tmp path, eq_iff path tmp)) differs
        ∙ at in
      rw
        (
          prepare_file_done tmp older old files past,
          encoded_new,
          run,
          promote_file_done tmp older new after past₂ path kept,
        )
        (refl, refl, refl, simp dict_laws, simp dict_laws)
