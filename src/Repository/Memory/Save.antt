-- ===== src/Repository/Memory/Save.antt =====
-- internal/repository/memory.go: Save, over the system calls of the package os. A file has the bytes
-- written to it, and whether they are on the disk, where a power failure leaves them.
pub mod Calls
pub mod Atomic
pub mod Race
use svcmetrics.Base.{ℕ, String, Bool, true, false, Option, none, some, List, [], ◌∷◌}
use svcmetrics.Base.Dict.{Dict, lookup, insert, erase}
use svcmetrics.Base.Word.{Int64}
use svcmetrics.Errors.{Err, Result, ok, err}
use svcmetrics.Model.{Metrics}
use svcmetrics.Retry.{Config, Runtime, Operation, do_op}
use svcmetrics.Repository.Retriable.{is_retriable_file_error}
use svcmetrics.Repository.Memory.{MemStorage, snapshot}

pub record File : Type 0 where
  pub content : String
  pub synced : Bool

-- What a system call answers; one that failed to write leaves some bytes behind.
pub data Outcome : Type 0 where
  done : Outcome
  failed : String → Err → Outcome

-- The storage in memory, the files, the files before each call (the last one first), and what the
-- calls to come answer.
pub record Machine (F : Type 0) : Type 0 where
  pub memory : MemStorage F
  pub files : Dict File
  pub past : List (Dict File)
  pub outcomes : List Outcome

abbrev pub next_outcome : List Outcome → Outcome
next_outcome [] = done
next_outcome (o ∷ _) = o

abbrev pub later_outcomes : List Outcome → List Outcome
later_outcomes [] = []
later_outcomes (_ ∷ os) = os

abbrev pub Io : Type 0 → Type 0
Io F = Machine F → Option Err × Machine F

abbrev same : Dict File → Dict File
same files = files

abbrev untouched : String → Dict File → Dict File
untouched p files = files

abbrev pub flushed : String → Option File → Dict File → Dict File
flushed name none files = files
flushed name (some f) files = insert name (record f { synced = true }) files

abbrev pub renamed : String → String → Option File → Dict File → Dict File
renamed old new none files = files
renamed old new (some f) files = insert new f (erase old files)

module _ {F : Type 0} where
  abbrev moved : Dict File → Machine F → Machine F
  moved files d = record {
    memory = d.memory;
    files = files;
    past = d.files ∷ d.past;
    outcomes = later_outcomes d.outcomes;
  }

  abbrev pub called : (Dict File → Dict File) → (String → Dict File → Dict File) → Outcome → Io F
  called good bad done d = (none, moved (good d.files) d)
  called good bad (failed p e) d = (some e, moved (bad p d.files) d)

  -- A call that changes the files by `good`, or by `bad` where it fails.
  unfoldable pub system_call : (Dict File → Dict File) → (String → Dict File → Dict File) → Io F
  system_call good bad d = called good bad (next_outcome d.outcomes) d

  -- if err := ...; err != nil { return err }
  abbrev pub and_then : Option Err × Machine F → Io F → Option Err × Machine F
  and_then (some e, d) next = (some e, d)
  and_then (none, d) next = next d

  -- What is done before an error is returned; its own error is dropped.
  abbrev pub or_cleanup : Io F → Option Err × Machine F → Option Err × Machine F
  or_cleanup cleanup (none, d) = (none, d)
  or_cleanup cleanup (some e, d) = (some e, (cleanup d).1)

  -- os.CreateTemp, (*os.File).Write, Sync and Close, os.Chmod, os.Rename and os.Remove
  unfoldable pub create_temp : String → Io F
  create_temp tmp =
      system_call (λ files. insert tmp (record { content = ""; synced = false }) files) untouched

  unfoldable pub file_write : String → String → Io F
  file_write tmp data_ =
      system_call (λ files. insert tmp (record { content = data_; synced = false }) files)
        (λ part files. insert tmp (record { content = part; synced = false }) files)

  unfoldable pub file_sync : String → Io F
  file_sync tmp = system_call (λ files. flushed tmp (lookup tmp files) files) untouched

  unfoldable pub file_close : Io F
  file_close = system_call same untouched

  unfoldable pub chmod : Io F
  chmod = system_call same untouched

  unfoldable pub rename : String → String → Io F
  rename tmp path = system_call (λ files. renamed tmp path (lookup tmp files) files) untouched

  unfoldable pub remove : String → Io F
  remove tmp = system_call (erase tmp) untouched

  unfoldable pub write_and_close : String → String → Io F
  write_and_close tmp bytes d =
      and_then (or_cleanup file_close (file_write tmp bytes d))
        (λ d₁. and_then (or_cleanup file_close (file_sync tmp d₁)) file_close)

  -- save behind the encoder; `tmp` is the name that CreateTemp makes up.
  unfoldable pub replace_file : String → String → String → Io F
  replace_file path tmp bytes d = and_then (create_temp tmp d) (λ d₁.
      and_then (or_cleanup (remove tmp) (write_and_close tmp bytes d₁)) (λ d₂.
        and_then (or_cleanup (remove tmp) (chmod d₂))
          (λ d₃. or_cleanup (remove tmp) (rename tmp path d₃))))

  abbrev pub save_config : Option (Err → ℕ → Int64 → Machine F → Machine F) → Config (Machine F)
  save_config on_retry = record {
    intervals = none;
    retriable = some (λ e. is_retriable_file_error (some e));
    on_retry = on_retry;
  }

  -- `marshal` is json.MarshalIndent, `temp_name` the choice of CreateTemp.
  module _ (marshal : List (Metrics F) → Result String) (temp_name : Dict File → String)
      (path : String) where
    abbrev pub save_bytes : Result String → Io F
    save_bytes (err e) d = (some e, d)
    save_bytes (ok bytes) d = replace_file path (temp_name d.files) bytes d

    unfoldable pub save_once : Io F
    save_once d = save_bytes (marshal (snapshot d.memory)) d

    abbrev pub save_operation : Operation (Machine F) (Unit {0})
    save_operation d = let (e, d') = save_once d in (tt, e, d')

    unfoldable pub save :
        Runtime (Machine F) → Option (Err → ℕ → Int64 → Machine F → Machine F) → Io F
    save rt on_retry d =
        let (_, e, d') = do_op rt (save_config on_retry) save_operation d in (e, d')
