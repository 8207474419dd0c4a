-- ===== src/Audit/FileLog.antt =====
-- internal/audit/file.go: the updates of FileObserver. The file is the bytes of its content; another
-- process does not write to it.
pub mod Lines
use svcmetrics.Base.{ℕ, Option, none, some, List, [], ◌∷◌, ◌++◌}
use svcmetrics.Errors.{Err, Result, ok, err, text}
use svcmetrics.Audit.{Event}

-- What one call of Write answers: one that failed leaves some bytes behind.
pub data Outcome : Type 0 where
  done : Outcome
  failed : List ℕ → Err → Outcome

abbrev pub newline : ℕ
newline = 10

abbrev pub written_line : List ℕ → List ℕ → Outcome → Option Err × List ℕ
written_line line content done = (none, content ++ line)
written_line line content (failed part e) = (some (text "write audit event" ∷ e), content ++ part)

abbrev pub encoded_event : Result (List ℕ) → Outcome → List ℕ → Option Err × List ℕ
encoded_event (err e) o content = (some (text "encode audit event" ∷ e), content)
encoded_event (ok line) o content = written_line (line ++ newline ∷ []) content o

-- Update, where `marshal` is json.Marshal.
unfoldable pub file_update :
    (Event → Result (List ℕ)) → Event → Outcome → List ℕ → Option Err × List ℕ
file_update marshal e o content = encoded_event (marshal e) o content

-- The updates of the goroutine that delivers, with their answers.
unfoldable pub file_updates :
    (Event → Result (List ℕ)) → List (Event × Outcome) → List ℕ → List (Option Err) × List ℕ
file_updates marshal [] content = ([], content)
file_updates marshal ((e, o) ∷ rest) content =
    let (answer, content') = file_update marshal e o content in
    let (answers, content'') = file_updates marshal rest content' in (answer ∷ answers, content'')
