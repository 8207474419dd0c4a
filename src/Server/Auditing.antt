-- ===== src/Server/Auditing.antt =====
-- cmd/server/main.go: newAuditor, and the function that it returns. The world is the list of the audit
-- files that are open.
pub mod Opened
use Prim.Native.String.{◌++◌}
use mathlib.Core.List.{◌++◌ as ◌++ₗ◌}
use svcmetrics.Base.{
  String, Bool, true, false, Option, none, some, List, [], ◌∷◌, str_eq, if◌then◌else◌,
}
use svcmetrics.Errors.{Err, Result, ok, err, text}
use svcmetrics.Audit.{Publisher, new_publisher, register, close}
use svcmetrics.Audit.Receivers.{
  Net, HttpObserver, new_http_observer, file_observer_name, http_observer_name,
}

-- What newAuditor returns: none is the nil auditor; the file is the one that the function closes.
pub record Auditor : Type 0 where
  pub publisher : Option Publisher
  pub file : Option String

-- f.Close()
unfoldable pub close_file : String → List String → List String
close_file path [] = []
close_file path (other ∷ rest) =
    let rest' = close_file path rest in if str_eq other path then rest else other ∷ rest'

abbrev pub close_opened : Option String → List String → List String
close_opened none files = files
close_opened (some path) files = close_file path files

unfoldable pub register_all : List String → Publisher → Publisher
register_all [] p = p
register_all (name ∷ names) p = register_all names (register name p)

abbrev pub file_names : Option String → List String
file_names none = []
file_names (some path) = file_observer_name path ∷ []

abbrev pub http_names : Option HttpObserver → List String
http_names none = []
http_names (some o) = http_observer_name o ∷ []

abbrev published : List String → Option Publisher
published [] = none
published (name ∷ names) = some (register_all (name ∷ names) (new_publisher none))

-- `open_file` is the error of os.OpenFile for a path, if any.
module _ {S : Type 0} (net : Net S) (open_file : String → Option Err) where
  -- NewFileObserver
  abbrev pub opened_file : String → Option Err → List String → Result (Option String) × List String
  opened_file path (some e) files = (err (text "open audit file" ∷ e), files)
  opened_file path none files = (ok (some path), path ∷ files)

  unfoldable pub file_receiver : String → List String → Result (Option String) × List String
  file_receiver path files =
      if str_eq path "" then (ok none, files) else opened_file path (open_file path) files

  abbrev checked_receiver : Option HttpObserver → Result (Option HttpObserver)
  checked_receiver none = err (text "audit URL must be an absolute http or https URL" ∷ [])
  checked_receiver (some o) = ok (some o)

  unfoldable pub http_receiver : String → Result (Option HttpObserver)
  http_receiver raw =
      if str_eq raw "" then ok none else checked_receiver (new_http_observer net raw)

  abbrev pub with_http :
      Option String → Result (Option HttpObserver) → List String → Result Auditor × List String
  with_http file (err e) files = (err e, close_opened file files)
  with_http file (ok http) files = (
    ok (record { publisher = published (file_names file ++ₗ http_names http); file = file }),
    files,
  )

  abbrev pub with_file :
      Result (Option HttpObserver)
      → Result (Option String) × List String
      → Result Auditor × List String
  with_file http (err e, files) = (err e, files)
  with_file http (ok file, files) = with_http file http files

  unfoldable pub new_auditor : String → String → List String → Result Auditor × List String
  new_auditor path raw files = with_file (http_receiver raw) (file_receiver path files)

-- closeAudit, where `drained` is whether the queues emptied in time.
abbrev pub after_drain : Bool → Option String → List String → List String
after_drain true file files = close_opened file files
after_drain false file files = files

unfoldable pub close_audit : Bool → Auditor → List String → Option Publisher × List String
close_audit drained a files = elim a.publisher [
  | none ↦ (none, files)
  | some p ↦ (some (close p), after_drain drained a.file files)
]
