-- ===== src/Environment.antt =====
-- cmd/server/main.go and cmd/agent/main.go: a flag under its environment variable. A variable that is
-- not set reads as the empty text.
use svcmetrics.Base.{String, str_eq, if◌then◌else◌}
use svcmetrics.Errors.{Result, ok, err, text}
use svcmetrics.Base.{◌∷◌}

-- if env := os.Getenv(...); env != "" { *flag = env }
abbrev pub overridden : String → String → String
overridden set flag = if str_eq set "" then flag else set

-- The same behind a parse whose error is fatal.
abbrev pub parsed_or_fatal : {A : Type 0} → String → Result A → Result A
parsed_or_fatal reason (ok a) = ok a
parsed_or_fatal reason (err e) = err (text reason ∷ e)

abbrev pub parsed_override : {A : Type 0} → String → (String → Result A) → String → A → Result A
parsed_override reason parse set flag =
    if str_eq set "" then ok flag else parsed_or_fatal reason (parse set)

-- The same where its error keeps the flag.
abbrev pub parsed_or_kept : {A : Type 0} → A → Result A → A
parsed_or_kept flag (ok a) = a
parsed_or_kept flag (err e) = flag

abbrev pub kept_override : {A : Type 0} → (String → Result A) → String → A → A
kept_override parse set flag = if str_eq set "" then flag else parsed_or_kept flag (parse set)
