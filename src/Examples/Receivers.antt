-- ===== src/Examples/Receivers.antt =====
-- The receivers of audit events at concrete inputs.
use svcmetrics.Base.{ℕ, ◌≡◌, refl, none, some, List, [], ◌∷◌, ◌++◌, str_eq, if◌then◌else◌}
use mathlib.Core.Option.{none-ne-some, some-injective}
use svcmetrics.Audit.{Event}
use svcmetrics.Audit.FileLog as FileLog
use svcmetrics.Audit.FileLog.{file_updates}
use svcmetrics.Audit.FileLog.Lines.{lines, text_of, acknowledged, file_updates-lines}
use svcmetrics.Errors.{Result, ok}
use svcmetrics.Audit.Receivers.{
  HttpError, plain, url_error, Url, Net, HttpObserver, new_http_observer, http_update, refused_url,
}
use svcmetrics.Audit.Receivers.Redacted.{IsFlat, OnlyUrl, http_update-OnlyUrl}
use svcmetrics.Server.Auditing.{new_auditor}
use svcmetrics.Server.Auditing.Opened.{IsOpened, new_auditor-IsOpened}

-- A server that cannot be reached; the package puts the URL into its error.
abbrev pub net : Net ℕ
net = record {
  parse_url =
      λ raw. some (record { scheme = "https"; host = "audit.local"; secrets = "/?token=1" });
  url_string =
      λ u. if str_eq u.secrets "" then "https://audit.local" else "https://audit.local/?token=1";
  marshal_event = λ e. some "{}";
  request_error = λ url. none;
  exchange = λ url body n. ((some (url_error "Post" url (plain "refused")), 0), n);
}

abbrev event : Event
event = record { ts = 12; metrics = "Alloc" ∷ []; ip_address = "10.0.0.1" }

abbrev observer : HttpObserver
observer = record { url = "https://audit.local/?token=1"; safe_url = "https://audit.local" }

accepted : new_http_observer net "https://audit.local/?token=1" ≡ some observer
unfolding new_http_observer refused_url
accepted = refl

flat : (e : HttpError) → some (url_error "Post" observer.url (plain "refused")) ≡ some e → IsFlat e
flat e h = rw (← some-injective _ _ h) refl

http_update-OnlyUrl_example :
    OnlyUrl "https://audit.local" (http_update net observer event 0).0
    × ((u : Url) × (net.parse_url "https://audit.local/?token=1" ≡ some u)
        × ("https://audit.local" ≡ net.url_string (record u { secrets = "" })))
http_update-OnlyUrl_example =
    http_update-OnlyUrl net "https://audit.local/?token=1" observer event 0 accepted
      (λ e h. absurd (none-ne-some e h)) (λ body e h. flat e h)

new_auditor-IsOpened_example :
    IsOpened net
      (λ path. none)
      "audit.log"
      "https://audit.local/?token=1"
      []
      (new_auditor net (λ path. none) "audit.log" "https://audit.local/?token=1" [])
new_auditor-IsOpened_example =
    new_auditor-IsOpened net (λ path. none) "audit.log" "https://audit.local/?token=1" []

-- JSON of the timestamp alone.
abbrev stamped : Event → Result (List ℕ)
stamped e = ok (b'{' ∷ e.ts ∷ b'}' ∷ [])

-- The first write breaks off.
abbrev steps : List (Event × FileLog.Outcome)
steps = (event, FileLog.failed (b'{' ∷ []) []) ∷ (event, FileLog.done) ∷ []

file_updates-lines_example :
    let (answers, content) = file_updates stamped steps (text_of []) in
    lines content ≡ [] ++ acknowledged stamped [] steps answers
file_updates-lines_example =
    file_updates-lines stamped steps []
      ((refl, (refl, (refl, tt))), (refl, tt), ((refl, (refl, (refl, tt))), tt, tt)) tt
