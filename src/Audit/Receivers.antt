-- ===== src/Audit/Receivers.antt =====
-- internal/audit/file.go and http.go: the receivers of events, a file and a server. An error has the texts
-- that it prints, and the URLs that the package net/http puts in.
pub mod Redacted
use Prim.Native.String.{◌++◌}
use svcmetrics.Base.{
  ℕ, String, Bool, ◌&&◌, ◌||◌, not, Option, none, some, List, [], ◌∷◌, str_eq, if◌then◌else◌, ltb,
}
use svcmetrics.Audit.{Event}

pub data HttpError : Type 0 where
  plain : String → HttpError
  -- fmt.Errorf with %w
  wrapped : String → HttpError → HttpError
  -- *url.Error: what was done, the URL, and the error
  url_error : String → String → HttpError → HttpError

-- *url.URL, with its userinfo, path, query and fragment as one.
pub record Url : Type 0 where
  pub scheme : String
  pub host : String
  pub secrets : String

-- url.Parse, json.Marshal, http.NewRequestWithContext and client.Do, which posts a body to a URL in a
-- world `S` and answers a status.
pub record Net (S : Type 0) : Type 0 where
  pub parse_url : String → Option Url
  pub url_string : Url → String
  pub marshal_event : Event → Option String
  pub request_error : String → Option HttpError
  pub exchange : String → String → S → (Option HttpError × ℕ) × S

pub record HttpObserver : Type 0 where
  pub url : String
  pub safe_url : String

abbrev err_invalid_url : HttpError
err_invalid_url = plain "audit URL must be an absolute http or https URL"

-- errors.As for a *url.Error
unfoldable pub find_url_error : HttpError → Option (String × HttpError)
find_url_error (plain s) = none
find_url_error (wrapped s e) = find_url_error e
find_url_error (url_error op url e) = some (op, e)

abbrev replaced : String → HttpError → Option (String × HttpError) → HttpError
replaced safe_url e none = e
replaced safe_url e (some (op, inner)) = url_error op safe_url inner

unfoldable pub redact : HttpObserver → HttpError → HttpError
redact o e = replaced o.safe_url e (find_url_error e)

-- Name of the two receivers.
unfoldable pub file_observer_name : String → String
file_observer_name path = "file " ++ path

unfoldable pub http_observer_name : HttpObserver → String
http_observer_name o = "url " ++ o.safe_url

module _ {S : Type 0} (net : Net S) where
  unfoldable pub refused_url : Url → Bool
  refused_url u =
      (not (str_eq u.scheme "http") && not (str_eq u.scheme "https")) || str_eq u.host ""

  abbrev pub checked_url : String → Option Url → Option HttpObserver
  checked_url raw none = none
  checked_url raw (some u) =
      if refused_url u
      then none
      else some (record {
        url = raw;
        safe_url = net.url_string (record { scheme = u.scheme; host = u.host; secrets = "" });
      })

  -- NewHTTPObserver: none is ErrInvalidURL.
  unfoldable pub new_http_observer : String → Option HttpObserver
  new_http_observer raw = checked_url raw (net.parse_url raw)

  abbrev posted : HttpObserver → (Option HttpError × ℕ) × S → Option HttpError × S
  posted o ((some e, code), s) = (some (wrapped "send audit event" (redact o e)), s)
  posted o ((none, code), s) =
      if ltb code 200 || ltb 299 code
      then (some (plain "send audit event: unexpected status"), s)
      else (none, s)

  abbrev requested : HttpObserver → String → Option HttpError → S → Option HttpError × S
  requested o body (some e) s = (some (wrapped "build audit request" (redact o e)), s)
  requested o body none s = posted o (net.exchange o.url body s)

  abbrev encoded : HttpObserver → Option String → S → Option HttpError × S
  encoded o none s = (some (wrapped "encode audit event" (plain "json")), s)
  encoded o (some body) s = requested o body (net.request_error o.url) s

  -- Update of HTTPObserver
  unfoldable pub http_update : HttpObserver → Event → S → Option HttpError × S
  http_update o e s = encoded o (net.marshal_event e) s
