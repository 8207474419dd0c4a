-- ===== src/Server/Router.antt =====
-- cmd/server/router.go and the logging of cmd/server/main.go: the chain of middleware around the batch
-- endpoint. chi's own middleware (CleanPath, Recoverer, Timeout) stands outside of it.
use svcmetrics.Base.{ℕ, ◌+◌, String, Option, none, some, List, [], ◌∷◌, if◌then◌else◌, ◌==◌}
use svcmetrics.Errors.{Err}
use svcmetrics.Repository.Storage.{Storage}
use svcmetrics.Handler.{Request, Response, Codec, status_ok}
use svcmetrics.Handler.Audit.{World}
use svcmetrics.Handler.Update.{updates_json_handler}
use svcmetrics.Hashing.{Crypto}
use svcmetrics.Handler.Hash.{
  Call, set_header, del_header, write_header, write, HttpRequest, HttpHandler, HashResponseWriter,
  hash_middleware,
}
use svcmetrics.Handler.Gzip.{Gzip, gzip_request_middleware, gzip_response_middleware}

-- responseWriter of main.go. `written` is what a Write of the writer below it answers.
pub record ResponseWriter : Type 0 where
  pub status_code : ℕ
  pub body_size : ℕ
  pub write_err : Option Err

abbrev pub first_error : Option Err → Option Err → Option Err
first_error (some e) _ = some e
first_error none e = e

unfoldable pub record_call : (String → ℕ × Option Err) → Call → ResponseWriter → ResponseWriter
record_call written (set_header k v) w = w
record_call written (del_header k) w = w
record_call written (write_header code) w = record w { status_code = code }
record_call written (write p) w = record w {
  body_size = w.body_size + (written p).0;
  write_err = first_error w.write_err (written p).1;
}

unfoldable pub record_calls :
    (String → ℕ × Option Err) → List Call → ResponseWriter → ResponseWriter
record_calls written [] w = w
record_calls written (call ∷ calls) w = record_calls written calls (record_call written call w)

-- The world of the handlers and the log. An entry of a request is the writer that recorded it; one
-- with an error of Write is logged as an error.
pub record Logged (W : Type 0) : Type 0 where
  pub world : W
  pub entries : List ResponseWriter

unfoldable pub logging_middleware :
    {W : Type 0} → (String → ℕ × Option Err) → HttpHandler W → HttpHandler (Logged W)
logging_middleware written next r w =
    let (calls, w') = next r w.world in
    let entry =
      record_calls written calls
        (record { status_code = status_ok; body_size = 0; write_err = none }) in
    (calls, record { world = w'; entries = entry ∷ w.entries })

-- The calls behind a response of UpdatesJSONHandler: its one success, or http.Error.
unfoldable pub updates_calls : Response → List Call
updates_calls r =
    if r.status == status_ok
    then (set_header "Content-Type" r.content_type ∷ write_header r.status ∷ write r.body ∷ [])
    else (del_header "Content-Length"
        ∷ set_header "Content-Type" r.content_type
        ∷ set_header "X-Content-Type-Options" "nosniff"
        ∷ write_header r.status
        ∷ write r.body
        ∷ [])

-- `incoming` is what a handler sees of a request of net/http.
unfoldable pub updates_endpoint :
    {S F : Type 0} → Codec F → Storage S F → (HttpRequest → Request) → HttpHandler (World S)
updates_endpoint c st incoming r w =
    let (response, w') = updates_json_handler c st (incoming r) w in (updates_calls response, w')

module _ {Z W : Type 0} (gz : Gzip Z) (cr : Crypto) (itoa : ℕ → String)
    (written : String → ℕ × Option Err) (key : String) (pooled : HashResponseWriter) where
  -- newRouter: the chain around an endpoint. The response has no header yet where the compression
  -- meets it: it is a new one, or the empty buffer of the signature.
  unfoldable pub new_router : HttpHandler W → HttpHandler (Logged W)
  new_router endpoint = logging_middleware written (
      hash_middleware cr itoa key pooled
        (gzip_request_middleware gz (gzip_response_middleware gz [] endpoint)))
