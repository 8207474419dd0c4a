-- ===== src/Handler/Hash.antt =====
-- internal/handler/hash.go and reset.gen.go: the middleware that checks the signature of a request
-- and signs the response. A handler is what it does to its ResponseWriter, as a list of calls, and to
-- the world.
pub mod Signed
use Prim.Native.String.{◌++◌, len}
use svcmetrics.Base.{
  ℕ, ◌*◌, String, Bool, true, false, not, ◌&&◌, ◌||◌, Option, none, some, List, [], ◌∷◌, str_eq,
  if◌then◌else◌, ltb, leb, ◌==◌, get_or,
}
use mathlib.Core.List.{◌++◌ as ◌++ₗ◌}
use svcmetrics.Base.Dict.{Dict, lookup, insert, erase}
use svcmetrics.Handler.{Response, status_ok, bad_request}
use svcmetrics.Hashing.{Crypto, hash_header, no_signature, sum, equal}

pub data Call : Type 0 where
  set_header : String → String → Call
  del_header : String → Call
  write_header : ℕ → Call
  write : String → Call

-- What a body yields before it ends, and whether its end is a failure to read.
pub record Body : Type 0 where
  pub content : String
  pub broken : Bool

pub record HttpRequest : Type 0 where
  pub header : Dict String
  pub body : Body

abbrev pub HttpHandler : Type 0 → Type 0
HttpHandler W = HttpRequest → W → List Call × W

abbrev pub max_signed_body_size : ℕ
max_signed_body_size = 10 * 1048576

abbrev pub request_entity_too_large : ℕ
request_entity_too_large = 413

pub record HashResponseWriter : Type 0 where
  pub header : Dict String
  pub body : String
  pub status : ℕ
  pub wrote_header : Bool

-- The generated Reset.
unfoldable pub reset : HashResponseWriter → HashResponseWriter
reset w = record { header = []; body = ""; status = 0; wrote_header = false }

-- newHashResponseWriter, from what the pool hands out.
unfoldable pub new_hash_response_writer : HashResponseWriter → HashResponseWriter
new_hash_response_writer w = record w { status = status_ok }

-- WriteHeader: only the first call counts.
unfoldable pub writer_write_header : ℕ → HashResponseWriter → HashResponseWriter
writer_write_header status w =
    if w.wrote_header then w else record w { status = status; wrote_header = true }

unfoldable pub writer_write : String → HashResponseWriter → HashResponseWriter
unfolding writer_write_header
writer_write p w = let w' = writer_write_header status_ok w in record w' { body = w'.body ++ p }

-- A call of the buffered writer.
unfoldable pub buffer_call : Call → HashResponseWriter → HashResponseWriter
unfolding writer_write
buffer_call (set_header k v) w = record w { header = insert k v w.header }
buffer_call (del_header k) w = record w { header = erase k w.header }
buffer_call (write_header status) w = writer_write_header status w
buffer_call (write p) w = writer_write p w

unfoldable pub buffer : List Call → HashResponseWriter → HashResponseWriter
unfolding buffer_call
buffer [] w = w
buffer (call ∷ calls) w = buffer calls (buffer_call call w)

unfoldable pub body_allowed : ℕ → Bool
body_allowed status =
    if leb 100 status && ltb status 200 then false else not (status == 204) && not (status == 304)

unfoldable pub unsigned : String → Bool
unsigned sig = str_eq sig "" || str_eq sig no_signature

-- http.Error, as calls.
abbrev pub error_calls : String → ℕ → List Call
error_calls message code =
    del_header "Content-Length"
    ∷ set_header "Content-Type" "text/plain; charset=utf-8"
    ∷ set_header "X-Content-Type-Options" "nosniff"
    ∷ write_header code
    ∷ write (message ++ "\n")
    ∷ []

-- maps.Copy(w.Header(), rw.header)
unfoldable pub header_calls : Dict String → List Call
header_calls [] = []
header_calls ((k, v) ∷ rest) = set_header k v ∷ header_calls rest

module _ (c : Crypto) (itoa : ℕ → String) (key : String) where
  -- The calls of the real writer behind the buffered response.
  unfoldable pub signed_calls : HashResponseWriter → List Call
  unfolding header_calls
  signed_calls w =
      header_calls w.header
      ++ₗ set_header hash_header (sum c w.body key)
        ∷ (if body_allowed w.status
            then set_header "Content-Length" (itoa (len w.body))
            else del_header "Content-Length")
        ∷ write_header w.status
        ∷ write w.body
        ∷ []

module _ {W : Type 0} (c : Crypto) (itoa : ℕ → String) (key : String) where
  -- The switch over the signature: what the next handler, or a rejection, does to the buffer.
  unfoldable pub verified : String → HttpHandler W → HttpHandler W
  verified sig next r w =
      if ltb max_signed_body_size (len r.body.content)
      then (error_calls "Request body too large" request_entity_too_large, w)
      else if r.body.broken
      then (error_calls "Failed to read request body" bad_request, w)
      else if not (equal c sig r.body.content key)
      then (error_calls "Invalid request hash" bad_request, w)
      else next (record r { body = record { content = r.body.content; broken = false } }) w

  unfoldable pub checked : HttpHandler W → HttpHandler W
  checked next r w =
      let sig = get_or "" (lookup hash_header r.header) in
      if unsigned sig then next r w else verified sig next r w

  abbrev signed : HashResponseWriter → List Call × W → List Call × W
  signed pooled (calls, w) =
      (signed_calls c itoa key (buffer calls (new_hash_response_writer pooled)), w)

  -- HashMiddleware, with the writer that its pool hands out.
  unfoldable pub hash_middleware : HashResponseWriter → HttpHandler W → HttpHandler W
  hash_middleware pooled next r w =
      if str_eq key "" then next r w else signed pooled (checked next r w)
