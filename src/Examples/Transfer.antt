-- ===== src/Examples/Transfer.antt =====
-- Compressed transfers at concrete inputs. The compressor of the example changes nothing.
use Prim.Native.String.{◌++◌}
use svcmetrics.Base.{
  ℕ, suc, ◌≡◌, ◌↔◌, refl, ap, arith, String, true, false, none, some, List, [], ◌∷◌, str_eq,
  if◌then◌else◌,
}
use svcmetrics.Base.Dict.{lookup, insert}
use svcmetrics.Errors.{ok, eof, canceled}
use svcmetrics.Pool.{get}
use svcmetrics.Handler.Gzip.Pooled.{IsGivenBack, serve_gzip, serve_gzip-IsGivenBack}
use svcmetrics.Model.{Metrics}
use svcmetrics.Hashing.{Crypto}
use svcmetrics.Repository.Memory.{MemStorage}
use svcmetrics.Repository.Memory
use svcmetrics.Repository.Storage.Memory.{mem_storage}
use svcmetrics.Handler.{Request, Codec, value, empty_body}
use svcmetrics.Handler.Audit.{World}
use svcmetrics.Handler.Hash.{HttpRequest, HttpHandler, HashResponseWriter, body_allowed}
use svcmetrics.Handler.Wire.{wire, unsent, copied}
use svcmetrics.Handler.Gzip.{Gzip, header_value, gzip_response_middleware}
use svcmetrics.Handler.Gzip.Plain.{joined, answer}
use svcmetrics.Handler.Gzip.Compressed.{streamed}
use svcmetrics.Handler.Gzip.Transparent.{Carries, gzip_response_middleware-Carries}
use svcmetrics.Agent.Report.{send_batch}
use svcmetrics.Agent.Request.{post_batch}
use svcmetrics.Server.Router.{Logged}
use svcmetrics.Server.Delivery.{connected, send_batch_stores}

abbrev pub gz : Gzip ℕ
gz = record {
  start = 0;
  write_chunk = λ p n. (p, suc n);
  finish = λ n. "";
  decompress = λ b. some b;
  parse_media_type = λ t. some t;
  contains = λ s t. str_eq s t;
}

streamed-joined : (n : ℕ) (ps : List String) → streamed gz (some n) ps ≡ joined ps
streamed-joined n [] = refl
streamed-joined n (p ∷ ps) = ap (λ s. p ++ s) (streamed-joined (suc n) ps)

restores :
    (p : String) (ps : List String)
    → gz.decompress (record { content = streamed gz none (p ∷ ps); broken = false })
      ≡ some (record { content = joined (p ∷ ps); broken = false })
restores p ps = rw (streamed-joined 1 ps) refl

abbrev asking : HttpRequest
asking = record {
  header = ("Accept-Encoding", "gzip") ∷ [];
  body = record { content = ""; broken = false };
}

abbrev page : HttpHandler ℕ
page r n = (answer (("Content-Type", "text/html") ∷ []) 200 ("<html>" ∷ "</html>" ∷ []), suc n)

plain_header : header_value "Content-Encoding" (copied (("Content-Type", "text/html") ∷ []) []) ≡ ""
unfolding header_value lookup insert
plain_header = refl

pub allows : body_allowed 200 ≡ true
unfolding body_allowed
allows = refl

gzip_response_middleware-Carries_example :
    let out = gzip_response_middleware gz [] page asking 0 in
    let plain = wire (page asking 0).0 (unsent []) in
    (out.1 ≡ 1)
    × Carries gz 200 plain.body "Content-Type" plain.sent_header (wire out.0 (unsent []))
gzip_response_middleware-Carries_example =
    gzip_response_middleware-Carries gz restores page asking 0 (("Content-Type", "text/html") ∷ [])
      [] 200 "<html>" ("</html>" ∷ []) "Content-Type" refl plain_header allows refl

abbrev polled : Metrics ℕ
polled = record { id = "PollCount"; mtype = "counter"; delta = some 2; value = none }

abbrev codec : Codec ℕ
codec = record {
  decode_metric = λ b. empty_body;
  decode_batch = λ b. if str_eq b "json" then value (some (polled ∷ [])) else empty_body;
  encode_metric = λ m. some m.id;
  execute_list = λ g c. ok "";
  parse_float = λ t. none;
  format_float = λ n. "";
  parse_int = λ t. none;
  format_int = λ n. "";
  error_text = λ e. "error";
  split_host_port = λ a. some a;
}

abbrev crypto : Crypto
crypto = record {
  hmac_sha256 = λ key body. key ++ body;
  hex_encode = λ b. b;
  hex_decode = λ t. some t;
}

abbrev incoming : HttpRequest → Request
incoming r = record {
  type_param = "";
  name_param = "";
  value_param = "";
  body = r.body.content;
  remote_addr = "10.0.0.1";
  now = 12;
}

abbrev fresh_writer : HashResponseWriter
fresh_writer = record { header = []; body = ""; status = 0; wrote_header = false }

abbrev idle : Logged (World (MemStorage ℕ))
idle = record {
  world = record { storage = record { gauges = []; counters = [] }; audited = true; notices = [] };
  entries = [];
}

send_batch_stores_example :
    let client =
      connected codec
        (mem_storage ℕ)
        incoming
        gz
        crypto
        (λ n. "")
        (λ p. (0, none))
        "key"
        fresh_writer
        (λ ms. ok "json")
        (λ t. ok t) in
    let out = send_batch (post_batch crypto "key" client) (polled ∷ []) idle in
    let stored = Memory.update_batch (polled ∷ []) idle.world.storage in
    ((out.0 ≡ none) ↔ (stored.0 ≡ none)) × (out.1.world.storage ≡ stored.1)
send_batch_stores_example =
    send_batch_stores codec (mem_storage ℕ) incoming gz crypto (λ n. "") (λ p. (0, none)) "key"
      fresh_writer (λ ms. ok "json") (λ t. ok t) polled [] idle "json" "json" (λ b. refl) refl refl
      (λ r e. refl) refl refl refl refl (omega arith)

-- The handler closes the body too, and both closes of the first time fail.
serve_gzip-IsGivenBack_example :
    IsGivenBack {B = String} none
      (some (eof ∷ canceled ∷ []))
      []
      (record { pool = []; closes = 0 })
      (serve_gzip none
        ((some (eof ∷ []), some (canceled ∷ [])) ∷ [])
        (none, none)
        0
        "body"
        (record { pool = []; closes = 0 }))
unfolding get
serve_gzip-IsGivenBack_example =
    serve_gzip-IsGivenBack none ((some (eof ∷ []), some (canceled ∷ [])) ∷ []) (none, none) 0 "body"
      (record { pool = []; closes = 0 })
