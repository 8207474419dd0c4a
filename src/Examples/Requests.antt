-- ===== src/Examples/Requests.antt =====
-- Requests at concrete inputs. A float64 is a native number here, and the text of a number is in unary.
use svcmetrics.Base.{
  ℕ, zero, suc, ◌≤◌, ◌≡◌, ◌≢◌, refl, String, str_append, true, false, none, some, [], ◌∷◌, get_or,
  if◌then◌else◌, ◌==◌, ◌||◌, arith, str_eq, eq_iff,
}
use Prim.Native.String.{len}
use svcmetrics.Base.Dict.{lookup}
use svcmetrics.Base.Word.{add64}
use svcmetrics.Errors.{ok}
use svcmetrics.Model.{Metrics, counter}
use svcmetrics.Repository.Memory.{MemStorage}
use svcmetrics.Repository.Memory
use svcmetrics.Repository.Storage.Memory.{mem_storage, mem_storage-Contract}
use svcmetrics.Hashing.{Crypto, hash_header, equal}
use svcmetrics.Handler.{Request, value, empty_body, Codec, status_ok}
use svcmetrics.Handler.Audit.{World}
use svcmetrics.Handler.Update.{update_handler, update_json_handler, updates_json_handler}
use svcmetrics.Handler.Update.Outcome.{
  IsAnswered, IsDecoded, update_json_handler-IsDecoded, updates_json_handler-IsAnswered,
}
use svcmetrics.Handler.Value.{value_handler}
use svcmetrics.Handler.RoundTrip.{ReadsBack, counter-ReadsBack}
use svcmetrics.Handler.Hash.{
  write, HttpRequest, HttpHandler, HashResponseWriter, unsigned, checked, verified, reset,
  hash_middleware,
}
use svcmetrics.Handler.Wire.{wire, unsent}
use svcmetrics.Handler.Hash.Signed.{written, first_status, hash_middleware_signs}

abbrev unary : ℕ → String
unary zero = ""
unary (suc n) = str_append "1" (unary n)

abbrev counter_of : String → ℕ → Metrics ℕ
counter_of id d = record { id = id; mtype = counter; delta = some d; value = none }

abbrev codec : Codec ℕ
codec = record {
  decode_metric = λ b. if str_eq b "" then empty_body else value (counter_of b 2);
  decode_batch =
      λ b. if str_eq b "" then empty_body else value (some (counter_of b 2 ∷ counter_of b 3 ∷ []));
  encode_metric = λ m. some m.id;
  execute_list = λ g c. ok "";
  parse_float = λ t. if str_eq t "111" then some 3 else none;
  format_float = unary;
  parse_int = λ t. if str_eq t "11" then some 2 else none;
  format_int = unary;
  error_text = λ e. "error";
  split_host_port = λ a. some a;
}

abbrev store : MemStorage ℕ
store = record { gauges = ("Alloc", 7) ∷ []; counters = ("PollCount", 5) ∷ [] }

abbrev world : World (MemStorage ℕ)
world = record { storage = store; audited = true; notices = [] }

abbrev request : String → String → String → String → Request
request mtype name v body = record {
  type_param = mtype;
  name_param = name;
  value_param = v;
  body = body;
  remote_addr = "10.0.0.1";
  now = 12;
}

abbrev put_counter : Request
put_counter = request counter "PollCount" "11" ""

abbrev put_json : Request
put_json = request "" "" "" "PollCount"

differs : (s t : String) → str_eq s t ≡ false → s ≢ t
differs s t h e = ground (arith, eq_iff s t)

counter_stored : (update_handler codec (mem_storage ℕ) put_counter world).0.status ≡ status_ok
unfolding update_handler Memory.update_counter
counter_stored = refl

counter-ReadsBack_example :
    ReadsBack unary
      (add64 (get_or 0 (mem_storage-Contract.counter_of store "PollCount")) 2)
      ((mem_storage ℕ).get_counter "PollCount"
        (update_handler codec (mem_storage ℕ) put_counter world).1.storage).0
      (value_handler codec
        (mem_storage ℕ)
        put_counter
        (update_handler codec (mem_storage ℕ) put_counter world).1.storage).0
counter-ReadsBack_example =
    counter-ReadsBack codec (mem_storage ℕ) mem_storage-Contract put_counter put_counter world 2
      (differs "PollCount" "" refl) refl refl refl refl counter_stored

updates_json_handler-IsAnswered_example :
    IsAnswered codec
      (mem_storage ℕ)
      put_json
      world
      (codec.decode_batch "PollCount")
      (updates_json_handler codec (mem_storage ℕ) put_json world)
updates_json_handler-IsAnswered_example =
    updates_json_handler-IsAnswered codec (mem_storage ℕ) put_json world

update_json_handler-IsDecoded_example :
    IsDecoded codec
      (mem_storage ℕ)
      put_json
      world
      (codec.decode_metric "PollCount")
      (update_json_handler codec (mem_storage ℕ) put_json world)
update_json_handler-IsDecoded_example =
    update_json_handler-IsDecoded codec (mem_storage ℕ) put_json world

-- A digest that shows what it was made of, and a coding that changes nothing.
abbrev crypto : Crypto
crypto = record {
  hmac_sha256 = λ key body. str_append key body;
  hex_encode = λ b. b;
  hex_decode = λ t. some t;
}

abbrev signed_request : HttpRequest
signed_request = record {
  header = (hash_header, "keybody") ∷ [];
  body = record { content = "body"; broken = false };
}

abbrev next : HttpHandler ℕ
next r n = (write "done" ∷ [], suc n)

abbrev writer : HashResponseWriter
writer = record { header = []; body = "old"; status = 404; wrote_header = true }

final : 200 ≤ first_status (checked crypto unary "key" next signed_request 0).0
unfolding checked verified unsigned equal lookup
final = omega arith

hash_middleware_signs_example :
    let done = checked crypto unary "key" next signed_request 0 in
    let all = hash_middleware crypto unary "key" (reset writer) next signed_request 0 in
    let out = wire all.0 (unsent []) in
    let bare = first_status done.0 == 204 || first_status done.0 == 304 in
    (out.status ≡ some (first_status done.0))
    × (out.body ≡ (if bare then "" else written done.0))
    × (lookup hash_header out.sent_header ≡ some (str_append "key" (written done.0)))
    × (lookup "Content-Length" out.sent_header
        ≡ (if bare then none else some (unary (len (written done.0)))))
    × (all.1 ≡ done.1)
hash_middleware_signs_example =
    hash_middleware_signs crypto unary "key" next signed_request 0 [] writer (differs "key" "" refl)
      final
