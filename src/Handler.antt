-- ===== src/Handler.antt =====
-- internal/handler: the requests and the responses of net/http as the handlers use them, the
-- shared error answer and the port of the audit.
pub mod Audit
pub mod Update
pub mod Value
pub mod Hash
pub mod Wire
pub mod Gzip
pub mod RoundTrip
use Prim.Native.String.{◌++◌}
use svcmetrics.Base.{ℕ, String, Bool, Option, none, some, List, if◌then◌else◌}
use svcmetrics.Base.Word.{Int64}
use svcmetrics.Base.Dict.{Dict}
use svcmetrics.Model.{Metrics}
use svcmetrics.Errors.{Err, Result, has, is_not_found, is_invalid_metric, is_deadline_exceeded}

pub record Request : Type 0 where
  -- chi.URLParam of the three names
  pub type_param : String
  pub name_param : String
  pub value_param : String
  pub body : String
  pub remote_addr : String
  -- the time at which the handler asks for it
  pub now : ℕ

pub record Response : Type 0 where
  pub status : ℕ
  pub content_type : String
  pub body : String

-- What json.Decode makes of a body: a value, io.EOF or another error.
pub data Decoded (A : Type 0) : Type 0 where
  value : A → Decoded A
  empty_body : Decoded A
  malformed : Decoded A

-- What the handlers take from the standard library. A batch that decodes to none is a nil slice;
-- an encoder that answers none has failed.
pub record Codec (F : Type 0) : Type 0 where
  pub decode_metric : String → Decoded (Metrics F)
  pub decode_batch : String → Decoded (Option (List (Metrics F)))
  pub encode_metric : Metrics F → Option String
  pub execute_list : Dict F → Dict Int64 → Result String
  pub parse_float : String → Option F
  pub format_float : F → String
  pub parse_int : String → Option Int64
  pub format_int : Int64 → String
  pub error_text : Err → String
  -- the host of net.SplitHostPort
  pub split_host_port : String → Option String

-- http.Error
unfoldable pub http_error : String → ℕ → Response
http_error message code = record {
  status = code;
  content_type = "text/plain; charset=utf-8";
  body = message ++ "\n";
}

abbrev pub status_ok : ℕ
status_ok = 200

abbrev pub bad_request : ℕ
bad_request = 400

abbrev pub status_not_found : ℕ
status_not_found = 404

abbrev pub internal_server_error : ℕ
internal_server_error = 500

abbrev pub gateway_timeout : ℕ
gateway_timeout = 504

-- The status of a storage error.
unfoldable pub storage_status : Err → ℕ
storage_status e =
    if has is_not_found e
    then status_not_found
    else if has is_invalid_metric e
    then bad_request
    else if has is_deadline_exceeded e
    then gateway_timeout
    else internal_server_error

unfoldable pub write_storage_error : {F : Type 0} → Codec F → Err → Response
unfolding http_error storage_status
write_storage_error c e = http_error (c.error_text e) (storage_status e)
