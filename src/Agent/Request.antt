-- ===== src/Agent/Request.antt =====
-- internal/agent/agent.go: sendBatch behind its check for an empty batch.
use svcmetrics.Base.{
  ℕ, String, false, Option, none, some, List, [], ◌∷◌, ◌||◌, str_eq, if◌then◌else◌, ltb, leb,
}
use svcmetrics.Base.Dict.{Dict, insert}
use svcmetrics.Errors.{Err, Result, ok, err, status}
use svcmetrics.Model.{Metrics}
use svcmetrics.Hashing.{Crypto, sum, hash_header}
use svcmetrics.Handler.Hash.{HttpRequest}

-- What sendBatch takes from the standard library: json.Encoder, a gzip.Writer that is closed, the error
-- of http.NewRequestWithContext for the address of the agent, and client.Do on a world `S`, which
-- answers a status.
pub record Client (S F : Type 0) : Type 0 where
  pub encode_batch : List (Metrics F) → Result String
  pub compress : String → Result String
  pub request_error : Option Err
  pub exchange : HttpRequest → S → Result ℕ × S

-- The answer of the server: a status other than 2xx is an error.
abbrev pub accepted_by : {S : Type 0} → Result ℕ × S → Option Err × S
accepted_by (err e, s) = (some e, s)
accepted_by (ok code, s) =
    if ltb code 200 || leb 300 code then (some (status code ∷ []), s) else (none, s)

module _ (c : Crypto) (key : String) where
  unfoldable pub request_header : String → Dict String
  request_header body =
      let plain : Dict String =
        insert "Accept-Encoding" "identity"
          (insert "Content-Encoding" "gzip" (insert "Content-Type" "application/json" [])) in
      if str_eq key "" then plain else insert hash_header (sum c body key) plain

  unfoldable pub new_request : String → HttpRequest
  new_request body = record {
    header = request_header body;
    body = record { content = body; broken = false };
  }

  module _ {S F : Type 0} (client : Client S F) where
    abbrev pub post : String → Option Err → S → Option Err × S
    post body (some e) s = (some e, s)
    post body none s = accepted_by (client.exchange (new_request body) s)

    abbrev pub post_compressed : Result String → S → Option Err × S
    post_compressed (err e) s = (some e, s)
    post_compressed (ok body) s = post body client.request_error s

    abbrev pub post_encoded : Result String → S → Option Err × S
    post_encoded (err e) s = (some e, s)
    post_encoded (ok json) s = post_compressed (client.compress json) s

    unfoldable pub post_batch : List (Metrics F) → S → Option Err × S
    post_batch ms s = post_encoded (client.encode_batch ms) s
