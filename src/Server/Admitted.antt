-- ===== src/Server/Admitted.antt =====
-- A request of the agent through the middleware to an endpoint, and the status of its answer.
use svcmetrics.Base.{
  ℕ, ◌≡◌, refl, ◌∙◌, ap, String, Bool, true, false, some, [], str_eq, get_or, arith, if◌then◌else◌,
  ltb, Bool-cases, inl, inr, ◌≤◌, ◌==◌,
}
use Prim.Native.String.{len}
use svcmetrics.Base.Dict.{lookup, dict_laws}
use svcmetrics.Hashing.{Crypto, HexReads, hash_header, sum, equal-sum}
use svcmetrics.Agent.Request.{new_request, request_header}
use svcmetrics.Handler.{Response, status_ok}
use svcmetrics.Handler.Hash.{
  Body, body_allowed, HttpHandler, HashResponseWriter, hash_middleware, checked, unsigned,
  max_signed_body_size, buffer, new_hash_response_writer,
}
use svcmetrics.Handler.Wire.{Wire, wire, unsent}
use svcmetrics.Handler.Hash.Signed.{wire-signed_calls, admitted}
use svcmetrics.Handler.Gzip.{Gzip, header_value, gzip_request_middleware, gzip_response_middleware}
use svcmetrics.Server.Router.{updates_calls}

header-encoding :
    (c : Crypto) (key body : String)
    → header_value "Content-Encoding" (request_header c key body) ≡ "gzip"
unfolding header_value request_header
header-encoding c key body = elim (Bool-cases (str_eq key "")) [
  | inl e ↦ rw e (simp dict_laws)
  | inr e ↦ rw e (simp dict_laws)
]

header-accepted :
    (c : Crypto) (key body : String)
    → header_value "Accept-Encoding" (request_header c key body) ≡ "identity"
unfolding header_value request_header
header-accepted c key body = elim (Bool-cases (str_eq key "")) [
  | inl e ↦ rw e (simp dict_laws)
  | inr e ↦ rw e (simp dict_laws)
]

header-signature :
    (c : Crypto) (key body : String)
    → str_eq key "" ≡ false
    → get_or "" (lookup hash_header (request_header c key body)) ≡ sum c body key
unfolding request_header
header-signature c key body e = rw e (simp dict_laws)

status_once : (b : Bool) (w v : Wire) → w.status ≡ v.status → (if b then w else v).status ≡ v.status
status_once true w v e = e
status_once false w v e = refl

wire-updates_calls : (r : Response) → (wire (updates_calls r) (unsent [])).status ≡ some r.status
unfolding wire updates_calls
wire-updates_calls r = elim (Bool-cases (r.status == status_ok)) [
  | inl a ↦ rw a (status_once (body_allowed r.status) _ _ refl)
  | inr a ↦ rw a (status_once (body_allowed r.status) _ _ refl)
]

buffer-updates_calls :
    (r : Response) (w : HashResponseWriter)
    → w.wrote_header ≡ false
    → (buffer (updates_calls r) w).status ≡ r.status
unfolding buffer updates_calls
buffer-updates_calls r w e = elim (Bool-cases (r.status == status_ok)) [
  | inl a ↦ rw (a, e) refl
  | inr a ↦ rw (a, e) refl
]

module _ {Z W : Type 0} (gz : Gzip Z) (cr : Crypto) (itoa : ℕ → String) (key : String)
    (pooled : HashResponseWriter) where
  pub chain-new_request :
      (endpoint : HttpHandler W) (body : String) (b : Body) (w : W)
      → gz.decompress (record { content = body; broken = false }) ≡ some b
      → gz.contains "identity" "gzip" ≡ false
      → gzip_request_middleware gz
          (gzip_response_middleware gz [] endpoint)
          (new_request cr key body)
          w
        ≡ endpoint (record { header = request_header cr key body; body = b }) w
  unfolding gzip_request_middleware gzip_response_middleware new_request
  chain-new_request endpoint body b w restores identity =
      rw (header-encoding, restores, header-accepted, identity) refl

  checked-new_request :
      (next : HttpHandler W) (body : String) (w : W)
      → HexReads cr
      → str_eq key "" ≡ false
      → len body ≤ max_signed_body_size
      → checked cr itoa key next (new_request cr key body) w ≡ next (new_request cr key body) w
  unfolding checked new_request
  checked-new_request next body w reads keyed small =
      let sig = sum cr body key in
      let within : ltb max_signed_body_size (len body) ≡ false = ground arith in
      rw (header-signature cr key body keyed) (elim (Bool-cases (unsigned sig)) [
        | inl e ↦ rw e refl
        | inr e ↦ rw e (
            admitted cr itoa key pooled next (new_request cr key body) w sig within refl
              (equal-sum cr body key reads))
      ])

  pub hash_middleware_status :
      (next : HttpHandler W) (body : String) (w w' : W) (r : Response)
      → HexReads cr
      → len body ≤ max_signed_body_size
      → pooled.wrote_header ≡ false
      → next (new_request cr key body) w ≡ (updates_calls r, w')
      → let out = hash_middleware cr itoa key pooled next (new_request cr key body) w in
        ((wire out.0 (unsent [])).status ≡ some r.status) × (out.1 ≡ w')
  unfolding hash_middleware new_hash_response_writer
  hash_middleware_status next body w w' r reads small fresh e = elim (Bool-cases (str_eq key "")) [
    | inl plain ↦ rw (plain, e) (wire-updates_calls r, refl)
    | inr keyed ↦
        rw (keyed, checked-new_request next body w reads keyed small, e)
          (
            let buffered = buffer (updates_calls r) (new_hash_response_writer pooled) in
                (wire-signed_calls cr itoa key buffered []).0
                ∙ ap some (buffer-updates_calls r (new_hash_response_writer pooled) fresh),
            refl,
          )
  ]
