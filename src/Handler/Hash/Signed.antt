-- ===== src/Handler/Hash/Signed.antt =====
-- What the client gets from a signed response, and which requests reach the next handler.
mod Buffered
pub use Buffered.*
use Prim.Native.String.{len, ◌++◌}
use text.Mathlib.TextLemmas.{nil-append, append_assoc, append-nil}
use svcmetrics.Base.{
  ℕ, ◌≡◌, ◌≢◌, refl, String, Bool, true, false, some, str_eq, if◌then◌else◌, arith, eq_iff, ◌≤◌,
  ltb, Bool-cases, inl, inr, List, [], ◌∷◌, none, ◌==◌, ◌||◌, not, sym, ap, ◌∙◌,
}
use svcmetrics.Base.Dict.{Dict, lookup, dict_laws}
use svcmetrics.Hashing.{Crypto, hash_header, sum, equal}
use svcmetrics.Handler.Hash.{
  Call, set_header, del_header, write_header, write, reset, buffer_call, writer_write_header,
  writer_write, HttpRequest, HttpHandler, HashResponseWriter, new_hash_response_writer, buffer,
  body_allowed, signed_calls, verified, checked, hash_middleware, max_signed_body_size,
}
use svcmetrics.Handler.Wire.{wire, unsent, wire-header_calls}

module _ (c : Crypto) (itoa : ℕ → String) (key : String) where
  -- The wire behind the calls of the middleware.
  pub wire-signed_calls :
      (w : HashResponseWriter) (h : Dict String)
      → let out = wire (signed_calls c itoa key w) (unsent h) in
        (out.status ≡ some w.status)
        × (lookup hash_header out.sent_header ≡ some (sum c w.body key))
        × (out.body ≡ (if body_allowed w.status then w.body else ""))
  unfolding signed_calls
  wire-signed_calls w h = rw wire-header_calls (elim (Bool-cases (body_allowed w.status)) [
    | inl e ↦ rw e (unfold wire in rw e (refl, simp dict_laws, nil-append w.body))
    | inr e ↦ rw e (unfold wire in rw e (refl, simp dict_laws, refl))
  ])

  wire-signed_response :
      (w : HashResponseWriter) (h : Dict String)
      → let out = wire (signed_calls c itoa key w) (unsent h) in
        (out.status ≡ some w.status)
        × (out.body ≡ (if body_allowed w.status then w.body else ""))
        × (lookup hash_header out.sent_header ≡ some (c.hex_encode (c.hmac_sha256 key w.body)))
        × (lookup "Content-Length" out.sent_header
            ≡ (if body_allowed w.status then some (itoa (len w.body)) else none))
  unfolding signed_calls sum
  wire-signed_response w h = rw wire-header_calls (elim (Bool-cases (body_allowed w.status)) [
    | inl e ↦ rw e (unfold wire in rw e (refl, nil-append w.body, simp dict_laws, simp dict_laws))
    | inr e ↦ rw e (unfold wire in rw e (refl, refl, simp dict_laws, simp dict_laws))
  ])

  module _ {W : Type 0} (next : HttpHandler W) where
    -- With a key: where the next handler or a rejection answers a final status, which is that of its first
    -- WriteHeader, or 200 without one before its first Write, the client receives that status, what was
    -- written as the body, or none for 204 and 304, and the digest of what was written in the header;
    -- Content-Length is the length of the body, and is absent for 204 and 304. The world is the one that the
    -- handler left.
    pub hash_middleware_signs :
        (r : HttpRequest) (w : W) (h : Dict String) (u : HashResponseWriter)
        → key ≢ ""
        → 200 ≤ first_status (checked c itoa key next r w).0
        → let done = checked c itoa key next r w in
          let all = hash_middleware c itoa key (reset u) next r w in
          let out = wire all.0 (unsent h) in
          let bare = first_status done.0 == 204 || first_status done.0 == 304 in
          (out.status ≡ some (first_status done.0))
          × (out.body ≡ (if bare then "" else written done.0))
          × (lookup hash_header out.sent_header
              ≡ some (c.hex_encode (c.hmac_sha256 key (written done.0))))
          × (lookup "Content-Length" out.sent_header
              ≡ (if bare then none else some (itoa (len (written done.0)))))
          × (all.1 ≡ done.1)
    unfolding hash_middleware
    hash_middleware_signs r w h u keyed final =
        let given : str_eq key "" ≡ false = ground (arith, eq_iff key "") in
        let done = checked c itoa key next r w in
        let (status, body) = buffered u done.0 in
        let (code, sent, digest, length) =
          wire-signed_response (buffer done.0 (new_hash_response_writer (reset u))) h in
        let allowed = body_allowed_final (first_status done.0) final in
        let bare = first_status done.0 == 204 || first_status done.0 == 304 in
        rw (given, hash_middleware)
          (
            code ∙ ap some status,
            sent ∙ rw (status, body, allowed) (if-not bare (written done.0) ""),
            digest ∙ ap (λ b. some (c.hex_encode (c.hmac_sha256 key b))) body,
            length
                ∙ rw (status, body, allowed)
                    (if-not bare (some (itoa (len (written done.0)))) none),
            refl,
          )

  module _ {W : Type 0} (pooled : HashResponseWriter) (next : HttpHandler W) where
    pub admitted :
        (r : HttpRequest) (w : W) (sig : String)
        → ltb max_signed_body_size (len r.body.content) ≡ false
        → r.body.broken ≡ false
        → equal c sig r.body.content key ≡ true
        → verified c itoa key sig next r w ≡ next r w
    unfolding verified
    admitted r w sig small whole e = rw (small, whole, e)
