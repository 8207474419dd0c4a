-- ===== src/Handler/Gzip/Transparent.antt =====
-- What a client gets from a compressed response.
use mathlib.Core.List.{◌++◌ as ◌++ₗ◌}
use svcmetrics.Base.{
  ℕ, not, ◌≡◌, refl, ◌∙◌, String, Bool, true, false, Option, none, some, List, ◌∷◌, str_eq,
  if◌then◌else◌, arith, Bool-cases, inl, inr, ◌&&◌,
}
use svcmetrics.Base.Dict.{Dict, lookup, lookup-insert, lookup-erase}
use svcmetrics.Handler.Hash.{write_header, Body, HttpRequest, HttpHandler, body_allowed}
use svcmetrics.Handler.Wire.{Wire, wire, unsent, copied}
use svcmetrics.Handler.Gzip.{
  Gzip, header_value, added, add_calls, compressible, gzip_calls, gzip_response_middleware,
}
use svcmetrics.Handler.Gzip.Plain.{
  writes, joined, answer, lookup-copied, lookup-added, wire-add_calls, wire-answer,
}
use svcmetrics.Handler.Gzip.Compressed.{
  streamed, zipped, zipped-encoding, gzip_calls-header_calls, sent_gzip, sent_plain,
}

module _ {Z : Type 0} (gz : Gzip Z) where
  -- The body that a client reads: it decompresses what is announced as gzip.
  unfoldable pub client_body : Wire → Option Body
  client_body w =
      if str_eq (header_value "Content-Encoding" w.sent_header) "gzip"
      then gz.decompress (record { content = w.body; broken = false })
      else some (record { content = w.body; broken = false })

  -- The status, the body that the client reads, and a header of the response.
  abbrev pub Carries : ℕ → String → String → Dict String → Wire → Type 0
  Carries code body name header w =
      (w.status ≡ some code)
      × (client_body w ≡ some (record { content = body; broken = false }))
      × (lookup name w.sent_header ≡ lookup name header)

  -- The headers that the middleware may change.
  abbrev pub untouched : String → Bool
  untouched name =
      not (str_eq "Vary" name)
      && not (str_eq "Content-Encoding" name)
      && not (str_eq "Content-Length" name)

  pub zipped-lookup :
      (name : String) (h : Dict String)
      → untouched name ≡ true
      → lookup name (zipped gz h) ≡ lookup name h
  zipped-lookup name h other = rw (lookup-erase, lookup-insert) (ground arith)

  module _
      (restores : (p : String) (ps : List String)
        → gz.decompress (record { content = streamed gz none (p ∷ ps); broken = false })
          ≡ some (record { content = joined (p ∷ ps); broken = false })) where
    sent-Carries :
        (h : Dict String) (code : ℕ) (p : String) (ps : List String) (name : String)
        → header_value "Content-Encoding" h ≡ ""
        → body_allowed code ≡ true
        → untouched name ≡ true
        → Carries code (joined (p ∷ ps)) name h (
            wire
              (gzip_calls gz
                (write_header code ∷ writes (p ∷ ps))
                (record { header = h; writer = none }))
              (unsent h))
    unfolding client_body
    sent-Carries h code p ps name e allowed other =
        elim (Bool-cases (compressible gz (record { header = h; writer = none }))) [
          | inl fits ↦
              rw (sent_gzip gz h code p ps fits e allowed, zipped-encoding gz h)
                (refl, restores p ps, zipped-lookup name h other)
          | inr plain ↦ rw (sent_plain gz h code (p ∷ ps) plain allowed, e) (refl, refl, refl)
        ]

    compressed-Carries :
        (hs h : Dict String) (set : Option String) (code : ℕ) (p : String) (ps : List String)
        (name : String)
        → header_value "Content-Encoding" (copied hs h) ≡ ""
        → body_allowed code ≡ true
        → untouched name ≡ true
        → let h' = added "Vary" "Accept-Encoding" h set in
          Carries code (joined (p ∷ ps)) name (copied hs h) (
            wire
              (add_calls "Vary" "Accept-Encoding" set
                ++ₗ gzip_calls gz (answer hs code (p ∷ ps)) (record { header = h'; writer = none }))
              (unsent h))
    unfolding header_value
    compressed-Carries hs h set code p ps name e allowed other =
        let h' = added "Vary" "Accept-Encoding" h set in
        let same =
          lookup-copied "Content-Encoding" hs h' h
            (lookup-added "Content-Encoding" "Vary" "Accept-Encoding" h set refl) in
        let plain : header_value "Content-Encoding" (copied hs h') ≡ "" = rw same e in
        let not_vary : str_eq "Vary" name ≡ false = ground arith in
        let kept =
          lookup-copied name hs h' h (lookup-added name "Vary" "Accept-Encoding" h set not_vary) in
        let (status, body, header) =
          sent-Carries (copied hs h') code p ps name plain allowed other in
        rw (wire-add_calls, gzip_calls-header_calls gz) (status, body, header ∙ kept)

    module _ {W : Type 0} (next : HttpHandler W) where
      -- Whatever encoding the client accepts: for a handler that sets headers without a Content-
      -- Encoding, writes a status that allows a body and then one chunk or more, the client reads
      -- the same status and body and any header but Vary, Content-Encoding and Content-Length as
      -- without the middleware, and the world is the one that the handler leaves, where
      -- decompressing gives back what was compressed.
      pub gzip_response_middleware-Carries :
          (r : HttpRequest) (w : W) (hs h : Dict String) (code : ℕ) (p : String) (ps : List String)
          (name : String)
          → (next r w).0 ≡ answer hs code (p ∷ ps)
          → header_value "Content-Encoding" (copied hs h) ≡ ""
          → body_allowed code ≡ true
          → untouched name ≡ true
          → let plain = wire (next r w).0 (unsent h) in
            let out = gzip_response_middleware gz h next r w in
            (out.1 ≡ (next r w).1)
            × Carries code plain.body name plain.sent_header (wire out.0 (unsent h))
      unfolding gzip_response_middleware
      gzip_response_middleware-Carries r w hs h code p ps name calls e allowed other =
          let asked = gz.contains (header_value "Accept-Encoding" r.header) "gzip" in
          rw (calls, wire-answer hs h code (p ∷ ps) allowed)
            (elim (Bool-cases asked) [
              | inl accepted ↦
                  rw accepted
                    (refl, compressed-Carries hs h (lookup "Vary" h) code p ps name e allowed other)
              | inr refused ↦
                  rw (refused, wire-answer hs h code (p ∷ ps) allowed)
                    (unfold client_body in rw e (refl, (refl, refl, refl)))
            ])
