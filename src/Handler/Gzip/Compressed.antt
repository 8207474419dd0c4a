-- ===== src/Handler/Gzip/Compressed.antt =====
-- The calls of a response through the compressing writer, and what net/http sends of them.
use Prim.Native.String.{◌++◌}
use mathlib.Core.List.{◌++◌ as ◌++ₗ◌}
use text.Mathlib.TextLemmas.{nil-append, append_assoc, append-nil}
use svcmetrics.Base.{ℕ, ◌≡◌, refl, ◌∙◌, String, true, false, Option, none, some, List, [], ◌∷◌}
use svcmetrics.Base.Dict.{Dict, insert, erase, dict_laws}
use svcmetrics.Handler.Hash.{
  Call, set_header, del_header, write_header, write, body_allowed, header_calls,
}
use svcmetrics.Handler.Wire.{wire, unsent, copied}
use svcmetrics.Handler.Gzip.{
  Gzip, GzipResponseWriter, header_value, compressible, compressor, gzip_call, gzip_calls,
  should_compress, write_through, enable_compression_if_needed,
}
use svcmetrics.Handler.Gzip.Plain.{writes, joined, wire-write, wire-writes, if-and_false}

module _ {Z : Type 0} (gz : Gzip Z) where
  -- What a compressor makes of a body.
  abbrev pub streamed : Option Z → List String → String
  streamed none [] = ""
  streamed (some z) [] = gz.finish z
  streamed z (p ∷ ps) =
      let (bytes, z') = gz.write_chunk p (compressor gz z) in bytes ++ streamed (some z') ps

  enabled-gzip :
      (header : Dict String) (z : Option Z)
      → header_value "Content-Encoding" header ≡ "gzip"
      → enable_compression_if_needed gz (record { header = header; writer = z })
        ≡ ([], (record { header = header; writer = z }))
  unfolding enable_compression_if_needed
  enabled-gzip header z e =
      rw e (if-and_false (compressible gz (record { header = header; writer = z })) _ _)

  pub through-gzip :
      (p : String) (header : Dict String) (z : Option Z)
      → compressible gz (record { header = header; writer = z }) ≡ true
      → header_value "Content-Encoding" header ≡ "gzip"
      → let (bytes, z') = gz.write_chunk p (compressor gz z) in
        write_through gz p (record { header = header; writer = z })
        ≡ (write bytes ∷ [], (record { header = header; writer = some z' }))
  unfolding write_through should_compress
  through-gzip p header z fits e = rw (fits, e) refl

  pub written-gzip :
      (p : String) (header : Dict String) (z : Option Z)
      → compressible gz (record { header = header; writer = z }) ≡ true
      → header_value "Content-Encoding" header ≡ "gzip"
      → let (bytes, z') = gz.write_chunk p (compressor gz z) in
        gzip_call gz (write p) (record { header = header; writer = z })
        ≡ (write bytes ∷ [], (record { header = header; writer = some z' }))
  unfolding gzip_call
  written-gzip p header z fits e = rw (enabled-gzip header z e, through-gzip p header z fits e) refl

  wire-compressed :
      (ps : List String) (z : Option Z) (code : ℕ) (header sent : Dict String) (body : String)
      → compressible gz (record { header = header; writer = z }) ≡ true
      → header_value "Content-Encoding" header ≡ "gzip"
      → body_allowed code ≡ true
      → wire
          (gzip_calls gz (writes ps) (record { header = header; writer = z }))
          (record { header = header; status = some code; sent_header = sent; body = body })
        ≡ (record {
          header = header;
          status = some code;
          sent_header = sent;
          body = body ++ streamed z ps;
        })
  unfolding gzip_calls wire
  wire-compressed [] none code header sent body fits e allowed = rw (append-nil body) refl
  wire-compressed [] (some z) code header sent body fits e allowed =
      wire-write (gz.finish z) [] code sent header body allowed
  wire-compressed (p ∷ ps) z code header sent body fits e allowed =
      let (bytes, z') = gz.write_chunk p (compressor gz z) in
      let next : GzipResponseWriter Z = record { header = header; writer = some z' } in
      rw
        (
          written-gzip p header z fits e,
          wire-write bytes (gzip_calls gz (writes ps) next) code sent header body allowed,
          wire-compressed ps (some z') code header sent (body ++ bytes) fits e allowed,
          append_assoc,
        )
        refl

  pub enabled-plain :
      (header : Dict String) (z : Option Z)
      → compressible gz (record { header = header; writer = z }) ≡ false
      → enable_compression_if_needed gz (record { header = header; writer = z })
        ≡ ([], (record { header = header; writer = z }))
  unfolding enable_compression_if_needed
  enabled-plain header z e = rw e refl

  pub through-plain :
      (p : String) (header : Dict String) (z : Option Z)
      → compressible gz (record { header = header; writer = z }) ≡ false
      → write_through gz p (record { header = header; writer = z })
        ≡ (write p ∷ [], (record { header = header; writer = z }))
  unfolding write_through should_compress
  through-plain p header z e = rw e refl

  gzip_calls-plain :
      (ps : List String) (header : Dict String)
      → compressible gz (record { header = header; writer = none }) ≡ false
      → gzip_calls gz (writes ps) (record { header = header; writer = none }) ≡ writes ps
  unfolding gzip_calls gzip_call
  gzip_calls-plain [] header e = refl
  gzip_calls-plain (p ∷ ps) header e =
      rw (enabled-plain header none e, through-plain p header none e, gzip_calls-plain ps header e)
        refl

  -- The header of a compressed response.
  abbrev pub zipped : Dict String → Dict String
  zipped h = erase "Content-Length" (insert "Content-Encoding" "gzip" h)

  pub enabled-new :
      (header : Dict String) (z : Option Z)
      → compressible gz (record { header = header; writer = z }) ≡ true
      → header_value "Content-Encoding" header ≡ ""
      → enable_compression_if_needed gz (record { header = header; writer = z }) ≡ (
        set_header "Content-Encoding" "gzip" ∷ del_header "Content-Length" ∷ [],
        (record { header = zipped header; writer = z }),
      )
  unfolding enable_compression_if_needed
  enabled-new header z fits e = rw (fits, e) refl

  pub zipped-encoding : (h : Dict String) → header_value "Content-Encoding" (zipped h) ≡ "gzip"
  unfolding header_value
  zipped-encoding h = simp dict_laws

  pub zipped-compressible :
      (h : Dict String) (z : Option Z)
      → compressible gz (record { header = zipped h; writer = z })
        ≡ compressible gz (record { header = h; writer = z })
  unfolding header_value
  zipped-compressible h z = simp dict_laws

  pub gzip_calls-header_calls :
      (hs h : Dict String) (calls : List Call)
      → wire
          (gzip_calls gz (header_calls hs ++ₗ calls) (record { header = h; writer = none }))
          (unsent h)
        ≡ wire
            (gzip_calls gz calls (record { header = copied hs h; writer = none }))
            (unsent (copied hs h))
  unfolding gzip_calls gzip_call header_calls wire
  gzip_calls-header_calls [] h calls = refl
  gzip_calls-header_calls ((k, v) ∷ rest) h calls =
      gzip_calls-header_calls rest (insert k v h) calls

  pub sent_gzip :
      (h : Dict String) (code : ℕ) (p : String) (ps : List String)
      → compressible gz (record { header = h; writer = none }) ≡ true
      → header_value "Content-Encoding" h ≡ ""
      → body_allowed code ≡ true
      → wire
          (gzip_calls gz
            (write_header code ∷ writes (p ∷ ps))
            (record { header = h; writer = none }))
          (unsent h)
        ≡ (record {
          header = zipped h;
          status = some code;
          sent_header = zipped h;
          body = streamed none (p ∷ ps);
        })
  unfolding gzip_calls gzip_call
  sent_gzip h code p ps fits e allowed =
      let still : compressible gz (record { header = zipped h; writer = none }) ≡ true =
        zipped-compressible h none ∙ fits in
      rw (enabled-new h none fits e) (
        unfold wire in
        wire-compressed (p ∷ ps) none code (zipped h) (zipped h) "" still (zipped-encoding h)
          allowed
        ∙ rw (nil-append (streamed none (p ∷ ps))) refl)

  pub sent_plain :
      (h : Dict String) (code : ℕ) (ps : List String)
      → compressible gz (record { header = h; writer = none }) ≡ false
      → body_allowed code ≡ true
      → wire
          (gzip_calls gz (write_header code ∷ writes ps) (record { header = h; writer = none }))
          (unsent h)
        ≡ (record { header = h; status = some code; sent_header = h; body = joined ps })
  unfolding gzip_calls gzip_call
  sent_plain h code ps e allowed =
      rw (enabled-plain h none e, gzip_calls-plain ps h e)
        (unfold wire in rw (wire-writes ps code h h "" allowed, nil-append (joined ps)) refl)
