-- ===== src/Handler/Gzip/Streaming/Early.antt =====
-- A handler that flushes before it has written anything.
use Prim.Native.String.{◌++◌}
use svcmetrics.Handler.Gzip.Plain.{if-and_false}
use text.Mathlib.TextLemmas.{nil-append}
use svcmetrics.Base.{◌≡◌, refl, ◌∙◌, String, true, false, none, some, List, [], ◌∷◌}
use svcmetrics.Base.Dict.{Dict}
use svcmetrics.Handler.{status_ok}
use svcmetrics.Handler.Hash.{body_allowed}
use svcmetrics.Handler.Wire.{Wire, unsent}
use svcmetrics.Handler.Gzip.{Gzip, header_value, compressible, gzip_call, should_compress}
use svcmetrics.Handler.Gzip.Compressed.{
  enabled-new, zipped, zipped-encoding, zipped-compressible, through-gzip,
}
use svcmetrics.Handler.Gzip.Transparent.{client_body}
use svcmetrics.Handler.Gzip.Streaming.{flush, gzip_flush, stream_call, stream_calls, wire_stream}
use svcmetrics.Handler.Gzip.Streaming.Carried.{
  Piece, pieces, streamed_pieces, on_wire, wire-pieces_gzip,
}

module _ {Z : Type 0} (gz : Gzip Z) (flush_chunk : Z → String × Z) where
  flushed-unset :
      (h : Dict String)
      → header_value "Content-Encoding" h ≡ ""
      → gzip_flush gz flush_chunk true (record { header = h; writer = none })
        ≡ (flush ∷ [], record { header = h; writer = none })
  unfolding gzip_flush should_compress
  flushed-unset h e =
      rw e (if-and_false (compressible gz (record { header = h; writer = none })) _ _)

  abbrev pub flushed_first : Dict String → String → List Piece → Wire
  flushed_first h p ps =
      wire_stream
        (stream_calls gz flush_chunk true (flush ∷ pieces (some p ∷ ps))
          (record { header = h; writer = none }))
        (unsent h)

  -- Where the writer below can flush, the type is compressible and no encoding is set: of a response
  -- whose handler flushes first, and writes then, the header goes out without a Content-Encoding, and what
  -- the client reads as its body is what the compressor made of it.
  pub flushed_first-client_body :
      (h : Dict String) (p : String) (ps : List Piece)
      → compressible gz (record { header = h; writer = none }) ≡ true
      → header_value "Content-Encoding" h ≡ ""
      → (header_value "Content-Encoding" (flushed_first h p ps).sent_header ≡ "")
        × (client_body gz (flushed_first h p ps)
            ≡ some (record {
              content = streamed_pieces gz flush_chunk true none (some p ∷ ps);
              broken = false;
            }))
  unfolding stream_calls stream_call gzip_call client_body
  flushed_first-client_body h p ps fits e =
      let (bytes, z') = gz.write_chunk p gz.start in
      let still : compressible gz (record { header = zipped gz h; writer = none }) ≡ true =
        zipped-compressible gz h none ∙ fits in
      let sent : flushed_first h p ps
          ≡ on_wire (zipped gz h) status_ok h
              (streamed_pieces gz flush_chunk true none (some p ∷ ps)) =
        rw
          (
            flushed-unset h e,
            enabled-new gz h none fits e,
            through-gzip gz p (zipped gz h) none still (zipped-encoding gz h),
          )
          (unfold wire_stream body_allowed in
            wire-pieces_gzip gz flush_chunk true ps (some z') status_ok (zipped gz h) h
              ("" ++ bytes) still (zipped-encoding gz h) refl
            ∙ rw (nil-append bytes) refl) in
      rw (sent, e) (refl, refl)
