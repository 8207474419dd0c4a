-- ===== src/Handler/Gzip/Streaming/Carried.antt =====
-- What a client gets of a response that is flushed between its writes.
use Prim.Native.String.{◌++◌}
use mathlib.Core.List.{◌++◌ as ◌++ₗ◌}
use text.Mathlib.TextLemmas.{nil-append, append_assoc, append-nil}
use svcmetrics.Base.{
  ℕ, ◌≡◌, refl, ◌∙◌, String, Bool, true, false, Option, none, some, List, [], ◌∷◌, Bool-cases, inl,
  inr,
}
use svcmetrics.Base.Dict.{Dict}
use svcmetrics.Handler.Hash.{write_header, write, body_allowed}
use svcmetrics.Handler.Wire.{Wire, unsent}
use svcmetrics.Handler.Gzip.{
  Gzip, header_value, compressible, compressor, gzip_call, should_compress,
}
use svcmetrics.Handler.Gzip.Compressed.{
  written-gzip, enabled-plain, through-plain, enabled-new, zipped, zipped-encoding,
  zipped-compressible,
}
use svcmetrics.Handler.Gzip.Transparent.{client_body, Carries, untouched, zipped-lookup}
use svcmetrics.Handler.Gzip.Streaming.{
  StreamCall, called, flush, flush_below, flush_writer, gzip_flush, stream_call, stream_calls,
  wire_stream,
}

-- A part of a body, or a flush.
abbrev pub Piece : Type 0
Piece = Option String

abbrev pub pieces : List Piece → List StreamCall
pieces [] = []
pieces (none ∷ ps) = flush ∷ pieces ps
pieces (some p ∷ ps) = called (write p) ∷ pieces ps

abbrev pub text_of : List Piece → String
text_of [] = ""
text_of (none ∷ ps) = text_of ps
text_of (some p ∷ ps) = p ++ text_of ps

abbrev pub on_wire : Dict String → ℕ → Dict String → String → Wire
on_wire header code sent body = record {
  header = header;
  status = some code;
  sent_header = sent;
  body = body;
}

pub wire_stream-write :
    (p : String) (cs : List StreamCall) (code : ℕ) (sent header : Dict String) (body : String)
    → body_allowed code ≡ true
    → wire_stream (called (write p) ∷ cs) (on_wire header code sent body)
      ≡ wire_stream cs (on_wire header code sent (body ++ p))
unfolding wire_stream
wire_stream-write p cs code sent header body allowed = rw allowed refl

wire_stream-flush_below :
    (supported : Bool) (cs : List StreamCall) (code : ℕ) (sent header : Dict String) (body : String)
    → wire_stream (flush_below supported ++ₗ cs) (on_wire header code sent body)
      ≡ wire_stream cs (on_wire header code sent body)
unfolding wire_stream
wire_stream-flush_below true cs code sent header body = refl
wire_stream-flush_below false cs code sent header body = refl

module _ {Z : Type 0} (gz : Gzip Z) (flush_chunk : Z → String × Z) (supported : Bool) where
  -- What a compressor makes of the pieces.
  abbrev pub streamed_pieces : Option Z → List Piece → String
  streamed_pieces none [] = ""
  streamed_pieces (some z) [] = gz.finish z
  streamed_pieces none (none ∷ ps) = streamed_pieces none ps
  streamed_pieces (some z) (none ∷ ps) =
      let (bytes, z') = flush_chunk z in bytes ++ streamed_pieces (some z') ps
  streamed_pieces z (some p ∷ ps) =
      let (bytes, z') = gz.write_chunk p (compressor gz z) in bytes ++ streamed_pieces (some z') ps

  flushed-gzip :
      (header : Dict String) (z : Option Z)
      → compressible gz (record { header = header; writer = z }) ≡ true
      → header_value "Content-Encoding" header ≡ "gzip"
      → gzip_flush gz flush_chunk supported (record { header = header; writer = z })
        ≡ flush_writer gz flush_chunk supported z (record { header = header; writer = z })
  unfolding gzip_flush should_compress
  flushed-gzip header z fits e = rw (fits, e) refl

  flushed-plain :
      (header : Dict String) (z : Option Z)
      → compressible gz (record { header = header; writer = z }) ≡ false
      → gzip_flush gz flush_chunk supported (record { header = header; writer = z })
        ≡ (flush_below supported, record { header = header; writer = z })
  unfolding gzip_flush should_compress
  flushed-plain header z e = rw e refl

  pub wire-pieces_gzip :
      (ps : List Piece) (z : Option Z) (code : ℕ) (header sent : Dict String) (body : String)
      → compressible gz (record { header = header; writer = z }) ≡ true
      → header_value "Content-Encoding" header ≡ "gzip"
      → body_allowed code ≡ true
      → wire_stream
          (stream_calls gz flush_chunk supported
            (pieces ps)
            (record { header = header; writer = z }))
          (on_wire header code sent body)
        ≡ on_wire header code sent (body ++ streamed_pieces z ps)
  unfolding stream_calls stream_call
  wire-pieces_gzip [] none code header sent body fits e allowed =
      unfold wire_stream in rw (append-nil body) refl
  wire-pieces_gzip [] (some z) code header sent body fits e allowed =
      wire_stream-write (gz.finish z) [] code sent header body allowed ∙ unfold wire_stream in refl
  wire-pieces_gzip (none ∷ ps) none code header sent body fits e allowed =
      rw (flushed-gzip header none fits e, wire_stream-flush_below)
        (wire-pieces_gzip ps none code header sent body fits e allowed)
  wire-pieces_gzip (none ∷ ps) (some z) code header sent body fits e allowed =
      let (bytes, z') = flush_chunk z in
      rw (flushed-gzip header (some z) fits e) (
        wire_stream-write bytes _ code sent header body allowed
        ∙ wire_stream-flush_below supported _ code sent header (body ++ bytes)
        ∙ wire-pieces_gzip ps (some z') code header sent (body ++ bytes) fits e allowed
        ∙ rw append_assoc refl)
  wire-pieces_gzip (some p ∷ ps) z code header sent body fits e allowed =
      let (bytes, z') = gz.write_chunk p (compressor gz z) in
      rw (written-gzip gz p header z fits e) (
        wire_stream-write bytes _ code sent header body allowed
        ∙ wire-pieces_gzip ps (some z') code header sent (body ++ bytes) fits e allowed
        ∙ rw append_assoc refl)

  wire-pieces_plain :
      (ps : List Piece) (code : ℕ) (header sent : Dict String) (body : String)
      → compressible gz (record { header = header; writer = none }) ≡ false
      → body_allowed code ≡ true
      → wire_stream
          (stream_calls gz flush_chunk supported
            (pieces ps)
            (record { header = header; writer = none }))
          (on_wire header code sent body)
        ≡ on_wire header code sent (body ++ text_of ps)
  unfolding stream_calls stream_call gzip_call
  wire-pieces_plain [] code header sent body e allowed =
      unfold wire_stream in rw (append-nil body) refl
  wire-pieces_plain (none ∷ ps) code header sent body e allowed = rw (flushed-plain header none e) (
      wire_stream-flush_below supported _ code sent header body
      ∙ wire-pieces_plain ps code header sent body e allowed)
  wire-pieces_plain (some p ∷ ps) code header sent body e allowed =
      rw (enabled-plain gz header none e, through-plain gz p header none e)
        (wire_stream-write p _ code sent header body allowed
          ∙ wire-pieces_plain ps code header sent (body ++ p) e allowed
          ∙ rw append_assoc refl)

  -- A handler that sets no encoding writes a status and then pieces.
  abbrev pub sent_pieces : Dict String → ℕ → List Piece → Wire
  sent_pieces h code ps =
      wire_stream
        (stream_calls gz flush_chunk supported (called (write_header code) ∷ pieces ps)
          (record { header = h; writer = none }))
        (unsent h)

  sent_pieces-gzip :
      (h : Dict String) (code : ℕ) (ps : List Piece)
      → compressible gz (record { header = h; writer = none }) ≡ true
      → header_value "Content-Encoding" h ≡ ""
      → body_allowed code ≡ true
      → sent_pieces h code ps ≡ on_wire (zipped gz h) code (zipped gz h) (streamed_pieces none ps)
  unfolding stream_calls stream_call gzip_call
  sent_pieces-gzip h code ps fits e allowed =
      let still : compressible gz (record { header = zipped gz h; writer = none }) ≡ true =
        zipped-compressible gz h none ∙ fits in
      rw (enabled-new gz h none fits e) (
        unfold wire_stream in
        wire-pieces_gzip ps none code (zipped gz h) (zipped gz h) "" still (zipped-encoding gz h)
          allowed
        ∙ rw (nil-append (streamed_pieces none ps)) refl)

  sent_pieces-plain :
      (h : Dict String) (code : ℕ) (ps : List Piece)
      → compressible gz (record { header = h; writer = none }) ≡ false
      → body_allowed code ≡ true
      → sent_pieces h code ps ≡ on_wire h code h (text_of ps)
  unfolding stream_calls stream_call gzip_call
  sent_pieces-plain h code ps e allowed = rw (enabled-plain gz h none e) (
      unfold wire_stream in
      wire-pieces_plain ps code h h "" e allowed ∙ rw (nil-append (text_of ps)) refl)

  -- A handler that begins with a status and a write, over a writer whose headers have no Content-Encoding:
  -- wherever it flushes behind them, and whether or not the writer below can flush, the client reads the
  -- status and the body that were written and every header but Vary, Content-Encoding and Content-Length,
  -- where decompressing gives back what was compressed with flushes in it.
  pub sent_pieces-Carries :
      ((p : String) (ps : List Piece)
        → gz.decompress (record { content = streamed_pieces none (some p ∷ ps); broken = false })
          ≡ some (record { content = text_of (some p ∷ ps); broken = false }))
      → (h : Dict String) (code : ℕ) (p : String) (ps : List Piece) (name : String)
      → header_value "Content-Encoding" h ≡ ""
      → body_allowed code ≡ true
      → untouched gz name ≡ true
      → Carries gz code (text_of (some p ∷ ps)) name h (sent_pieces h code (some p ∷ ps))
  unfolding client_body
  sent_pieces-Carries restores h code p ps name e allowed other =
      elim (Bool-cases (compressible gz (record { header = h; writer = none }))) [
        | inl fits ↦
            rw (sent_pieces-gzip h code (some p ∷ ps) fits e allowed, zipped-encoding gz h)
              (refl, restores p ps, zipped-lookup gz name h other)
        | inr plain ↦
            rw (sent_pieces-plain h code (some p ∷ ps) plain allowed, e) (refl, refl, refl)
      ]
