-- ===== src/Handler/Gzip/Streaming.antt =====
-- internal/handler/gzip.go: Flush of gzipResponseWriter, between the other calls of a handler.
pub mod Carried
pub mod Early
use Prim.Native.String.{◌++◌}
use mathlib.Core.List.{◌++◌ as ◌++ₗ◌}
use svcmetrics.Base.{ℕ, String, Bool, Option, none, some, List, [], ◌∷◌, if◌then◌else◌}
use svcmetrics.Base.Dict.{Dict}
use svcmetrics.Handler.{status_ok}
use svcmetrics.Handler.Hash.{Call, write}
use svcmetrics.Handler.Wire.{Wire, wire_call, wire_write_header}
use svcmetrics.Handler.Gzip.{Gzip, GzipResponseWriter, gzip_call, close_calls, should_compress}

-- A call of http.ResponseWriter, or of http.Flusher.
pub data StreamCall : Type 0 where
  called : Call → StreamCall
  flush : StreamCall

abbrev pub plain_calls : List Call → List StreamCall
plain_calls [] = []
plain_calls (c ∷ cs) = called c ∷ plain_calls cs

-- The Flush of the writer below, if it is an http.Flusher.
abbrev pub flush_below : Bool → List StreamCall
flush_below supported = if supported then flush ∷ [] else []

-- `flush_chunk` is Flush of a gzip.Writer, with the bytes that come out.
module _ {Z : Type 0} (gz : Gzip Z) (flush_chunk : Z → String × Z) (supported : Bool) where
  abbrev pub flush_writer : Option Z → GzipResponseWriter Z → List StreamCall × GzipResponseWriter Z
  flush_writer none g = (flush_below supported, g)
  flush_writer (some z) g =
      let (bytes, z') = flush_chunk z in
      (called (write bytes) ∷ flush_below supported, record g { writer = some z' })

  -- Flush
  unfoldable pub gzip_flush : GzipResponseWriter Z → List StreamCall × GzipResponseWriter Z
  gzip_flush g =
      if should_compress gz g then flush_writer g.writer g else (flush_below supported, g)

  unfoldable pub stream_call :
      StreamCall → GzipResponseWriter Z → List StreamCall × GzipResponseWriter Z
  stream_call (called c) g = let (out, g') = gzip_call gz c g in (plain_calls out, g')
  stream_call flush g = gzip_flush g

  -- The calls of a handler through the wrapper, and its Close.
  unfoldable pub stream_calls : List StreamCall → GzipResponseWriter Z → List StreamCall
  stream_calls [] g = plain_calls (close_calls gz g.writer)
  stream_calls (c ∷ cs) g = let (out, g') = stream_call c g in out ++ₗ stream_calls cs g'

-- net/http: a Flush sends the header if it has not been sent.
unfoldable pub wire_stream : List StreamCall → Wire → Wire
unfolding wire_call wire_write_header
wire_stream [] w = w
wire_stream (called c ∷ cs) w = wire_stream cs (wire_call c w)
wire_stream (flush ∷ cs) w = wire_stream cs (wire_write_header status_ok w)
