-- ===== src/Handler/Gzip.antt =====
-- internal/handler/gzip.go: the middleware that decompresses requests and compresses responses. A header
-- has one value here, its first.
pub mod Pooled
pub mod Streaming
pub mod Plain
pub mod Compressed
pub mod Transparent
use Prim.Native.String.{◌++◌}
use mathlib.Core.List.{◌++◌ as ◌++ₗ◌}
use text.Mathlib.Text.{starts_with}
use svcmetrics.Base.{
  ℕ, String, Bool, true, false, ◌&&◌, ◌||◌, Option, none, some, List, [], ◌∷◌, str_eq, get_or,
  if◌then◌else◌,
}
use svcmetrics.Base.Dict.{Dict, lookup, insert, erase}
use svcmetrics.Handler.{bad_request}
use svcmetrics.Handler.Hash.{
  Call, set_header, del_header, write_header, write, Body, HttpRequest, HttpHandler, error_calls,
}

-- compress/gzip. `Compressor` is a gzip.Writer in use: Write hands over the bytes that come out, Close the
-- last of them. `decompress` is none for a body without a gzip header.
pub record Gzip (Compressor : Type 0) : Type 0 where
  pub start : Compressor
  pub write_chunk : String → Compressor → String × Compressor
  pub finish : Compressor → String
  pub decompress : Body → Option Body
  -- mime.ParseMediaType and strings.Contains
  pub parse_media_type : String → Option String
  pub contains : String → String → Bool

unfoldable pub header_value : String → Dict String → String
header_value name h = get_or "" (lookup name h)

-- gzipResponseWriter, with the header map of the writer below it.
pub record GzipResponseWriter (Compressor : Type 0) : Type 0 where
  pub header : Dict String
  pub writer : Option Compressor

-- w.Header().Add, over what the header holds of the name.
abbrev pub added : String → String → Dict String → Option String → Dict String
added name x h none = insert name x h
added name x h (some _) = h

-- Its calls.
abbrev pub add_calls : String → String → Option String → List Call
add_calls name x none = set_header name x ∷ []
add_calls name x (some _) = []

module _ {Z : Type 0} (gz : Gzip Z) where
  -- GzipRequestMiddleware: the next handler reads the decompressed body.
  abbrev decompressed : {W : Type 0} → HttpHandler W → HttpRequest → W → Option Body → List Call × W
  decompressed next r w none = (error_calls "Invalid gzip content" bad_request, w)
  decompressed next r w (some b) = next (record r { body = b }) w

  unfoldable pub gzip_request_middleware : {W : Type 0} → HttpHandler W → HttpHandler W
  gzip_request_middleware next r w =
      if str_eq (header_value "Content-Encoding" r.header) "gzip"
      then decompressed next r w (gz.decompress r.body)
      else next r w

  unfoldable pub is_compressible_content_type : String → Bool
  is_compressible_content_type t = if str_eq t "" then false else elim (gz.parse_media_type t) [
    | some m ↦ str_eq m "application/json" || str_eq m "text/html"
    | none ↦ starts_with t "application/json" || starts_with t "text/html"
  ]

  abbrev pub compressible : GzipResponseWriter Z → Bool
  compressible g = is_compressible_content_type (header_value "Content-Type" g.header)

  -- The calls of the writer below, and the wrapper behind them.
  abbrev Out : Type 0
  Out = List Call × GzipResponseWriter Z

  unfoldable pub enable_compression_if_needed : GzipResponseWriter Z → Out
  enable_compression_if_needed g =
      if compressible g && str_eq (header_value "Content-Encoding" g.header) ""
      then (
        set_header "Content-Encoding" "gzip" ∷ del_header "Content-Length" ∷ [],
        record g { header = erase "Content-Length" (insert "Content-Encoding" "gzip" g.header) },
      )
      else ([], g)

  unfoldable pub should_compress : GzipResponseWriter Z → Bool
  should_compress g = compressible g && str_eq (header_value "Content-Encoding" g.header) "gzip"

  -- The compressor of the response, which the first write takes from the pool.
  abbrev pub compressor : Option Z → Z
  compressor none = gz.start
  compressor (some z) = z

  unfoldable pub write_through : String → GzipResponseWriter Z → Out
  write_through p g =
      let (bytes, z) = gz.write_chunk p (compressor g.writer) in
      if should_compress g
      then (write bytes ∷ [], record g { writer = some z })
      else (write p ∷ [], g)

  -- A call of the wrapper.
  unfoldable pub gzip_call : Call → GzipResponseWriter Z → Out
  gzip_call (set_header k v) g = (set_header k v ∷ [], record g { header = insert k v g.header })
  gzip_call (del_header k) g = (del_header k ∷ [], record g { header = erase k g.header })
  gzip_call (write_header code) g =
      let (enabled, g') = enable_compression_if_needed g in (enabled ++ₗ write_header code ∷ [], g')
  gzip_call (write p) g =
      let (enabled, g₁) = enable_compression_if_needed g in
      let (calls, g₂) = write_through p g₁ in (enabled ++ₗ calls, g₂)

  abbrev pub close_calls : Option Z → List Call
  close_calls none = []
  close_calls (some z) = write (gz.finish z) ∷ []

  -- The calls of a handler through the wrapper, and its Close.
  unfoldable pub gzip_calls : List Call → GzipResponseWriter Z → List Call
  gzip_calls [] g = close_calls g.writer
  gzip_calls (call ∷ calls) g = let (out, g') = gzip_call call g in out ++ₗ gzip_calls calls g'

  abbrev pub compressed : {W : Type 0} → Dict String → List Call × W → List Call × W
  compressed h (calls, w) =
      let set = lookup "Vary" h in
      let g : GzipResponseWriter Z = record {
        header = added "Vary" "Accept-Encoding" h set;
        writer = none;
      } in
      (add_calls "Vary" "Accept-Encoding" set ++ₗ gzip_calls calls g, w)

  -- GzipResponseMiddleware over a writer whose header map is `h`.
  unfoldable pub gzip_response_middleware :
      {W : Type 0} → Dict String → HttpHandler W → HttpHandler W
  gzip_response_middleware h next r w =
      if gz.contains (header_value "Accept-Encoding" r.header) "gzip"
      then compressed h (next r w)
      else next r w
