-- ===== src/Examples/Streams.antt =====
-- Responses that are flushed, with the compressor that changes nothing.
use Prim.Native.String.{◌++◌}
use text.Mathlib.TextLemmas.{nil-append}
use svcmetrics.Base.{ℕ, suc, ◌≡◌, refl, ap, String, true, false, none, some, List, [], ◌∷◌}
use svcmetrics.Base.Dict.{Dict, lookup}
use svcmetrics.Handler.Gzip.{header_value, compressible, is_compressible_content_type}
use svcmetrics.Handler.Gzip.Transparent.{Carries, client_body}
use svcmetrics.Handler.Gzip.Streaming.Carried.{
  Piece, text_of, streamed_pieces, sent_pieces, sent_pieces-Carries,
}
use svcmetrics.Handler.Gzip.Streaming.Early.{flushed_first, flushed_first-client_body}
use svcmetrics.Errors.{ok}
use svcmetrics.Server.Upgrades.{Upgrades}
use svcmetrics.Examples.Transfer.{gz, allows}

abbrev flush_chunk : ℕ → String × ℕ
flush_chunk n = ("", suc n)

streamed_pieces-text_of :
    (n : ℕ) (ps : List Piece) → streamed_pieces gz flush_chunk true (some n) ps ≡ text_of ps
streamed_pieces-text_of n [] = refl
streamed_pieces-text_of n (none ∷ ps) =
    rw (streamed_pieces-text_of (suc n) ps) (nil-append (text_of ps))
streamed_pieces-text_of n (some p ∷ ps) = ap (λ s. p ++ s) (streamed_pieces-text_of (suc n) ps)

restores_pieces :
    (p : String) (ps : List Piece)
    → gz.decompress (record {
      content = streamed_pieces gz flush_chunk true none (some p ∷ ps);
      broken = false;
    })
      ≡ some (record { content = text_of (some p ∷ ps); broken = false })
restores_pieces p ps = rw (streamed_pieces-text_of 1 ps) refl

abbrev html : Dict String
html = ("Content-Type", "text/html") ∷ []

abbrev rest : List Piece
rest = none ∷ some "</html>" ∷ none ∷ []

unencoded : header_value "Content-Encoding" html ≡ ""
unfolding header_value lookup
unencoded = refl

fits : compressible gz (record { header = html; writer = none }) ≡ true
unfolding header_value lookup is_compressible_content_type
fits = refl

sent_pieces-Carries_example :
    Carries gz 200
      (text_of (some "<html>" ∷ rest))
      "Content-Type"
      html
      (sent_pieces gz flush_chunk true html 200 (some "<html>" ∷ rest))
sent_pieces-Carries_example =
    sent_pieces-Carries gz flush_chunk true restores_pieces html 200 "<html>" rest "Content-Type"
      unencoded allows refl

flushed_first-client_body_example :
    (header_value "Content-Encoding" (flushed_first gz flush_chunk html "<html>" rest).sent_header
      ≡ "")
    × (client_body gz (flushed_first gz flush_chunk html "<html>" rest)
        ≡ some (record {
          content = streamed_pieces gz flush_chunk true none (some "<html>" ∷ rest);
          broken = false;
        }))
flushed_first-client_body_example =
    flushed_first-client_body gz flush_chunk html "<html>" rest fits unencoded

-- A connection that counts its flushes, under a compressor that holds a byte back.
abbrev connection : Upgrades ℕ ℕ
connection = record { flush = some suc; hijack = some (λ n. (ok n, n)); push = none }
