-- ===== src/Handler/Wire.antt =====
-- The response of net/http behind the calls of a handler.
use Prim.Native.String.{◌++◌}
use mathlib.Core.List.{◌++◌ as ◌++ₗ◌}
use svcmetrics.Base.{
  ℕ, ◌≡◌, refl, String, Bool, true, Option, none, some, List, [], ◌∷◌, if◌then◌else◌,
}
use svcmetrics.Base.Dict.{Dict, insert, erase}
use svcmetrics.Handler.{status_ok}
use svcmetrics.Handler.Hash.{
  Call, set_header, del_header, write_header, write, body_allowed, header_calls,
}

-- The response as net/http sends it to a handler that answers no informational status, which is the case
-- of every handler here: the headers are fixed by the first WriteHeader or Write, and a
-- status that allows no body drops what is written.
pub record Wire : Type 0 where
  pub header : Dict String
  pub status : Option ℕ
  pub sent_header : Dict String
  pub body : String

unfoldable pub wire_write_header : ℕ → Wire → Wire
wire_write_header code w = elim w.status [
  | some _ ↦ w
  | none ↦ record w { status = some code; sent_header = w.header }
]

abbrev pub status_allows : Option ℕ → Bool
status_allows none = true
status_allows (some code) = body_allowed code

unfoldable pub wire_call : Call → Wire → Wire
unfolding wire_write_header
wire_call (set_header k v) w = record w { header = insert k v w.header }
wire_call (del_header k) w = record w { header = erase k w.header }
wire_call (write_header code) w = wire_write_header code w
wire_call (write p) w =
    let w' = wire_write_header status_ok w in
    if status_allows w'.status then record w' { body = w'.body ++ p } else w'

unfoldable pub wire : List Call → Wire → Wire
unfolding wire_call
wire [] w = w
wire (call ∷ calls) w = wire calls (wire_call call w)

-- A response before anything was written; the middleware around may have set headers.
abbrev pub unsent : Dict String → Wire
unsent h = record { header = h; status = none; sent_header = []; body = "" }

-- The header map behind some settings of it.
abbrev pub copied : Dict String → Dict String → Dict String
copied [] h = h
copied ((k, v) ∷ rest) h = copied rest (insert k v h)

pub wire-header_calls :
    (hs h : Dict String) (calls : List Call)
    → wire (header_calls hs ++ₗ calls) (unsent h) ≡ wire calls (unsent (copied hs h))
unfolding header_calls wire
wire-header_calls [] h calls = refl
wire-header_calls ((k, v) ∷ rest) h calls = wire-header_calls rest (insert k v h) calls
