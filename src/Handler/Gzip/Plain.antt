-- ===== src/Handler/Gzip/Plain.antt =====
-- A response that a handler writes at once, and what net/http sends of it.
use Prim.Native.String.{◌++◌}
use mathlib.Core.List.{◌++◌ as ◌++ₗ◌}
use text.Mathlib.TextLemmas.{nil-append, append_assoc, append-nil}
use svcmetrics.Base.{
  ℕ, ◌≡◌, refl, String, Bool, true, false, Option, none, some, List, [], ◌∷◌, str_eq, if◌then◌else◌,
  ◌&&◌,
}
use svcmetrics.Base.Dict.{Dict, lookup, insert, lookup-insert}
use svcmetrics.Handler.Hash.{Call, write_header, write, body_allowed, header_calls}
use svcmetrics.Handler.Wire.{wire, unsent, copied, wire-header_calls}
use svcmetrics.Handler.Gzip.{added, add_calls}

-- The writes of a body, and the body.
abbrev pub writes : List String → List Call
writes [] = []
writes (p ∷ ps) = write p ∷ writes ps

abbrev pub joined : List String → String
joined [] = ""
joined (p ∷ ps) = p ++ joined ps

-- A response by header, status and body.
abbrev pub answer : Dict String → ℕ → List String → List Call
answer hs code ps = header_calls hs ++ₗ write_header code ∷ writes ps

pub lookup-copied :
    (name : String) (hs h h' : Dict String)
    → lookup name h ≡ lookup name h'
    → lookup name (copied hs h) ≡ lookup name (copied hs h')
lookup-copied name [] h h' e = e
lookup-copied name ((k, v) ∷ rest) h h' e =
    lookup-copied name rest (insert k v h) (insert k v h')
      (rw (lookup-insert k name v h, lookup-insert k name v h', e) refl)

pub lookup-added :
    (name other x : String) (h : Dict String) (set : Option String)
    → str_eq other name ≡ false
    → lookup name (added other x h set) ≡ lookup name h
lookup-added name other x h none different = rw (lookup-insert, different) refl
lookup-added name other x h (some _) different = refl

pub wire-add_calls :
    (name x : String) (h : Dict String) (set : Option String) (calls : List Call)
    → wire (add_calls name x set ++ₗ calls) (unsent h) ≡ wire calls (unsent (added name x h set))
unfolding wire
wire-add_calls name x h none calls = refl
wire-add_calls name x h (some _) calls = refl

pub wire-write :
    (p : String) (calls : List Call) (code : ℕ) (sent header : Dict String) (body : String)
    → body_allowed code ≡ true
    → wire
        (write p ∷ calls)
        (record { header = header; status = some code; sent_header = sent; body = body })
      ≡ wire calls
          (record { header = header; status = some code; sent_header = sent; body = body ++ p })
unfolding wire
wire-write p calls code sent header body allowed = rw allowed refl

pub wire-writes :
    (ps : List String) (code : ℕ) (sent header : Dict String) (body : String)
    → body_allowed code ≡ true
    → wire
        (writes ps)
        (record { header = header; status = some code; sent_header = sent; body = body })
      ≡ (record {
        header = header;
        status = some code;
        sent_header = sent;
        body = body ++ joined ps;
      })
unfolding wire
wire-writes [] code sent header body allowed = rw (append-nil body) refl
wire-writes (p ∷ ps) code sent header body allowed =
    rw
      (
        wire-write p (writes ps) code sent header body allowed,
        wire-writes ps code sent header (body ++ p) allowed,
        append_assoc,
      )
      refl

pub wire-answer :
    (hs h : Dict String) (code : ℕ) (ps : List String)
    → body_allowed code ≡ true
    → wire (answer hs code ps) (unsent h) ≡ (record {
      header = copied hs h;
      status = some code;
      sent_header = copied hs h;
      body = joined ps;
    })
unfolding wire
wire-answer hs h code ps allowed =
    rw
      (
        wire-header_calls,
        wire-writes ps code (copied hs h) (copied hs h) "" allowed,
        nil-append (joined ps),
      )
      refl

pub if-and_false {ℓ} : {A : Type ℓ} → (b : Bool) (x y : A) → (if b && false then x else y) ≡ y
if-and_false true x y = refl
if-and_false false x y = refl
