-- ===== src/Handler/Hash/Signed/Buffered.antt =====
-- internal/handler/hash.go: what the buffered writer holds behind the calls of a handler.
use Prim.Native.String.{◌++◌}
use text.Mathlib.TextLemmas.{nil-append, append_assoc, append-nil}
use svcmetrics.Base.{
  ℕ, ◌≡◌, refl, String, Bool, true, false, if◌then◌else◌, arith, ◌≤◌, List, [], ◌∷◌, ◌==◌, ◌||◌,
  not, sym, ap, ◌∙◌,
}
use svcmetrics.Handler.Hash.{
  Call, set_header, del_header, write_header, write, reset, buffer_call, writer_write_header,
  writer_write, HashResponseWriter, new_hash_response_writer, buffer, body_allowed,
}

-- What the calls of a handler write, and the status that they answer.
abbrev pub written : List Call → String
written [] = ""
written (write p ∷ calls) = p ++ written calls
written (set_header _ _ ∷ calls) = written calls
written (del_header _ ∷ calls) = written calls
written (write_header _ ∷ calls) = written calls

abbrev pub first_status : List Call → ℕ
first_status [] = 200
first_status (write _ ∷ calls) = 200
first_status (write_header code ∷ calls) = code
first_status (set_header _ _ ∷ calls) = first_status calls
first_status (del_header _ ∷ calls) = first_status calls

-- Only the first WriteHeader counts.
header-written :
    (code : ℕ) (w : HashResponseWriter) → w.wrote_header ≡ true → writer_write_header code w ≡ w
unfolding writer_write_header
header-written code w h =
    ap (λ b. if b then w else record w { status = code; wrote_header = true }) h

header-first :
    (code : ℕ) (w : HashResponseWriter)
    → w.wrote_header ≡ false
    → writer_write_header code w ≡ record w { status = code; wrote_header = true }
unfolding writer_write_header
header-first code w h = ap (λ b. if b then w else record w { status = code; wrote_header = true }) h

-- Behind it the status stays.
buffer-status_written :
    (calls : List Call) (w : HashResponseWriter)
    → w.wrote_header ≡ true
    → (buffer calls w).status ≡ w.status
unfolding buffer writer_write
buffer-status_written [] w h = refl
buffer-status_written (write p ∷ calls) w h =
    let same = header-written 200 w h in
    buffer-status_written calls (buffer_call (write p) w) (ap (λ v. v.wrote_header) same ∙ h)
    ∙ ap (λ v. v.status) same
buffer-status_written (write_header code ∷ calls) w h =
    let same = header-written code w h in
    buffer-status_written calls (buffer_call (write_header code) w)
      (ap (λ v. v.wrote_header) same ∙ h)
    ∙ ap (λ v. v.status) same
buffer-status_written (set_header k v ∷ calls) w h = buffer-status_written calls _ h
buffer-status_written (del_header k ∷ calls) w h = buffer-status_written calls _ h

buffer-status :
    (calls : List Call) (w : HashResponseWriter)
    → w.wrote_header ≡ false
    → w.status ≡ 200
    → (buffer calls w).status ≡ first_status calls
unfolding buffer writer_write
buffer-status [] w h s = s
buffer-status (write p ∷ calls) w h s =
    let first = header-first 200 w h in
    buffer-status_written calls (buffer_call (write p) w) (ap (λ v. v.wrote_header) first)
    ∙ ap (λ v. v.status) first
buffer-status (write_header code ∷ calls) w h s =
    let first = header-first code w h in
    buffer-status_written calls (buffer_call (write_header code) w) (ap (λ v. v.wrote_header) first)
    ∙ ap (λ v. v.status) first
buffer-status (set_header k v ∷ calls) w h s = buffer-status calls _ h s
buffer-status (del_header k ∷ calls) w h s = buffer-status calls _ h s

writer_write_header-body :
    (code : ℕ) (w : HashResponseWriter) → (writer_write_header code w).body ≡ w.body
unfolding writer_write_header
writer_write_header-body code w = ground arith

buffer-body :
    (calls : List Call) (w : HashResponseWriter) → (buffer calls w).body ≡ w.body ++ written calls
unfolding buffer writer_write
buffer-body [] w = sym (append-nil w.body)
buffer-body (write p ∷ calls) w =
    buffer-body calls (buffer_call (write p) w)
    ∙ ap (λ b. (b ++ p) ++ written calls) (writer_write_header-body 200 w)
    ∙ append_assoc w.body p (written calls)
buffer-body (write_header code ∷ calls) w =
    buffer-body calls _ ∙ ap (λ b. b ++ written calls) (writer_write_header-body code w)
buffer-body (set_header k v ∷ calls) w = buffer-body calls _
buffer-body (del_header k ∷ calls) w = buffer-body calls _

-- What the middleware buffers behind a writer that the generated Reset left.
pub buffered :
    (u : HashResponseWriter) (calls : List Call)
    → let w = buffer calls (new_hash_response_writer (reset u)) in
      (w.status ≡ first_status calls) × (w.body ≡ written calls)
unfolding new_hash_response_writer reset
buffered u calls =
    (buffer-status calls _ refl refl, buffer-body calls _ ∙ nil-append (written calls))

pub if-not {ℓ} : {A : Type ℓ} (b : Bool) (x y : A) → (if not b then x else y) ≡ (if b then y else x)
if-not true x y = refl
if-not false x y = refl

pub body_allowed_final :
    (code : ℕ) → 200 ≤ code → body_allowed code ≡ not (code == 204 || code == 304)
unfolding body_allowed
body_allowed_final code h = ground arith
