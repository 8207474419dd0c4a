-- ===== src/Audit/FileLog/Lines.antt =====
-- internal/audit/file.go: the lines of the audit file.
use svcmetrics.Base.{
  ℕ, ◌≡◌, refl, sym, ◌∙◌, ap, true, false, Option, none, some, List, [], ◌∷◌, ◌++◌, ◌==◌, All,
  All-append,
}
use mathlib.Core.Path.{subst}
use mathlib.Core.List.{append-nil, append_assoc}
use svcmetrics.Errors.{Err, Result, ok, err}
use svcmetrics.Audit.{Event}
use svcmetrics.Audit.FileLog.{
  Outcome, done, failed, newline, encoded_event, file_update, file_updates,
}

-- The lines of a text that ends with a newline; what stands behind the last one is none.
lines_from : List ℕ → List ℕ → List (List ℕ)
lines_from line [] = []
lines_from line (b ∷ bytes) =
    let next = lines_from [] bytes in
    let more = lines_from (line ++ b ∷ []) bytes in
    elim (b == newline) [ true ↦ line ∷ next | false ↦ more ]

unfoldable pub lines : List ℕ → List (List ℕ)
unfolding lines_from
lines bytes = lines_from [] bytes

-- JSON has no newline in it.
abbrev pub IsOneLine : List ℕ → Type 0
IsOneLine line = All (λ b. (b == newline) ≡ false) line

lines_from-line :
    (before line rest : List ℕ)
    → IsOneLine line
    → lines_from before (line ++ newline ∷ rest) ≡ (before ++ line) ∷ lines_from [] rest
unfolding lines_from
lines_from-line before [] rest h = rw append-nil refl
lines_from-line before (b ∷ line) rest h =
    rw (h.0, lines_from)
      (lines_from-line (before ++ b ∷ []) line rest h.1
        ∙ ap (λ l. l ∷ lines_from [] rest) (append_assoc before (b ∷ []) line))

-- The text of some lines.
abbrev pub text_of : List (List ℕ) → List ℕ
text_of [] = []
text_of (l ∷ ls) = (l ++ newline ∷ []) ++ text_of ls

lines_from-pending : (before pending : List ℕ) → IsOneLine pending → lines_from before pending ≡ []
unfolding lines_from
lines_from-pending before [] h = refl
lines_from-pending before (b ∷ pending) h =
    rw (h.0, lines_from) (lines_from-pending (before ++ b ∷ []) pending h.1)

lines-text_of :
    (ls : List (List ℕ)) (pending : List ℕ)
    → All IsOneLine ls
    → IsOneLine pending
    → lines (text_of ls ++ pending) ≡ ls
unfolding lines
lines-text_of [] pending h k = lines_from-pending [] pending k
lines-text_of (l ∷ ls) pending h k =
    ap (lines_from []) (
      append_assoc (l ++ newline ∷ []) (text_of ls) pending
      ∙ append_assoc l (newline ∷ []) (text_of ls ++ pending))
    ∙ lines_from-line [] l (text_of ls ++ pending) h.0
    ∙ ap (λ k. l ∷ k) (lines-text_of ls pending h.1 k)

text_of-append : (ks ls : List (List ℕ)) → text_of (ks ++ ls) ≡ text_of ks ++ text_of ls
text_of-append [] ls = refl
text_of-append (k ∷ ks) ls =
    ap (λ t. (k ++ newline ∷ []) ++ t) (text_of-append ks ls)
    ∙ sym (append_assoc (k ++ newline ∷ []) (text_of ks) (text_of ls))

module _ (marshal : Event → Result (List ℕ)) where
  -- JSON and what a failed write leaves of it stand on one line.
  abbrev EncodedOneLine : Result (List ℕ) → Type 0
  EncodedOneLine (ok line) = IsOneLine line
  EncodedOneLine (err e) = Unit

  abbrev LeftOneLine : Outcome → Type 0
  LeftOneLine done = Unit
  LeftOneLine (failed part e) = IsOneLine part

  abbrev pub AreLines : List (Event × Outcome) → Type 0
  AreLines [] = Unit
  AreLines ((e, o) ∷ rest) = EncodedOneLine (marshal e) × LeftOneLine o × AreLines rest

  abbrev left_bytes : Result (List ℕ) → Outcome → List ℕ
  left_bytes (ok line) (failed part e) = part
  left_bytes _ _ = []

  abbrev line_of : Result (List ℕ) → List ℕ
  line_of (ok line) = line
  line_of (err e) = []

  -- The events whose Update answered no error, each behind the bytes that failed writes left since the last
  -- one; at first these are `pending`.
  abbrev pub acknowledged : List ℕ → List (Event × Outcome) → List (Option Err) → List (List ℕ)
  acknowledged pending ((e, o) ∷ rest) (none ∷ answers) =
      (pending ++ line_of (marshal e)) ∷ acknowledged [] rest answers
  acknowledged pending ((e, o) ∷ rest) (some _ ∷ answers) =
      acknowledged (pending ++ left_bytes (marshal e) o) rest answers
  acknowledged pending _ _ = []

  IsOneLine-append : (k l : List ℕ) → IsOneLine k → IsOneLine l → IsOneLine (k ++ l)
  IsOneLine-append k l h g = All-append (λ b. (b == newline) ≡ false) k l h g

  module _ (rest : List (Event × Outcome))
      (later : (ls : List (List ℕ)) (pending : List ℕ)
        → All IsOneLine ls
        → IsOneLine pending
        → let (answers, content) = file_updates marshal rest (text_of ls ++ pending) in
          lines content ≡ ls ++ acknowledged pending rest answers) where
    -- One update before the rest.
    -- What the rest makes of a content.
    abbrev Ends : List ℕ → (List (Option Err) → List (List ℕ)) → Type 0
    Ends content all =
        let (answers, content') = file_updates marshal rest content in lines content' ≡ all answers

    encoded_event-lines :
        (r : Result (List ℕ)) (e : Event) (o : Outcome) (ls : List (List ℕ)) (pending : List ℕ)
        → marshal e ≡ r
        → EncodedOneLine r
        → LeftOneLine o
        → All IsOneLine ls
        → IsOneLine pending
        → let (answer, content) = encoded_event r o (text_of ls ++ pending) in
          let (answers, content') = file_updates marshal rest content in
          lines content' ≡ ls ++ acknowledged pending ((e, o) ∷ rest) (answer ∷ answers)
    encoded_event-lines (err x) e o ls pending same one left hs h =
        rw (same, append-nil) (later ls pending hs h)
    encoded_event-lines (ok line) e done ls pending same one left hs h =
        let whole = pending ++ line in
        let all = λ (answers : List (Option Err)). ls ++ (whole ∷ acknowledged [] rest answers) in
        let content : text_of (ls ++ whole ∷ []) ++ []
            ≡ (text_of ls ++ pending) ++ (line ++ newline ∷ []) =
          append-nil (text_of (ls ++ whole ∷ []))
          ∙ text_of-append ls (whole ∷ [])
          ∙ simp (append-nil, append_assoc) in
        rw same (
          subst (λ t. Ends t all) content
            (later (ls ++ whole ∷ []) []
                (All-append IsOneLine ls (whole ∷ []) hs (IsOneLine-append pending line h one, tt))
                tt
              ∙ append_assoc ls (whole ∷ []) _))
    encoded_event-lines (ok line) e (failed part x) ls pending same one left hs h = rw same (
        subst (λ t. Ends t (λ answers. ls ++ acknowledged (pending ++ part) rest answers))
          (sym (append_assoc (text_of ls) pending part))
          (later ls (pending ++ part) hs (IsOneLine-append pending part h left)))

  file_updates-lines_from :
      (steps : List (Event × Outcome)) (ls : List (List ℕ)) (pending : List ℕ)
      → AreLines steps
      → All IsOneLine ls
      → IsOneLine pending
      → let (answers, content) = file_updates marshal steps (text_of ls ++ pending) in
        lines content ≡ ls ++ acknowledged pending steps answers
  unfolding file_updates file_update
  file_updates-lines_from [] ls pending a hs h = lines-text_of ls pending hs h ∙ sym (append-nil ls)
  file_updates-lines_from ((e, o) ∷ rest) ls pending (one, left, a) hs h =
      encoded_event-lines rest (λ ks p. file_updates-lines_from rest ks p a) (marshal e) e o ls
        pending refl one left hs h

  -- Where the JSON of no event and what no failed write leaves of it has a newline: behind any updates of
  -- a file of whole lines, its lines are those that it had and then the JSON of the events whose Update answered
  -- no error, in their order, each on a line of its own but for the bytes that writes which failed since
  -- the last such event left before it.
  pub file_updates-lines :
      (steps : List (Event × Outcome)) (ls : List (List ℕ))
      → AreLines steps
      → All IsOneLine ls
      → let (answers, content) = file_updates marshal steps (text_of ls) in
        lines content ≡ ls ++ acknowledged [] steps answers
  file_updates-lines steps ls a hs =
      subst
        (λ t.
          let (answers, content) = file_updates marshal steps t in
          lines content ≡ ls ++ acknowledged [] steps answers)
        (append-nil (text_of ls)) (file_updates-lines_from steps ls [] a hs tt)
