-- ===== src/Repository/Postgres/Transaction.antt =====
-- internal/repository/postgres.go: updateBatchTx. The transaction works on a copy of the table, which the
-- commit puts in its place; no other client writes meanwhile.
use svcmetrics.Base.{◌≡◌, refl, ◌∙◌, String, true, Option, none, some, List, [], ◌∷◌, if◌then◌else◌}
use mathlib.Core.Path.{subst}
use svcmetrics.Base.Word.{Int64}
use svcmetrics.Model.{Metrics, is_gauge, is_counter}
use svcmetrics.Errors.{Err, Result, ok, err, has, is_commit, text, commit}
use svcmetrics.Repository.Postgres.Statements.{
  Answer, served, refused, lost, Server, Table, gauge_upsert, counter_upsert, taken, next_answer,
  called, call,
}

module _ {F : Type 0} where
  abbrev pub table_of : {A : Type 0} → Result (A × Table F) → Result (Table F)
  table_of (ok (a, t)) = ok t
  table_of (err e) = err e

  -- The statement for a row of the batch, which has the value of its type.
  abbrev pub gauge_row : String → Option F → Table F → Result (Table F)
  gauge_row name none t = ok t
  gauge_row name (some v) t = table_of (gauge_upsert name v t)

  abbrev pub counter_row : String → Option Int64 → Table F → Result (Table F)
  counter_row name none t = ok t
  counter_row name (some d) t = table_of (counter_upsert name d t)

  unfoldable pub row : Metrics F → Table F → Result (Table F)
  unfolding gauge_upsert counter_upsert
  row m t =
      if is_gauge m.mtype
      then gauge_row m.id m.value t
      else if is_counter m.mtype
      then counter_row m.id m.delta t
      else ok t

  abbrev pub executed : Metrics F → Table F → Option Err × Server F → Result (Table F) × Server F
  executed m w (none, s) = (row m w, s)
  executed m w (some e, s) = (err e, s)

  -- The loop over the rows ends at the first that fails; `rest` is what comes behind one that did not.
  abbrev pub after_row :
      (Table F → Server F → Option Err × Server F)
      → Result (Table F) × Server F
      → Option Err × Server F
  after_row rest (ok w, s) = rest w s
  after_row rest (err e, s) = (some (text "update" ∷ e), s)

  abbrev pub finished : Table F → Answer × Server F → Option Err × Server F
  finished w (served, s) = (none, record s { table = w })
  finished w (refused e, s) = (some (text "commit batch" ∷ commit ∷ e), s)
  finished w (lost e, s) = (some (text "commit batch" ∷ commit ∷ e), record s { table = w })

  unfoldable pub commit_tx : Table F → Server F → Option Err × Server F
  unfolding next_answer
  commit_tx w s = finished w (next_answer s)

  unfoldable pub write_rows : List (Metrics F) → Table F → Server F → Option Err × Server F
  unfolding row call commit_tx
  write_rows [] w s = commit_tx w s
  write_rows (m ∷ ms) w s = after_row (write_rows ms) (executed m w (call s))

  -- A call before the first row; an error ends the transaction with nothing written.
  abbrev pub stage :
      String → (Server F → Option Err × Server F) → Option Err × Server F → Option Err × Server F
  stage what next (none, s) = next s
  stage what next (some e, s) = (some (text what ∷ e), s)

  unfoldable pub update_batch_tx : List (Metrics F) → Server F → Option Err × Server F
  unfolding write_rows
  update_batch_tx batch s =
      stage "begin batch transaction"
        (λ s₁.
          stage "prepare gauge upsert"
            (λ s₂. stage "prepare counter upsert" (λ s₃. write_rows batch s₃.table s₃) (call s₂))
            (call s₁))
        (call s)

  -- The rows of a batch on a table: none where a sum is out of range.
  abbrev pub on_rows : (Table F → Option (Table F)) → Result (Table F) → Option (Table F)
  on_rows rest (ok t) = rest t
  on_rows rest (err e) = none

  unfoldable pub rows : List (Metrics F) → Table F → Option (Table F)
  rows [] t = some t
  rows (m ∷ ms) t = on_rows (rows ms) (row m t)

  -- How a transaction over the table `t` may end, with `whole` for its rows on `t`.
  pub data Ended (t : Table F) (whole : Option (Table F)) : Option Err × Server F → Type 0 where
    applied : (w : Table F) (s : Server F) → whole ≡ some w → s.table ≡ w → Ended t whole (none, s)
    unapplied : (e : Err) (s : Server F) → s.table ≡ t → Ended t whole (some e, s)
    unknown :
        (e : Err) (w : Table F) (s : Server F)
        → has is_commit e ≡ true
        → whole ≡ some w
        → s.table ≡ w
        → Ended t whole (some e, s)

  taken-table : (l : List Answer) (s : Server F) → (taken l s).1.table ≡ s.table
  taken-table [] s = refl
  taken-table (a ∷ rest) s = refl

  pub next_answer-table : (s : Server F) → (next_answer s).1.table ≡ s.table
  unfolding next_answer
  next_answer-table s = taken-table s.answers s

  called-table : (p : Answer × Server F) → (called p).1.table ≡ p.1.table
  called-table (served, s) = refl
  called-table (refused e, s) = refl
  called-table (lost e, s) = refl

  pub call-table : (s : Server F) → (call s).1.table ≡ s.table
  unfolding call
  call-table s = called-table (next_answer s) ∙ next_answer-table s

  finished-Ended :
      (t w : Table F) (whole : Option (Table F)) (p : Answer × Server F)
      → p.1.table ≡ t
      → whole ≡ some w
      → Ended t whole (finished w p)
  unfolding has
  finished-Ended t w whole (served, s) same e = applied w _ e refl
  finished-Ended t w whole (refused x, s) same e = unapplied _ s same
  finished-Ended t w whole (lost x, s) same e = unknown _ w _ refl e refl

  write_rows-Ended :
      (ms : List (Metrics F)) (w t : Table F) (s : Server F)
      → s.table ≡ t
      → Ended t (rows ms w) (write_rows ms w s)
  unfolding write_rows rows commit_tx
  write_rows-Ended [] w t s same =
      finished-Ended t w (some w) (next_answer s) (next_answer-table s ∙ same) refl
  write_rows-Ended (m ∷ ms) w t s same =
      exec (call s) (call-table s ∙ same) (λ w' s' e. write_rows-Ended ms w' t s' e)
    where
      branch :
          (r : Result (Table F)) (s' : Server F)
          → s'.table ≡ t
          → ((w' : Table F) (s' : Server F)
              → s'.table ≡ t
              → Ended t (rows ms w') (write_rows ms w' s'))
          → Ended t (on_rows (rows ms) r) (after_row (write_rows ms) (r, s'))
      branch (ok w') s' same' rest = rest w' s' same'
      branch (err e) s' same' rest = unapplied _ s' same'

      exec :
          (p : Option Err × Server F)
          → p.1.table ≡ t
          → ((w' : Table F) (s' : Server F)
              → s'.table ≡ t
              → Ended t (rows ms w') (write_rows ms w' s'))
          → Ended t (on_rows (rows ms) (row m w)) (after_row (write_rows ms) (executed m w p))
      exec (none, s') same' rest = branch (row m w) s' same' rest
      exec (some e, s') same' rest = unapplied _ s' same'

  stage-Ended :
      (t : Table F) (whole : Option (Table F)) (what : String)
      (next : Server F → Option Err × Server F) (p : Option Err × Server F)
      → p.1.table ≡ t
      → ((s : Server F) → s.table ≡ t → Ended t whole (next s))
      → Ended t whole (stage what next p)
  stage-Ended t whole what next (none, s) same rest = rest s same
  stage-Ended t whole what next (some e, s) same rest = unapplied _ s same

  -- A transaction that succeeds has written all rows; one that fails has written nothing, or it failed at
  -- the commit, and then it may have written all.
  pub update_batch_tx-Ended :
      (ms : List (Metrics F)) (t : Table F) (s : Server F)
      → s.table ≡ t
      → Ended t (rows ms t) (update_batch_tx ms s)
  unfolding update_batch_tx
  update_batch_tx-Ended ms t s same = stage-Ended t _ _ _ (call s) (call-table s ∙ same) λ s₁ e₁.
      stage-Ended t _ _ _ (call s₁) (call-table s₁ ∙ e₁) λ s₂ e₂.
        stage-Ended t _ _ _ (call s₂) (call-table s₂ ∙ e₂) λ s₃ e₃.
          subst (λ u. Ended t (rows ms u) (write_rows ms s₃.table s₃)) e₃
            (write_rows-Ended ms s₃.table t s₃ e₃)
