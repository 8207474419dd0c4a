-- ===== src/Agent/Ledger.antt =====
-- The deltas of the poll counter through the agent's reports: each increment is owed, on its way, or
-- delivered.
pub mod Running
use svcmetrics.Base.{
  ℕ, ◌<◌, ◌≡◌, refl, sym, ap, ◌∙◌, String, Bool, Option, none, some, List, [], ◌∷◌, ◌++◌, length,
  get_or, if_keeps, arith,
}
use mathlib.Core.Path.{subst}
use svcmetrics.Base.Dict.{lookup, lookup-insert_self}
use svcmetrics.Base.Word.{Int64, word_mod, add64, sub64, add64-lt, add64_assoc, add64_comm}
use svcmetrics.Errors.{Err, Result}
use svcmetrics.Model.{Metrics, is_counter}
use svcmetrics.Agent.{Agent, MemStats, collect_runtime_metrics, collect_system_metrics}
use svcmetrics.Agent.Collect.{
  total, sent, collect_batch, snapshot_batch, take_counters, give_back, return_one, return_counters,
}
use svcmetrics.Agent.Collect.Owed.{
  owed, carried, carried-append, owed-return_counters, collect_batch-owed,
}
use svcmetrics.Agent.Report.{
  send_batches, settle, send_metrics, give_up, enqueue, offer_batches, is_empty,
}
use svcmetrics.Agent.Report.Chunks.{
  concat, Accepted, Ending, done, failed, Sent, send_batches-Sent, offer_batches_whole,
}

from_zero : (b g : Int64) → add64 (add64 0 b) g ≡ add64 g b
unfolding add64
from_zero b g = omega arith

module _ {F : Type 0} where
  return_one-counters : (m : Metrics F) (a : Agent F) → (return_one m a).counters ≡ a.counters
  unfolding return_one
  return_one-counters m a =
      if_keeps (λ (b : Agent F). b.counters ≡ a.counters) (is_counter m.mtype) (kept m.delta) refl
    where
      kept : (d : Option Int64) → (give_back m.id d a).counters ≡ a.counters
      kept none = refl
      kept (some d) = refl

  pub return_counters-counters :
      (ms : List (Metrics F)) (a : Agent F) → (return_counters ms a).counters ≡ a.counters
  unfolding return_counters
  return_counters-counters [] a = refl
  return_counters-counters (m ∷ ms) a =
      return_counters-counters ms (return_one m a) ∙ return_one-counters m a

  pub collect_batch-counters : (a : Agent F) → (collect_batch a).1.counters ≡ a.counters
  unfolding collect_batch snapshot_batch take_counters
  collect_batch-counters a = refl

  pub collect_batch-batch_size : (a : Agent F) → (collect_batch a).1.batch_size ≡ a.batch_size
  unfolding collect_batch snapshot_batch take_counters
  collect_batch-batch_size a = refl

  abbrev pub polls : Agent F → Int64
  polls = total "PollCount"

  abbrev pub due : Agent F → Int64
  due = owed "PollCount"

  abbrev pub weight : List (Metrics F) → Int64
  weight = carried "PollCount"

  -- What is given back of a batch that was just collected, and what is not, are what was owed.
  pub split_due :
      (a : Agent F) (gone back : List (Metrics F))
      → gone ++ back ≡ (collect_batch a).0
      → add64 (due (return_counters back (collect_batch a).1)) (weight gone) ≡ due a
  split_due a gone back whole =
      ap (λ o. add64 o (weight gone))
        (owed-return_counters "PollCount" back (collect_batch a).1
          ∙ ap (λ o. add64 o (weight back)) (collect_batch-owed a).1)
      ∙ from_zero (weight back) (weight gone)
      ∙ sym (carried-append "PollCount" gone back)
      ∙ ap weight whole
      ∙ (collect_batch-owed a).0

module _ {S F : Type 0} (send : List (Metrics F) → S → Option Err × S) where
  -- What the state after SendMetrics, with its answer, has to do with the agent before.
  pub record Settled (a : Agent F) (s : S) (out : Option Err × Agent F × S) : Type 0 where
    pub chunks : List (List (Metrics F))
    pub seen : S
    pub accepted : Accepted send s chunks seen
    pub balance : add64 (due out.1) (weight (concat chunks)) ≡ due a
    pub same_polls : polls out.1 ≡ polls a

  settle-Settled :
      (a : Agent F) (s : S) (size : ℕ) (chunks : List (List (Metrics F))) (seen : S)
      (r : (List (Metrics F) × Option Err) × S)
      → Accepted send s chunks seen
      → Ending send size seen r
      → concat chunks ++ r.0.0 ≡ (collect_batch a).0
      → Settled a s (settle send (collect_batch a).1 r)
  unfolding return_counters
  settle-Settled a s size chunks seen r accepted done whole = record {
    chunks = chunks;
    seen = seen;
    accepted = accepted;
    balance = split_due a (concat chunks) [] whole;
    same_polls = ap (λ c. get_or 0 (lookup "PollCount" c)) (collect_batch-counters a);
  }
  settle-Settled a s size chunks seen r accepted (failed unsent e s' refused) whole = record {
    chunks = chunks;
    seen = seen;
    accepted = accepted;
    balance = split_due a (concat chunks) unsent whole;
    same_polls =
        ap (λ c. get_or 0 (lookup "PollCount" c))
          (return_counters-counters unsent (collect_batch a).1 ∙ collect_batch-counters a);
  }

  -- With a positive batch size SendMetrics always returns, and what is due of the poll counter is then
  -- what it was less what the chunks carry that the server accepted, one after another; the counter
  -- itself stays.
  pub send_metrics-Settled :
      (a : Agent F) (s : S)
      → 0 < a.batch_size
      → (out : Option Err × Agent F × S) × (send_metrics send a s ≡ some out) × Settled a s out
  unfolding send_metrics
  send_metrics-Settled a s pos =
      let pending = (collect_batch a).0 in
      let a' = (collect_batch a).1 in
      let (r, runs, sent) =
        send_batches-Sent send (length pending) a'.batch_size pending s
          (subst (λ n. 0 < n) (sym (collect_batch-batch_size a)) pos) (omega arith) in
      (
        settle send a' r,
        rw (send_metrics, runs) refl,
        settle-Settled a s a'.batch_size sent.chunks sent.seen r sent.accepted sent.ending
            sent.whole,
      )
