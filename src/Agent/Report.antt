-- ===== src/Agent/Report.antt =====
-- internal/agent/agent.go: the reports. `send` is sendBatch behind its check for an empty batch: the
-- encoding, the request and the answer of the server, on a world `S`.
pub mod Chunks
use svcmetrics.Base.{
  ℕ, zero, suc, ◌+◌, Bool, true, false, Option, none, some, List, [], ◌∷◌, length, if◌then◌else◌,
  take, drop,
}
use svcmetrics.Errors.{Err}
use svcmetrics.Model.{Metrics}
use svcmetrics.Retry.{Config, Runtime, Operation, do_op}
use svcmetrics.Agent.{Agent, is_retriable_send_error}
use svcmetrics.Agent.Collect.{collect_batch, return_counters}

module _ {S F : Type 0} (send : List (Metrics F) → S → Option Err × S) where
  unfoldable pub send_batch : List (Metrics F) → S → Option Err × S
  send_batch [] s = (none, s)
  send_batch (m ∷ ms) s = send (m ∷ ms) s

  -- What a chunk that was sent leads to; `rest` sends what is behind it.
  abbrev pub after_chunk :
      List (Metrics F)
      → (S → Option ((List (Metrics F) × Option Err) × S))
      → Option Err × S
      → Option ((List (Metrics F) × Option Err) × S)
  after_chunk metrics rest (none, s) = rest s
  after_chunk metrics rest (some e, s) = some ((metrics, some e), s)

  -- The loop, on the metrics from `start` on, of at most `fuel` rounds; none where the fuel is used up.
  -- The answer is the metrics that were not accepted, and the error.
  unfoldable pub send_batches :
      ℕ → ℕ → List (Metrics F) → S → Option ((List (Metrics F) × Option Err) × S)
  unfolding send_batch
  send_batches fuel size [] s = some (([], none), s)
  send_batches zero size (m ∷ ms) s = none
  send_batches (suc fuel) size (m ∷ ms) s =
      after_chunk (m ∷ ms) (send_batches fuel size (drop size (m ∷ ms)))
        (send_batch (take size (m ∷ ms)) s)

  -- The end of SendMetrics: an error hands the unsent metrics back.
  abbrev pub settle : Agent F → (List (Metrics F) × Option Err) × S → Option Err × Agent F × S
  settle a ((unsent, none), s) = (none, a, s)
  settle a ((unsent, some e), s) = (some e, return_counters unsent a, s)

  unfoldable pub send_metrics : Agent F → S → Option (Option Err × Agent F × S)
  unfolding send_batches
  send_metrics a s =
      let (pending, a') = collect_batch a in
      elim (send_batches (length pending) a'.batch_size pending s) [
        | none ↦ none
        | some r ↦ some (settle a' r)
      ]

  -- retry.Config of New: the agent's test, the default intervals and the observer that was set.
  unfoldable pub retry_config : Option (Err → ℕ → ℕ → S → S) → Config S
  retry_config on_retry = record {
    intervals = none;
    retriable = some (λ e. is_retriable_send_error (some e));
    on_retry = on_retry;
  }

  module _ (rt : Runtime S) (on_retry : Option (Err → ℕ → ℕ → S → S))
      (report_error : Err → S → S) where
    abbrev pub give_up : List (Metrics F) → Agent F → (Unit {0}) × Option Err × S → Agent F × S
    give_up batch a (_, none, s) = (a, s)
    give_up batch a (_, some e, s) = (return_counters batch a, report_error e s)

    -- The operation that Do repeats.
    unfoldable pub attempt : List (Metrics F) → Operation S (Unit {0})
    unfolding send_batch
    attempt batch s = let (e, s') = send_batch batch s in (tt, e, s')

    unfoldable pub send_with_retry : List (Metrics F) → Agent F → S → Agent F × S
    unfolding attempt
    send_with_retry batch a s = give_up batch a (do_op rt (retry_config on_retry) (attempt batch) s)

-- The select of enqueue in each round: whether a worker took the chunk; if not, the context is
-- cancelled. The answer is the batches taken, oldest first, and the metrics that nobody took; none
-- where the fuel is used up.
abbrev pub after_offer :
    {F : Type 0}
    → List (Metrics F)
    → ℕ
    → Bool
    → Option (List (List (Metrics F)) × List (Metrics F))
    → Option (List (List (Metrics F)) × List (Metrics F))
after_offer metrics size false rest = some ([], metrics)
after_offer metrics size true none = none
after_offer metrics size true (some (batches, left)) = some (take size metrics ∷ batches, left)

unfoldable pub offer_batches :
    {F : Type 0}
    → ℕ
    → ℕ
    → ℕ
    → (ℕ → Bool)
    → List (Metrics F)
    → Option (List (List (Metrics F)) × List (Metrics F))
offer_batches fuel size round taken [] = some ([], [])
offer_batches zero size round taken (m ∷ ms) = none
offer_batches (suc fuel) size round taken (m ∷ ms) =
    after_offer (m ∷ ms) size (taken round)
      (offer_batches fuel size (suc round) taken (drop size (m ∷ ms)))

-- Whether the reporter goes on.
abbrev pub is_empty : {A : Type 0} → List A → Bool
is_empty [] = true
is_empty (_ ∷ _) = false

abbrev pub after_offers :
    {F : Type 0}
    → Agent F
    → Option (List (List (Metrics F)) × List (Metrics F))
    → Option (Bool × List (List (Metrics F)) × Agent F)
after_offers a none = none
after_offers a (some (batches, left)) = some (is_empty left, batches, return_counters left a)

unfoldable pub enqueue :
    {F : Type 0} → Agent F → (ℕ → Bool) → Option (Bool × List (List (Metrics F)) × Agent F)
unfolding offer_batches
enqueue a taken =
    let (pending, a') = collect_batch a in
    after_offers a' (offer_batches (length pending) a'.batch_size 0 taken pending)
