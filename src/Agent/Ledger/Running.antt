-- ===== src/Agent/Ledger/Running.antt =====
-- The goroutines of Run: the collectors, the reporter and the workers, in every order of their steps.
pub mod Balance
use svcmetrics.Base.{
  ℕ, ◌<◌, ◌≡◌, refl, sym, ap, ◌∙◌, String, Bool, Option, none, some, List, [], ◌∷◌, ◌++◌, length,
  get_or, arith,
}
use mathlib.Core.Path.{subst}
use mathlib.Core.Option.{some-injective, none-ne-some}
use mathlib.Core.List.{append-nil, append_assoc}
use svcmetrics.Base.Dict.{lookup, lookup-insert_self}
use svcmetrics.Base.Word.{Int64, word_mod, add64, sub64, add64-lt, add64_assoc, add64_comm}
use svcmetrics.Errors.{Err, Result, ok, err}
use svcmetrics.Model.{Metrics}
use svcmetrics.Retry.{Runtime, do_op}
use svcmetrics.Agent.{Agent, MemStats, new_agent, collect_runtime_metrics, collect_system_metrics}
use svcmetrics.Agent.Collect.{sent, collect_batch, return_counters}
use svcmetrics.Agent.Collect.Owed.{carried, carried-append, owed-return_counters}
use svcmetrics.Agent.Report.{
  send_with_retry, give_up, attempt, retry_config, enqueue, offer_batches, after_offers,
}
use svcmetrics.Agent.Report.Chunks.{concat, offer_batches_kept}
use svcmetrics.Agent.Ledger.{
  polls, due, weight, split_due, return_counters-counters, collect_batch-counters,
  collect_batch-batch_size,
}

-- The agent, the batches that workers hold, and the metrics of the reports that succeeded.
pub record State (F : Type 0) : Type 0 where
  pub agent : Agent F
  pub held : List (List (Metrics F))
  pub delivered : List (Metrics F)

-- What a report that ended without an error has delivered.
abbrev pub arrived : {F : Type 0} → Option Err → List (Metrics F) → List (Metrics F)
arrived none batch = batch
arrived (some e) batch = []

module _ {S F : Type 0} (send : List (Metrics F) → S → Option Err × S) (rt : Runtime S)
    (on_retry : Option (Err → ℕ → ℕ → S → S)) (report_error : Err → S → S) where
  -- One step: a poll of either collector, a tick of the reporter with the chunks that workers took, or
  -- the end of a worker's report, which begins in the world `s`.
  pub data Step : State F → State F → Type 0 where
    polled :
        (ms : MemStats F) (random : F) (st : State F)
        → Step st (record st { agent = collect_runtime_metrics ms random st.agent })
    host_polled :
        (itoa : ℕ → String) (vm : Result (F × F)) (loads : Result (List F)) (st : State F)
        → Step st (record st { agent = (collect_system_metrics itoa vm loads st.agent).1 })
    reported :
        (taken : ℕ → Bool) (go : Bool) (batches : List (List (Metrics F))) (a : Agent F)
        (st : State F)
        → enqueue st.agent taken ≡ some (go, batches, a)
        → Step st (record st { agent = a; held = st.held ++ batches })
    worked :
        (before after : List (List (Metrics F))) (batch : List (Metrics F)) (s : S) (st : State F)
        → st.held ≡ before ++ batch ∷ after
        → Step st (record {
          agent = (send_with_retry send rt on_retry report_error batch st.agent s).0;
          held = before ++ after;
          delivered =
              st.delivered
              ++ arrived
                  (do_op rt
                    (retry_config send on_retry)
                    (attempt send rt on_retry report_error batch)
                    s).1
                  batch;
        })

  pub data Reach (start : Agent F) : State F → Type 0 where
    started : Reach start (record { agent = start; held = []; delivered = [] })
    stepped : {st st' : State F} → Reach start st → Step st st' → Reach start st'
