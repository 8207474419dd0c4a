-- ===== src/Agent/Ledger/Running/Balance.antt =====
-- The balance of the poll counter over the steps of Run.
use svcmetrics.Base.{
  ℕ, ◌<◌, ◌≡◌, refl, sym, ap, ◌∙◌, String, Bool, Option, none, some, List, [], ◌∷◌, ◌++◌, length,
  get_or, arith,
}
use mathlib.Core.Path.{subst}
use mathlib.Core.Option.{some-injective, none-ne-some}
use mathlib.Core.List.{append-nil, append_assoc}
use svcmetrics.Base.Dict.{lookup, lookup-insert_self}
use svcmetrics.Base.Word.{Int64, word_mod, add64, sub64, add64-lt}
use svcmetrics.Errors.{Err, Result, ok, err}
use svcmetrics.Model.{Metrics}
use svcmetrics.Retry.{Runtime, do_op}
use svcmetrics.Agent.{Agent, MemStats, new_agent, collect_runtime_metrics, collect_system_metrics}
use svcmetrics.Agent.Collect.{sent, collect_batch, return_counters}
use svcmetrics.Agent.Collect.Owed.{carried, carried-append, owed-return_counters}
use svcmetrics.Agent.Report.{
  send_with_retry, give_up, attempt, retry_config, enqueue, offer_batches, after_offers,
}
use svcmetrics.Agent.Report.Chunks.{concat, offer_batches_kept}
use svcmetrics.Agent.Ledger.{
  polls, due, weight, split_due, return_counters-counters, collect_batch-counters,
}
use svcmetrics.Agent.Ledger.Running.{
  State, arrived, Step, polled, host_polled, reported, worked, Reach, started, stepped,
}

concat-append :
    {A : Type 0} (xss yss : List (List A)) → concat (xss ++ yss) ≡ concat xss ++ concat yss
concat-append [] yss = refl
concat-append (xs ∷ xss) yss =
    ap (λ r. xs ++ r) (concat-append xss yss) ∙ sym (append_assoc xs (concat xss) (concat yss))

add64_one-sub64 : (t s : Int64) → sub64 (add64 t 1) s ≡ add64 (sub64 t s) 1
unfolding add64 sub64
add64_one-sub64 t s = omega arith

add64_one : (d r : Int64) → add64 (add64 d 1) r ≡ add64 (add64 d r) 1
unfolding add64
add64_one d r = omega arith

taken_weight : (d h v x : Int64) → add64 d (add64 (add64 h x) v) ≡ add64 (add64 d x) (add64 h v)
unfolding add64
taken_weight d h v x = omega arith

sent_weight :
    (d b a v x : Int64)
    → add64 d (add64 (add64 b a) (add64 v x)) ≡ add64 d (add64 (add64 b (add64 x a)) v)
unfolding add64
sent_weight d b a v x = omega arith

lost_weight :
    (d b a v x : Int64)
    → add64 (add64 d x) (add64 (add64 b a) v) ≡ add64 d (add64 (add64 b (add64 x a)) v)
unfolding add64
lost_weight d b a v x = omega arith

module _ {F : Type 0} where
  -- Each increment of the poll counter is due, on its way, or delivered.
  abbrev pub IsBalanced : State F → Type 0
  IsBalanced st =
      (add64 (due st.agent) (add64 (weight (concat st.held)) (weight st.delivered))
        ≡ polls st.agent)
      × (polls st.agent < word_mod)

  polled-due :
      (ms : MemStats F) (random : F) (a : Agent F)
      → (due (collect_runtime_metrics ms random a) ≡ add64 (due a) 1)
        × (polls (collect_runtime_metrics ms random a) ≡ add64 (polls a) 1)
  unfolding collect_runtime_metrics
  polled-due ms random a =
      rw (lookup-insert_self "PollCount" (add64 (polls a) 1) a.counters)
        (add64_one-sub64 (polls a) (sent "PollCount" a), refl)

  enqueue-due :
      (a a' : Agent F) (taken : ℕ → Bool) (go : Bool) (batches : List (List (Metrics F)))
      → enqueue a taken ≡ some (go, batches, a')
      → (add64 (due a') (weight (concat batches)) ≡ due a) × (polls a' ≡ polls a)
  unfolding enqueue
  enqueue-due a a' taken go batches e =
      taken_part (offer_batches (length pending) (collect_batch a).1.batch_size 0 taken pending)
        refl e
    where
      pending : List (Metrics F)
      pending = (collect_batch a).0

      taken_part :
          (o : Option (List (List (Metrics F)) × List (Metrics F)))
          → offer_batches (length pending) (collect_batch a).1.batch_size 0 taken pending ≡ o
          → after_offers (collect_batch a).1 o ≡ some (go, batches, a')
          → (add64 (due a') (weight (concat batches)) ≡ due a) × (polls a' ≡ polls a)
      taken_part none runs e = absurd (none-ne-some _ e)
      taken_part (some (bs, left)) runs e =
          let p = some-injective _ _ e in
          subst
            (λ (r : Bool × List (List (Metrics F)) × Agent F).
              (add64 (due r.2) (weight (concat r.1)) ≡ due a) × (polls r.2 ≡ polls a))
            p
            (
              split_due a (concat bs) left (offer_batches_kept _ _ _ taken pending bs left runs),
              ap (λ c. get_or 0 (lookup "PollCount" c))
                  (return_counters-counters left (collect_batch a).1 ∙ collect_batch-counters a),
            )

  -- What the held batches weigh, with one of them set apart.
  split_weight :
      (before after : List (List (Metrics F))) (batch : List (Metrics F))
      → weight (concat (before ++ batch ∷ after))
        ≡ add64 (weight (concat before)) (add64 (weight batch) (weight (concat after)))
  split_weight before after batch =
      ap weight (concat-append before (batch ∷ after))
      ∙ carried-append "PollCount" (concat before) (batch ++ concat after)
      ∙ ap (add64 (weight (concat before))) (carried-append "PollCount" batch (concat after))

  joined_weight :
      (before after : List (List (Metrics F)))
      → weight (concat (before ++ after)) ≡ add64 (weight (concat before)) (weight (concat after))
  joined_weight before after =
      ap weight (concat-append before after)
      ∙ carried-append "PollCount" (concat before) (concat after)

  polled-IsBalanced :
      (ms : MemStats F) (random : F) (st : State F)
      → IsBalanced st
      → IsBalanced (record st { agent = collect_runtime_metrics ms random st.agent })
  polled-IsBalanced ms random st (balance, small) =
      let (more_due, more_polls) = polled-due ms random st.agent in
      let rest = add64 (weight (concat st.held)) (weight st.delivered) in
      (
        ap (λ d. add64 d rest) more_due
            ∙ add64_one (due st.agent) rest
            ∙ ap (λ t. add64 t 1) balance
            ∙ sym more_polls,
        subst (λ n. n < word_mod) (sym more_polls) (add64-lt (polls st.agent) 1),
      )

  reported-IsBalanced :
      (taken : ℕ → Bool) (go : Bool) (batches : List (List (Metrics F))) (a : Agent F)
      (st : State F)
      → enqueue st.agent taken ≡ some (go, batches, a)
      → IsBalanced st
      → IsBalanced (record st { agent = a; held = st.held ++ batches })
  reported-IsBalanced taken go batches a st e (balance, small) =
      let (same_due, same_polls) = enqueue-due st.agent a taken go batches e in
      let h = weight (concat st.held) in
      let v = weight st.delivered in
      (
        ap (λ w. add64 (due a) (add64 w v)) (joined_weight st.held batches)
            ∙ taken_weight (due a) h v (weight (concat batches))
            ∙ ap (λ d. add64 d (add64 h v)) same_due
            ∙ balance
            ∙ sym same_polls,
        subst (λ n. n < word_mod) (sym same_polls) small,
      )

module _ {S F : Type 0} (send : List (Metrics F) → S → Option Err × S) (rt : Runtime S)
    (on_retry : Option (Err → ℕ → ℕ → S → S)) (report_error : Err → S → S) where
  given_up-IsBalanced :
      (before after : List (List (Metrics F))) (batch : List (Metrics F)) (st : State F)
      (r : (Unit {0}) × Option Err × S)
      → st.held ≡ before ++ batch ∷ after
      → IsBalanced st
      → IsBalanced (record {
        agent = (give_up send rt on_retry report_error batch st.agent r).0;
        held = before ++ after;
        delivered = st.delivered ++ arrived r.1 batch;
      })
  given_up-IsBalanced before after batch st (_, none, s) held (balance, small) =
      let d = due st.agent in
      let v = weight st.delivered in
      (
        ap (add64 d) (
              ap (λ w. add64 w (weight (st.delivered ++ batch))) (joined_weight before after)
              ∙ ap (add64 (add64 (weight (concat before)) (weight (concat after))))
                  (carried-append "PollCount" st.delivered batch))
            ∙ sent_weight d (weight (concat before)) (weight (concat after)) v (weight batch)
            ∙ ap (λ w. add64 d (add64 w v))
                (sym (ap (λ l. weight (concat l)) held ∙ split_weight before after batch))
            ∙ balance,
        small,
      )
  given_up-IsBalanced before after batch st (_, some e, s) held (balance, small) =
      let d = due st.agent in
      let v = weight st.delivered in
      let same_polls =
        ap (λ c. get_or 0 (lookup "PollCount" c)) (return_counters-counters batch st.agent) in
      (
        ap
              (λ l.
                add64 (due (return_counters batch st.agent))
                  (add64 (weight (concat (before ++ after))) (weight l)))
              (append-nil st.delivered)
            ∙ ap (λ w. add64 (due (return_counters batch st.agent)) (add64 w v))
                (joined_weight before after)
            ∙ ap (λ o. add64 o (add64 (add64 (weight (concat before)) (weight (concat after))) v))
                (owed-return_counters "PollCount" batch st.agent)
            ∙ lost_weight d (weight (concat before)) (weight (concat after)) v (weight batch)
            ∙ ap (λ w. add64 d (add64 w v))
                (sym (ap (λ l. weight (concat l)) held ∙ split_weight before after batch))
            ∙ balance
            ∙ sym same_polls,
        subst (λ n. n < word_mod) (sym same_polls) small,
      )

  host-agent :
      (itoa : ℕ → String) (vm : Result (F × F)) (loads : Result (List F)) (a : Agent F)
      → (due (collect_system_metrics itoa vm loads a).1 ≡ due a)
        × (polls (collect_system_metrics itoa vm loads a).1 ≡ polls a)
  unfolding collect_system_metrics
  host-agent itoa (err e) loads a = (refl, refl)
  host-agent itoa (ok vm) (err e) a = (refl, refl)
  host-agent itoa (ok vm) (ok loads) a = (refl, refl)

  step-IsBalanced :
      (st st' : State F)
      → Step send rt on_retry report_error st st'
      → IsBalanced st
      → IsBalanced st'
  unfolding send_with_retry
  step-IsBalanced _ _ (polled ms random st) h = polled-IsBalanced ms random st h
  step-IsBalanced _ _ (host_polled itoa vm loads st) (balance, small) =
      let (same_due, same_polls) = host-agent itoa vm loads st.agent in
      (rw (same_due, same_polls) balance, rw same_polls small)
  step-IsBalanced _ _ (reported taken go batches a st e) h =
      reported-IsBalanced taken go batches a st e h
  step-IsBalanced _ _ (worked before after batch s st held) h =
      given_up-IsBalanced before after batch st
        (do_op rt (retry_config send on_retry) (attempt send rt on_retry report_error batch) s) held
        h

  Reach-IsBalanced :
      (start : Agent F)
      → due start ≡ polls start
      → polls start < word_mod
      → (st : State F) → Reach send rt on_retry report_error start st
      → IsBalanced st
  unfolding add64 carried
  Reach-IsBalanced start fresh small st started = (omega (arith, fresh, small), small)
  Reach-IsBalanced start fresh small st (stepped r step) =
      step-IsBalanced _ st step (Reach-IsBalanced start fresh small _ r)

  -- Every poll is accounted for. Over every order of the steps of the collectors, the reporter and the
  -- workers, from a new agent on, whichever chunks find a worker and whichever reports fail for good:
  -- the poll counter is, modulo 2 ^ 64, the sum of what the agent still owes, what the held batches
  -- carry, and what the reports that succeeded carried.
  pub polls-IsBalanced :
      (trim_right : String → String → String) (endpoint : String) (poll report batch_size : Int64)
      (key : String) (rate_limit : Int64) (st : State F)
      → Reach send rt on_retry report_error
          (new_agent trim_right endpoint poll report batch_size key rate_limit)
          st
      → add64 (due st.agent) (add64 (weight (concat st.held)) (weight st.delivered))
        ≡ polls st.agent
  unfolding new_agent lookup sub64
  polls-IsBalanced trim_right endpoint poll report batch_size key rate_limit st r =
      (Reach-IsBalanced (new_agent trim_right endpoint poll report batch_size key rate_limit) refl
        (omega arith) st r).0
