-- ===== src/Audit/Closing.antt =====
-- What Close leads to: nothing new is accepted, and every queue is drained.
use svcmetrics.Base.{
  ℕ, zero, suc, ◌≡◌, refl, sym, ap, ◌∙◌, true, false, Option, some, List, [], ◌∷◌, ◌++◌, map,
  length, get_elem?, if_keeps, arith,
}
use mathlib.Core.List.{append-nil, append_assoc}
use mathlib.Core.Option.{some-injective, none-ne-some}
use svcmetrics.Errors.{Err}
use svcmetrics.Audit.{
  Event, Worker, Publisher, register, publish, deliver, deliver_at, deliver_one, hand_over, close,
  Action, registering, publishing, delivering, closing, act, run,
}
use svcmetrics.Audit.Delivery.{history}

deliver_one-history : (w : Worker) → history (deliver_one true w) ≡ history w
unfolding deliver_one
deliver_one-history w =
    if_keeps (λ (v : Worker). history v ≡ history w) w.running (handed w.queue refl) refl
  where
    handed : (es : List Event) → w.queue ≡ es → history (hand_over true w es) ≡ history w
    handed [] _ = refl
    handed (e ∷ es) held =
        append_assoc w.received (e ∷ []) es ∙ ap (λ q. w.received ++ q) (sym held)

deliver_at-history :
    (i : ℕ) (ws : List Worker) → map history (deliver_at i true ws) ≡ map history ws
unfolding deliver_at
deliver_at-history i [] = refl
deliver_at-history zero (w ∷ ws) = rw (deliver_one-history w) refl
deliver_at-history (suc i) (w ∷ ws) = rw (deliver_at-history i ws) refl

act-history :
    (a : Action) (p : Publisher)
    → p.closed ≡ true
    → ((act a p).closed ≡ true) × (map history (act a p).workers ≡ map history p.workers)
unfolding act register publish deliver close
act-history (registering name) p shut = rw shut (refl, refl)
act-history (publishing e) p shut = rw shut (refl, refl)
act-history (delivering i err) p shut = (shut, rw shut (deliver_at-history i p.workers))
act-history closing p shut = (refl, refl)

-- A closed publisher accepts nothing: over every sequence of steps after Close, the observers and what
-- each has been given together with what its queue holds stay the same.
pub run-closed :
    (actions : List Action) (p : Publisher)
    → p.closed ≡ true
    → map history (run actions p).workers ≡ map history p.workers
unfolding run
run-closed [] p shut = refl
run-closed (a ∷ rest) p shut =
    let kept = act-history a p shut in run-closed rest (act a p) kept.0 ∙ kept.1

-- The worker whose goroutine has ended with its whole history delivered.
abbrev pub drained : Worker → Worker
drained w = record w { queue = []; received = history w; running = false }

deliver_at-place :
    (i : ℕ) (ws : List Worker) (w : Worker)
    → get_elem? ws i ≡ some w
    → get_elem? (deliver_at i true ws) i ≡ some (deliver_one true w)
unfolding deliver_at
deliver_at-place i [] w found = absurd (none-ne-some w found)
deliver_at-place zero (v ∷ vs) w found = rw (some-injective _ _ found) refl
deliver_at-place (suc i) (v ∷ vs) w found = deliver_at-place i vs w found

delivering-place :
    (i : ℕ) (err : Option Err) (p : Publisher) (w : Worker)
    → p.closed ≡ true
    → get_elem? p.workers i ≡ some w
    → get_elem? (act (delivering i err) p).workers i ≡ some (deliver_one true w)
unfolding act deliver
delivering-place i err p w shut found = rw shut (deliver_at-place i p.workers w found)

delivering-closed :
    (i : ℕ) (err : Option Err) (p : Publisher)
    → p.closed ≡ true
    → (act (delivering i err) p).closed ≡ true
unfolding act deliver
delivering-closed i err p shut = shut

abbrev fed : Event → List Event → Worker → Worker
fed e es w = record w { queue = es; received = w.received ++ e ∷ [] }

drains_empty : (w : Worker) → w.queue ≡ [] → w.running ≡ true → deliver_one true w ≡ drained w
unfolding deliver_one
drains_empty w held on = simp (on, held, append-nil w.received)

drains_next :
    (w : Worker) (e : Event) (es : List Event)
    → w.queue ≡ e ∷ es
    → w.running ≡ true
    → deliver_one true w ≡ fed e es w
unfolding deliver_one
drains_next w e es held on = simp (on, held)

fed-drained :
    (w : Worker) (e : Event) (es : List Event) → w.queue ≡ e ∷ es → drained (fed e es w) ≡ drained w
fed-drained w e es held =
    ap (λ h. record w { queue = []; received = h; running = false })
      (append_assoc w.received (e ∷ []) es ∙ ap (λ q. w.received ++ q) (sym held))

drains :
    (queue : List Event) (answers : List (Option Err)) (i : ℕ) (p : Publisher) (w : Worker)
    → w.queue ≡ queue
    → w.running ≡ true
    → p.closed ≡ true
    → get_elem? p.workers i ≡ some w
    → length answers ≡ suc (length queue)
    → get_elem? (run (map (delivering i) answers) p).workers i ≡ some (drained w)
unfolding run
drains queue [] i p w held on shut found enough = absurd (omega arith)
drains [] (a ∷ []) i p w held on shut found enough =
    delivering-place i a p w shut found ∙ ap some (drains_empty w held on)
drains [] (a ∷ b ∷ rest) i p w held on shut found enough = absurd (omega arith)
drains (e ∷ es) (a ∷ rest) i p w held on shut found enough =
    drains es rest i (act (delivering i a) p) (fed e es w) refl on (delivering-closed i a p shut)
      (delivering-place i a p w shut found ∙ ap some (drains_next w e es held on)) (omega arith)
    ∙ ap some (fed-drained w e es held)

-- Close leads to an end: a worker that is running when the publisher is closed, after as many rounds of
-- its goroutine as its queue has events and one more, has stopped, and its observer was given all of its
-- history, whatever the observer answers to each event.
pub close-drains :
    (i : ℕ) (p : Publisher) (w : Worker) (answers : List (Option Err))
    → get_elem? p.workers i ≡ some w
    → w.running ≡ true
    → length answers ≡ suc (length w.queue)
    → get_elem? (run (closing ∷ map (delivering i) answers) p).workers i ≡ some (drained w)
unfolding run act close
close-drains i p w answers found on enough =
    drains w.queue answers i (close p) w refl on refl found enough
