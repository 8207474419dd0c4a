-- ===== src/Audit/Waiting.antt =====
-- What a Close that answers nil has waited for.
use svcmetrics.Base.{
  ℕ, zero, suc, ◌≡◌, refl, sym, ap, ◌∙◌, Bool, true, false, Option, none, some, List, [], ◌∷◌, ◌++◌,
  map, if_keeps, if_cases, length, ltb, Bool-cases, inl, inr, All, All-append, arith,
}
use mathlib.Core.Path.{subst}
use mathlib.Core.List.{append-nil}
use svcmetrics.Base.Word.{Int64}
use svcmetrics.Errors.{Err}
use svcmetrics.Audit.{
  Event, Worker, Publisher, new_publisher, register, publish, offer, deliver, deliver_at,
  deliver_one, hand_over, close, Action, registering, publishing, delivering, closing, act, run,
  all_ended, select_done, close_and_wait,
}
use svcmetrics.Audit.Delivery.{history}
use svcmetrics.Audit.Closing.{run-closed}

-- A goroutine that has ended left no event behind, and ends only behind Close.
abbrev IsSettled : Bool → Worker → Type 0
IsSettled closed w = w.running ≡ false → (w.queue ≡ []) × (closed ≡ true)

abbrev AreSettled : Publisher → Type 0
AreSettled p = All (IsSettled p.closed) p.workers

hand_over-IsSettled :
    (closed : Bool) (w : Worker) (es : List Event)
    → w.running ≡ true
    → w.queue ≡ es
    → IsSettled closed (hand_over closed w es)
hand_over-IsSettled true w [] on e h = (e, refl)
hand_over-IsSettled false w [] on e h = absurd (cc)
hand_over-IsSettled closed w (_ ∷ _) on e h = absurd (cc)

deliver_one-IsSettled :
    (closed : Bool) (w : Worker) → IsSettled closed w → IsSettled closed (deliver_one closed w)
unfolding deliver_one
deliver_one-IsSettled closed w h =
    if_cases (IsSettled closed) w.running (λ on. hand_over-IsSettled closed w w.queue on refl)
      (λ _. h)

deliver_at-AreSettled :
    (i : ℕ) (closed : Bool) (ws : List Worker)
    → All (IsSettled closed) ws
    → All (IsSettled closed) (deliver_at i closed ws)
unfolding deliver_at
deliver_at-AreSettled i closed [] h = h
deliver_at-AreSettled zero closed (w ∷ ws) h = (deliver_one-IsSettled closed w h.0, h.1)
deliver_at-AreSettled (suc i) closed (w ∷ ws) h = (h.0, deliver_at-AreSettled i closed ws h.1)

-- Before Close every goroutine runs, so an offer settles nothing.
offered-AreSettled :
    (size : ℕ) (e : Event) (ws : List Worker)
    → All (IsSettled false) ws
    → All (IsSettled false) (map (offer size e) ws)
unfolding offer
offered-AreSettled size e [] h = h
offered-AreSettled size e (w ∷ ws) h = (
  if_keeps (IsSettled false) (ltb (length w.queue) size)
      (λ off. let (_, shut) = h.0 off in absurd (cc)) h.0,
  offered-AreSettled size e ws h.1,
)

shut-AreSettled :
    (closed : Bool) (ws : List Worker) → All (IsSettled closed) ws → All (IsSettled true) ws
shut-AreSettled closed [] h = h
shut-AreSettled closed (w ∷ ws) h = (λ off. ((h.0 off).0, refl), shut-AreSettled closed ws h.1)

act-AreSettled : (a : Action) (p : Publisher) → AreSettled p → AreSettled (act a p)
unfolding act register publish deliver close
act-AreSettled (registering name) p h =
    if_keeps AreSettled p.closed h
      (All-append (IsSettled p.closed) p.workers _ h (λ on. absurd (cc), tt))
act-AreSettled (publishing e) p h =
    if_cases AreSettled p.closed (λ _. h)
      (λ shut.
        subst (λ c. All (IsSettled c) (map (offer p.queue_size e) p.workers)) (sym shut)
          (offered-AreSettled p.queue_size e p.workers
            (subst (λ c. All (IsSettled c) p.workers) shut h)))
act-AreSettled (delivering i err) p h = deliver_at-AreSettled i p.closed p.workers h
act-AreSettled closing p h = shut-AreSettled p.closed p.workers h

run-AreSettled : (actions : List Action) (p : Publisher) → AreSettled p → AreSettled (run actions p)
unfolding run
run-AreSettled [] p h = h
run-AreSettled (a ∷ rest) p h = run-AreSettled rest (act a p) (act-AreSettled a p h)

ended-received :
    (closed : Bool) (ws : List Worker)
    → All (IsSettled closed) ws
    → all_ended ws ≡ true
    → map history ws ≡ map (λ w. w.received) ws
unfolding all_ended
ended-received closed [] h e = refl
ended-received closed (w ∷ ws) h e = elim (Bool-cases w.running) [
  | inl on ↦ absurd (ground (arith, on, e))
  | inr off ↦
      let rest : all_ended ws ≡ true = ground (arith, off, e) in
      ap (λ l. history w ∷ l) (ended-received closed ws h.1 rest)
      ∙ ap (λ l. l ∷ map (λ v. v.received) ws)
          (ap (λ q. w.received ++ q) (h.0 off).0 ∙ append-nil w.received)
]

select_done-ended :
    (ended first : Bool) (expired : Option Err)
    → select_done ended first expired ≡ some none
    → ended ≡ true
select_done-ended true first expired e = refl
select_done-ended false first none e = absurd (cc)
select_done-ended false first (some x) e = absurd (cc)

-- Whatever was registered, published and delivered before Close, and whatever happens while it waits,
-- its context included: if Close answers nil, every observer has been given, in order, all that it had
-- been given and all that its queue held when Close was called, and nothing more; and it answers nil
-- only when the goroutine of every observer has ended.
pub close_and_wait-Drained :
    (size : Option Int64) (before meanwhile : List Action) (expired : Option Err) (first : Bool)
    → (close_and_wait meanwhile expired first (run before (new_publisher size))).0 ≡ some none
    → let p = run before (new_publisher size) in
      let (_, p') = close_and_wait meanwhile expired first p in
      (map (λ w. w.received) p'.workers ≡ map history p.workers) × (all_ended p'.workers ≡ true)
unfolding close_and_wait new_publisher close
close_and_wait-Drained size before meanwhile expired first answered =
    let p = run before (new_publisher size) in
    let ended = select_done-ended _ first expired answered in
    let settled =
      run-AreSettled meanwhile (close p)
        (shut-AreSettled p.closed p.workers (run-AreSettled before (new_publisher size) tt)) in
    (
      sym (ended-received _ (run meanwhile (close p)).workers settled ended)
          ∙ run-closed meanwhile (close p) refl,
      ended,
    )
