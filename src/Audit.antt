-- ===== src/Audit.antt =====
-- internal/audit/audit.go: the publisher. A method that holds the lock is one step; the goroutine of an
-- observer takes its steps on its own, so the order of the steps is a list of actions.
use svcmetrics.Base.{
  ℕ, zero, suc, ◌+◌, String, Bool, true, false, not, ◌&&◌, Option, none, some, List, [], ◌∷◌, ◌++◌,
  map, length, ltb, if◌then◌else◌,
}
use svcmetrics.Base.Word.{Int64, not_positive}
use svcmetrics.Errors.{Err, queue_full, text}
pub mod Delivery
pub mod Closing
pub mod Waiting
pub mod Receivers
pub mod FileLog

pub record Event : Type 0 where
  pub ts : Int64
  pub metrics : List String
  pub ip_address : String

unfoldable pub new_event : Int64 → List String → String → Event
new_event ts metrics ip = record { ts = ts; metrics = metrics; ip_address = ip }

-- A worker with the events that its observer has been given so far. `running` is false once its
-- goroutine has ended.
pub record Worker : Type 0 where
  pub name : String
  pub queue : List Event
  pub received : List Event
  pub running : Bool

pub record Publisher : Type 0 where
  pub workers : List Worker
  pub closed : Bool
  pub queue_size : ℕ
  -- the calls of OnError: the observer and the error
  pub errors : List (String × Err)

abbrev pub default_queue_size : ℕ
default_queue_size = 1024

-- WithQueueSize
abbrev pub with_queue_size : Int64 → ℕ
with_queue_size n = if not_positive n then default_queue_size else n

-- NewPublisher with the option WithQueueSize, or without it.
unfoldable pub new_publisher : Option Int64 → Publisher
new_publisher size = record {
  workers = [];
  closed = false;
  queue_size = elim size [ none ↦ default_queue_size | some n ↦ with_queue_size n ];
  errors = [];
}

unfoldable pub register : String → Publisher → Publisher
register name p = if p.closed then p else record p {
  workers = p.workers ++ record { name = name; queue = []; received = []; running = true } ∷ [];
}

-- The send of the select in Publish: it goes through while the queue has room.
unfoldable pub offer : ℕ → Event → Worker → Worker
offer size e w = if ltb (length w.queue) size then record w { queue = w.queue ++ e ∷ [] } else w

-- The observers that the event is dropped for.
unfoldable pub dropped : ℕ → List Worker → List (String × Err)
dropped size [] = []
dropped size (w ∷ ws) =
    let rest = dropped size ws in
    if ltb (length w.queue) size then rest else (w.name, queue_full ∷ []) ∷ rest

unfoldable pub publish : Event → Publisher → Publisher
unfolding offer dropped
publish e p = if p.closed then p else record p {
  workers = map (offer p.queue_size e) p.workers;
  errors = p.errors ++ dropped p.queue_size p.workers;
}

-- Close up to its wait: the queues take no more events.
unfoldable pub close : Publisher → Publisher
close p = record p { closed = true }

-- One round of deliver on the queue of a worker: the oldest event goes to the observer, or the
-- goroutine ends where the queue is closed and empty.
abbrev hand_over : Bool → Worker → List Event → Worker
hand_over closed w [] = record w { running = not closed }
hand_over closed w (e ∷ es) = record w { queue = es; received = w.received ++ e ∷ [] }

unfoldable pub deliver_one : Bool → Worker → Worker
deliver_one closed w = if w.running then hand_over closed w w.queue else w

-- The report of an Update that failed; an empty queue has no Update.
abbrev failure : Worker → List Event → Option Err → List (String × Err)
failure w (e ∷ es) (some err) = (w.name, err) ∷ []
failure w _ _ = []

unfoldable pub deliver_at : ℕ → Bool → List Worker → List Worker
unfolding deliver_one
deliver_at i closed [] = []
deliver_at zero closed (w ∷ ws) = deliver_one closed w ∷ ws
deliver_at (suc i) closed (w ∷ ws) = w ∷ deliver_at i closed ws

unfoldable pub failures_at : ℕ → Option Err → List Worker → List (String × Err)
failures_at i err [] = []
failures_at zero err (w ∷ ws) = if w.running then failure w w.queue err else []
failures_at (suc i) err (w ∷ ws) = failures_at i err ws

-- The i-th worker's goroutine runs one round, in which Update answers `err`.
unfoldable pub deliver : ℕ → Option Err → Publisher → Publisher
unfolding deliver_at failures_at
deliver i err p = record p {
  workers = deliver_at i p.closed p.workers;
  errors = p.errors ++ failures_at i err p.workers;
}

pub data Action : Type 0 where
  registering : String → Action
  publishing : Event → Action
  delivering : ℕ → Option Err → Action
  closing : Action

unfoldable pub act : Action → Publisher → Publisher
unfolding register publish deliver close
act (registering name) p = register name p
act (publishing e) p = publish e p
act (delivering i err) p = deliver i err p
act closing p = close p

unfoldable pub run : List Action → Publisher → Publisher
unfolding act
run [] p = p
run (a ∷ rest) p = run rest (act a p)

-- wg.Wait passes once no goroutine of the publisher is left.
unfoldable pub all_ended : List Worker → Bool
all_ended [] = true
all_ended (w ∷ ws) = not w.running && all_ended ws

-- The select of Close: none while neither channel is ready; of two that are, `first` picks p.done.
abbrev pub select_done : Bool → Bool → Option Err → Option (Option Err)
select_done ended first none = if ended then some none else none
select_done ended first (some e) =
    if ended && first then some none else some (some (text "audit queue not drained" ∷ e))

-- Close with its wait, during which `meanwhile` happens; `expired` is the error of the context, if it has one.
unfoldable pub close_and_wait :
    List Action → Option Err → Bool → Publisher → Option (Option Err) × Publisher
unfolding close run all_ended
close_and_wait meanwhile expired first p =
    let p' = run meanwhile (close p) in (select_done (all_ended p'.workers) first expired, p')

-- Notify
unfoldable pub notify : Int64 → List String → String → Publisher → Publisher
unfolding publish new_event
notify ts metrics ip p = publish (new_event ts metrics ip) p
