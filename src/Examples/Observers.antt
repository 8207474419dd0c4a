-- ===== src/Examples/Observers.antt =====
-- The audit at concrete inputs: two observers, of which the second has fallen behind.
use svcmetrics.Base.{ℕ, ◌≡◌, refl, true, false, none, some, List, [], ◌∷◌, map, get_elem?}
use svcmetrics.Base.Word.{not_positive}
use svcmetrics.Errors.{eof}
use svcmetrics.Audit.{
  Event, Worker, Publisher, Action, publishing, delivering, registering, closing, run,
  new_publisher, all_ended, close_and_wait,
}
use svcmetrics.Audit.Delivery.{Reached, published, run-Reached, history}
use svcmetrics.Audit.Waiting.{close_and_wait-Drained}
use svcmetrics.Audit.Closing.{drained, close-drains}
use svcmetrics.Handler.Hash.{HashResponseWriter}

abbrev event : ℕ → Event
event n = record { ts = n; metrics = "Alloc" ∷ []; ip_address = "10.0.0.1" }

abbrev behind : Worker
behind = record { name = "http"; queue = event 1 ∷ event 2 ∷ []; received = []; running = true }

abbrev publisher : Publisher
publisher = record {
  workers =
      record { name = "file"; queue = []; received = event 1 ∷ event 2 ∷ []; running = true }
      ∷ behind
      ∷ [];
  closed = false;
  queue_size = 2;
  errors = [];
}

abbrev steps : List Action
steps =
    publishing (event 3)
    ∷ delivering 1 (some (eof ∷ []))
    ∷ publishing (event 4)
    ∷ registering "late"
    ∷ closing
    ∷ publishing (event 5)
    ∷ []

run-Reached_example : Reached 2 (published steps) behind (get_elem? (run steps publisher).workers 1)
run-Reached_example = run-Reached steps publisher 1 behind refl

close-drains_example :
    get_elem?
      (run (closing ∷ map (delivering 1) (none ∷ some (eof ∷ []) ∷ none ∷ [])) publisher).workers
      1
    ≡ some (drained behind)
close-drains_example =
    close-drains 1 publisher behind (none ∷ some (eof ∷ []) ∷ none ∷ []) refl refl refl

-- Close of a publisher with one event in a queue, whose goroutine then runs two rounds.
abbrev begun : List Action
begun = registering "file" ∷ publishing (event 1) ∷ []

abbrev rounds : List Action
rounds = delivering 0 none ∷ publishing (event 2) ∷ delivering 0 none ∷ []

abbrev closing_publisher : Publisher
closing_publisher = run begun (new_publisher (some 0))

close_and_wait-Drained_example :
    let (_, p') = close_and_wait rounds none true closing_publisher in
    (map (λ w. w.received) p'.workers ≡ map history closing_publisher.workers)
    × (all_ended p'.workers ≡ true)
unfolding close_and_wait new_publisher not_positive
close_and_wait-Drained_example = close_and_wait-Drained (some 0) begun rounds none true refl

-- A writer that carries nothing of an earlier response.
abbrev IsBlank : HashResponseWriter → Type 0
IsBlank w = (w.header ≡ []) × (w.body ≡ "") × (w.wrote_header ≡ false)
