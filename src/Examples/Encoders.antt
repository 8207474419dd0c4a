-- ===== src/Examples/Encoders.antt =====
-- Calls of sendBatch on concrete steps.
use svcmetrics.Base.{ℕ, ◌≡◌, refl, some, none, ◌⊎◌, ◌==◌, false, ℕ, List, [], ◌∷◌}
use svcmetrics.Agent.Encoders.{
  Sender, empty_heap, Action, getting, writing, requesting, putting, run, read_body,
}
use svcmetrics.Agent.Encoders.Exclusive.{run-reads_own}

-- Two calls beside each other: the second gets the encoder that a first one gave back.
abbrev sends : List Action
sends =
    getting 0 0
    ∷ writing 0 (1 ∷ 2 ∷ [])
    ∷ requesting 0
    ∷ putting 0
    ∷ getting 1 0
    ∷ getting 2 0
    ∷ writing 1 (3 ∷ [])
    ∷ writing 2 (5 ∷ [])
    ∷ writing 1 (4 ∷ [])
    ∷ requesting 1
    ∷ []

abbrev second : Sender
second = record { encoder = 0; output = 3 ∷ 4 ∷ []; body = some 2 }

abbrev third : Sender
third = record { encoder = 1; output = 5 ∷ []; body = none }

abbrev one : ℕ
one = 1

abbrev two : ℕ
two = 2

run-reads_own_example :
    (read_body 0 2 (run sends empty_heap) ≡ 3 ∷ 4 ∷ [])
    × ((two ≡ one) ⊎ ((second.encoder == third.encoder) ≡ false))
unfolding run
run-reads_own_example = run-reads_own sends two one 2 second third refl refl refl

-- A transport that still reads the body of the first call then sees the batch of the second.
read_late : read_body 0 2 (run sends empty_heap) ≡ 3 ∷ 4 ∷ []
unfolding run read_body
read_late = refl
