-- ===== src/Agent/Encoders/Exclusive.antt =====
-- The calls of sendBatch keep apart from each other over every order of their steps.
use svcmetrics.Base.{
  ◌⊎◌, inl, inr, Bool-cases, false, ◌==◌, ℕ, ◌≤◌, ◌≡◌, refl, some, List, [], ◌∷◌, arith,
}
use mathlib.Core.Option.{none-ne-some}
use svcmetrics.Pool.{remove_at}
use svcmetrics.Agent.Encoders.{
  Sender, Heap, empty_heap, same, Action, getting, writing, requesting, putting, dropping, act, run,
  read_body,
}
use svcmetrics.Agent.Encoders.Owned.{count, remove_at-count, IsOwned}
use svcmetrics.Agent.Encoders.Steps.{
  write_encoder-IsOwned, request_body-IsOwned, put_encoder-IsOwned, get_encoder-IsOwned,
}

act-IsOwned : (a : Action) (h : Heap) → IsOwned h → IsOwned (act a h)
unfolding act
act-IsOwned (getting k pick) h w = get_encoder-IsOwned k pick (h.senders k) h w
act-IsOwned (writing k p) h w = write_encoder-IsOwned k p (h.senders k) h refl w
act-IsOwned (requesting k) h w = request_body-IsOwned k (h.senders k) h refl w
act-IsOwned (putting k) h w = put_encoder-IsOwned k (h.senders k) h refl w
act-IsOwned (dropping n) h w =
    let fewer : (b : ℕ) → count b (remove_at same h.next n h.pool) ≤ count b h.pool =
      λ b. remove_at-count h.next b n h.pool in
    record {
      holds = w.holds;
      below = w.below;
      apart = w.apart;
      out = λ j t q. omega (arith, fewer t.encoder, w.out j t q);
      once = λ b. omega (arith, fewer b, w.once b);
      known = λ b above. omega (arith, fewer b, w.known b above);
      empty = λ b held. w.empty b (omega (arith, held, fewer b, w.once b));
      unused = w.unused;
    }

run-IsOwned : (actions : List Action) (h : Heap) → IsOwned h → IsOwned (run actions h)
unfolding run
run-IsOwned [] h w = w
run-IsOwned (a ∷ rest) h w = run-IsOwned rest (act a h) (act-IsOwned a h w)

empty_heap-IsOwned : IsOwned empty_heap
unfolding count
empty_heap-IsOwned = record {
  holds = λ k s q. absurd (none-ne-some s q);
  below = λ k s q. absurd (none-ne-some s q);
  apart = λ j k s t q r c. absurd (none-ne-some s q);
  out = λ k s q. absurd (none-ne-some s q);
  once = λ a. omega arith;
  known = λ a above. refl;
  empty = λ a held. refl;
  unused = λ a above. refl;
}

-- Over every order of the steps of any number of calls of sendBatch, and of what the pool drops: while
-- a call has not given its encoder back, the body of its request reads as what the compressor of that
-- call has put out, and another call that has not either has another encoder.
pub run-reads_own :
    (actions : List Action) (j k n : ℕ) (s t : Sender)
    → (run actions empty_heap).senders k ≡ some s
    → s.body ≡ some n
    → (run actions empty_heap).senders j ≡ some t
    → (read_body s.encoder n (run actions empty_heap) ≡ s.output)
      × ((j ≡ k) ⊎ ((s.encoder == t.encoder) ≡ false))
unfolding read_body
run-reads_own actions j k n s t found sent other =
    let w = run-IsOwned actions empty_heap empty_heap-IsOwned in
    let held = w.holds k s found in
    let apart : (j ≡ k) ⊎ ((s.encoder == t.encoder) ≡ false) =
      elim (Bool-cases (s.encoder == t.encoder)) [
        | inl alike ↦ inl (w.apart j k t s other found (ground (arith, alike)))
        | inr apart ↦ inr apart
      ] in
    (rw (held.whole n sent) held.memory_output, apart)
