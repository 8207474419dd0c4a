-- ===== src/Examples/Quiet.antt =====
-- A runtime without jitter whose pauses pass and change nothing.
use svcmetrics.Base.{ℕ, ◌≡◌, refl, true, none, Bool-cases, inl, inr}
use svcmetrics.Base.Word.{Int64, not_positive}
use svcmetrics.Errors.{Err}
use svcmetrics.Retry.{Config, Runtime, pause_after, with_jitter, wait}

abbrev pub quiet : (S : Type 0) → Runtime S
quiet S = record { rand_n = λ n s. (0, s); select_timer = λ d s. (true, s) }

pub quiet_pause :
    {S : Type 0} (c : Config S) (e : Err) (k : ℕ) (d : Int64) (s : S)
    → c.on_retry ≡ none
    → pause_after (quiet S) c e k d s ≡ (true, s)
unfolding pause_after with_jitter wait
quiet_pause c e k d s silent = elim (Bool-cases (not_positive d)) [
  | inl p ↦ rw (silent, p) refl
  | inr p ↦ rw (silent, p) refl
]
