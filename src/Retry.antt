-- ===== src/Retry.antt =====
-- internal/retry/retry.go. The operation, the clock, the random source and the observer act on a
-- world `S`: an operation returns its value, its error and the world that it leaves.
pub mod Bounds
pub mod Runs
use svcmetrics.Base.{
  ℕ, suc, ◌+◌, ◌*◌, ◌/◌, Bool, true, false, not, Option, none, some, List, [], ◌∷◌, if◌then◌else◌,
}
use svcmetrics.Base.Word.{Int64, add64, not_positive}
use svcmetrics.Errors.{Err}

abbrev pub second : Int64
second = 1_000_000_000

abbrev pub default_intervals : List Int64
default_intervals = (1 * second) ∷ (3 * second) ∷ (5 * second) ∷ []

pub record Config (S : Type 0) : Type 0 where
  -- none is nil
  pub intervals : Option (List Int64)
  pub retriable : Option (Err → Bool)
  pub on_retry : Option (Err → ℕ → Int64 → S → S)

-- What the package takes from the runtime: rand.N, and a select between a timer and ctx.Done,
-- which answers whether the timer came first.
pub record Runtime (S : Type 0) : Type 0 where
  pub rand_n : Int64 → S → Int64 × S
  pub select_timer : Int64 → S → Bool × S

abbrev pub Operation : Type 0 → Type 0 → Type 0
Operation S A = S → A × Option Err × S

module _ {S : Type 0} where
  abbrev pub intervals : Config S → List Int64
  intervals c = elim c.intervals [ none ↦ default_intervals | some l ↦ l ]

  abbrev pub retriable : Config S → Err → Bool
  retriable c e = elim c.retriable [ none ↦ true | some p ↦ p e ]

  -- if cfg.OnRetry != nil { cfg.OnRetry(err, attempt, pause) }
  abbrev pub notify : Config S → Err → ℕ → Int64 → S → S
  notify c e attempt pause s = elim c.on_retry [ none ↦ s | some f ↦ f e attempt pause s ]

  module _ (rt : Runtime S) where
    unfoldable pub with_jitter : Int64 → S → Int64 × S
    with_jitter d s =
        if not_positive d
        then (d, s)
        else let (r, s') = rt.rand_n (add64 (d / 4) 1) s in (add64 d r, s')

    unfoldable pub wait : Int64 → S → Bool × S
    wait d s = rt.select_timer d s

    -- The lines between a failed attempt and the next one.
    unfoldable pub pause_after : Config S → Err → ℕ → Int64 → S → Bool × S
    pause_after c e attempt d s =
        let (pause, s₁) = with_jitter d s in wait pause (notify c e attempt pause s₁)

    module _ {A : Type 0} (c : Config S) (fn : Operation S A) where
      -- A pause that was cut short ends the loop with the last result.
      unfoldable pub after_pause : Operation S A → A → Err → Bool × S → A × Option Err × S
      after_pause again res e (true, s) = again s
      after_pause again res e (false, s) = (res, some e, s)

      -- The body of the loop behind the call of fn, while the schedule has an interval `d` left.
      unfoldable pub after_attempt :
          ℕ → Int64 → Operation S A → A × Option Err × S → A × Option Err × S
      unfolding after_pause
      after_attempt attempt d again (res, none, s) = (res, none, s)
      after_attempt attempt d again (res, some e, s) =
          if not (retriable c e)
          then (res, some e, s)
          else after_pause again res e (pause_after c e (attempt + 1) d s)

      -- The loop, on the intervals that are left: `attempt` counts the rounds behind it.
      unfoldable pub attempts : ℕ → List Int64 → Operation S A
      unfolding after_attempt
      attempts attempt [] s = fn s
      attempts attempt (d ∷ ds) s = after_attempt attempt d (attempts (attempt + 1) ds) (fn s)

      unfoldable pub do_value : Operation S A
      unfolding attempts
      do_value = attempts 0 (intervals c)

    -- Do runs DoValue with a value that says nothing.
    unfoldable pub do_op : Config S → Operation S (Unit {0}) → Operation S (Unit {0})
    unfolding do_value
    do_op c fn = do_value c fn
