-- ===== src/Examples/Repeat.antt =====
-- Retries at concrete inputs. The world is the number of calls behind it and the time that the timer was set to; the
-- operation fails twice for a passing reason and then answers 7.
use svcmetrics.Base.{
  ℕ, ◌≤◌, ◌+◌, if_keeps, ◌≡◌, refl, true, Option, none, some, [], ◌∷◌, suc, ltb, if◌then◌else◌,
}
use svcmetrics.Errors.{Err, eof}
use svcmetrics.Retry.{Config, Runtime, Operation, default_intervals, do_value}
use svcmetrics.Retry.Runs.{Run, do_value-Run}
use svcmetrics.Server.Timeouts.{request_timeout, do_value_asks}
use svcmetrics.Retry.Bounds.{RandBelow}

abbrev Clock : Type 0
Clock = ℕ × ℕ

abbrev runtime : Runtime Clock
runtime = record { rand_n = λ n s. (0, s); select_timer = λ d s. (true, (s.0, s.1 + d)) }

abbrev settings : Config Clock
settings = record { intervals = none; retriable = none; on_retry = none }

abbrev flaky : Operation Clock ℕ
flaky s = if ltb s.0 2 then (0, some (eof ∷ []), (suc s.0, s.1)) else (7, none, (suc s.0, s.1))

runtime-RandBelow : RandBelow runtime
runtime-RandBelow n s h = h

do_value-Run_example :
    Run runtime settings flaky 0 default_intervals (0, 0) (do_value runtime settings flaky (0, 0))
do_value-Run_example = do_value-Run runtime settings flaky (0, 0)

no_sleep : (s : Clock) → (flaky s).2.1 ≡ s.1
no_sleep s = if_keeps (λ (r : ℕ × Option Err × Clock). r.2.1 ≡ s.1) (ltb s.0 2) refl refl

do_value_asks_example :
    (do_value runtime settings flaky (0, 0)).2.1 + 750_000_000 ≤ 0 + request_timeout
do_value_asks_example =
    do_value_asks runtime settings flaky (λ s. s.1) (0, 0) no_sleep (λ e k d s. refl) (λ d s. refl)
      (λ n s. refl) runtime-RandBelow refl
