-- ===== src/Server/Timeouts.antt =====
-- cmd/server/router.go: the timeouts of the server, in nanoseconds.
use svcmetrics.Base.{ℕ, ◌+◌, ◌*◌, ◌≤◌, ◌≡◌, none, arith}
use svcmetrics.Base.Word.{Int64}
use svcmetrics.Errors.{Err}
use svcmetrics.Retry.{Config, Runtime, Operation, second, notify, do_value}
use svcmetrics.Retry.Bounds.{RandBelow, do_value_slept}

abbrev pub db_init_timeout : Int64
db_init_timeout = 10 * second

abbrev pub request_timeout : Int64
request_timeout = 12 * second

abbrev pub read_header_timeout : Int64
read_header_timeout = 5 * second

abbrev pub read_timeout : Int64
read_timeout = 10 * second

abbrev pub response_grace : Int64
response_grace = 3 * second

abbrev pub write_timeout : Int64
write_timeout = request_timeout + response_grace

abbrev pub shutdown_grace : Int64
shutdown_grace = request_timeout + response_grace

abbrev pub audit_drain_timeout : Int64
audit_drain_timeout = 10 * second

abbrev pub storage_save_timeout : Int64
storage_save_timeout = 5 * second

abbrev pub shutdown_budget : Int64
shutdown_budget = shutdown_grace + audit_drain_timeout + storage_save_timeout

-- Where `asked` adds up the time that the timer is set to, which nothing else changes, and rand.N stays below its
-- bound: what one DoValue on the default schedule asks the timer for, jitter included, leaves at least
-- three quarters of a second of the timeout of a request to the calls and to late timers.
pub do_value_asks :
    {S A : Type 0} (rt : Runtime S) (c : Config S) (fn : Operation S A) (asked : S → ℕ) (s : S)
    → ((s : S) → asked (fn s).2 ≡ asked s)
    → ((e : Err) (k : ℕ) (d : Int64) (s : S) → asked (notify c e k d s) ≡ asked s)
    → ((d : Int64) (s : S) → asked (rt.select_timer d s).1 ≡ asked s + d)
    → ((n : Int64) (s : S) → asked (rt.rand_n n s).1 ≡ asked s)
    → RandBelow rt
    → c.intervals ≡ none
    → asked (do_value rt c fn s).2 + 750_000_000 ≤ asked s + request_timeout
do_value_asks rt c fn asked s calls quiet timer random below default =
    let most =
      do_value_slept rt c fn asked 0 (λ t. omega (arith, calls t)) quiet
        (λ d t. omega (arith, timer d t)) random below s default in
    omega (arith, most)
