-- ===== src/Examples/Reports.antt =====
-- Reports of the agent at concrete inputs. The world of the server is the number of requests that it
-- still accepts.
use svcmetrics.Base.{
  ℕ, zero, suc, ◌≡◌, refl, true, Option, none, some, List, [], ◌∷◌, ◌++◌, String, arith,
}
use svcmetrics.Base.Word.{add64, sub64, not_positive}
use mathlib.Core.List.{Permᴰ}
use svcmetrics.Agent.Collect.Stable.{collect_batch-stable}
use svcmetrics.Base.Dict.{Dict, lookup, insert}
use svcmetrics.Errors.{Err, status}
use svcmetrics.Model.{Metrics, gauge, counter}
use svcmetrics.Retry.{Runtime, do_op}
use svcmetrics.Agent.{Agent, MemStats, new_agent, collect_runtime_metrics}
use svcmetrics.Agent.Collect.{collect_batch, return_counters}
use svcmetrics.Agent.Report.{send_metrics, send_with_retry, attempt, retry_config, enqueue}
use svcmetrics.Agent.Report.Chunks.{concat}
use svcmetrics.Agent.Ledger.{Settled, send_metrics-Settled, due, polls, weight}
use svcmetrics.Agent.Ledger.Running.{State, polled, reported, worked, arrived, started, stepped}
use svcmetrics.Agent.Ledger.Running.Balance.{polls-IsBalanced}

abbrev server : List (Metrics ℕ) → ℕ → Option Err × ℕ
server batch zero = (some (status 503 ∷ []), 0)
server batch (suc n) = (none, n)

abbrev agent : Agent ℕ
agent = record {
  updates_url = "http://localhost:8080/updates/";
  poll_interval = 2;
  report_interval = 10;
  batch_size = 2;
  rate_limit = 1;
  key = "";
  gauges = ("HeapSys", 3) ∷ ("Alloc", 4) ∷ [];
  counters = ("PollCount", 9) ∷ [];
  last_sent_counters = ("PollCount", 4) ∷ [];
  cpu_count = 0;
}

abbrev gauge_of : String → ℕ → Metrics ℕ
gauge_of id v = record { id = id; mtype = gauge; delta = none; value = some v }

abbrev counter_of : String → ℕ → Metrics ℕ
counter_of id d = record { id = id; mtype = counter; delta = some d; value = none }

abbrev runtime : Runtime ℕ
runtime = record { rand_n = λ n s. (0, s); select_timer = λ d s. (true, s) }

send_metrics-Settled_example :
    (out : Option Err × Agent ℕ × ℕ) × (send_metrics server agent 1 ≡ some out)
    × Settled server agent 1 out
send_metrics-Settled_example = send_metrics-Settled server agent 1 (omega arith)

-- A map of two gauges, and another order of them.
abbrev host : Dict ℕ
host = ("TotalMemory", 8) ∷ ("FreeMemory", 3) ∷ []

collect_batch-stable_example :
    (collect_batch (record agent { gauges = ("FreeMemory", 3) ∷ ("TotalMemory", 8) ∷ [] })).0
    ≡ (collect_batch (record agent { gauges = host })).0
collect_batch-stable_example =
    collect_batch-stable (record agent { gauges = host })
      (("FreeMemory", 3) ∷ ("TotalMemory", 8) ∷ []) ((λ e. absurd (cc), tt), (tt, tt))
      (Permᴰ.swap refl refl)

abbrev stats : MemStats ℕ
stats = record {
  alloc = 1;
  buck_hash_sys = 1;
  frees = 1;
  gc_cpu_fraction = 1;
  gc_sys = 1;
  heap_alloc = 1;
  heap_idle = 1;
  heap_inuse = 1;
  heap_objects = 1;
  heap_released = 1;
  heap_sys = 1;
  last_gc = 1;
  lookups = 1;
  mcache_inuse = 1;
  mcache_sys = 1;
  mspan_inuse = 1;
  mspan_sys = 1;
  mallocs = 1;
  next_gc = 1;
  num_forced_gc = 1;
  num_gc = 1;
  other_sys = 1;
  pause_total_ns = 1;
  stack_inuse = 1;
  stack_sys = 1;
  sys = 1;
  total_alloc = 1;
}

abbrev keep_as_is : String → String → String
keep_as_is s cut = s

abbrev fresh : Agent ℕ
fresh = new_agent keep_as_is "http://h" 2 10 0 "" 1

abbrev ignore : Err → ℕ → ℕ
ignore e s = s

abbrev begun : State ℕ
begun = record { agent = fresh; held = []; delivered = [] }

abbrev after_poll : State ℕ
after_poll = record begun { agent = collect_runtime_metrics stats 5 fresh }

abbrev whole_batch : List (Metrics ℕ)
whole_batch = (collect_batch after_poll.agent).0

abbrev after_report : State ℕ
after_report = record after_poll {
  agent = return_counters [] (collect_batch after_poll.agent).1;
  held = whole_batch ∷ [];
}

abbrev after_work : State ℕ
after_work = record {
  agent = (send_with_retry server runtime none ignore whole_batch after_report.agent 1).0;
  held = [];
  delivered =
      []
      ++ arrived
          (do_op runtime (retry_config server none) (attempt server runtime none ignore whole_batch)
            1).1
          whole_batch;
}

enqueue_whole :
    enqueue after_poll.agent (λ k. true) ≡ some (true, whole_batch ∷ [], after_report.agent)
unfolding enqueue collect_batch collect_runtime_metrics insert new_agent not_positive sub64 lookup
    add64
enqueue_whole = refl

polls-IsBalanced_example :
    add64
      (due after_work.agent)
      (add64 (weight (concat after_work.held)) (weight after_work.delivered))
    ≡ polls after_work.agent
polls-IsBalanced_example =
    polls-IsBalanced server runtime none ignore keep_as_is "http://h" 2 10 0 "" 1 after_work (
      stepped
        (stepped (stepped started (polled stats 5 begun)) (
          reported (λ k. true) true (whole_batch ∷ []) after_report.agent after_poll enqueue_whole))
        (worked [] [] whole_batch 1 after_report refl))

abbrev idle : Agent ℕ
idle = record agent { gauges = [] }
