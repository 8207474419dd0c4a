-- ===== src/Agent.antt =====
-- internal/agent/agent.go, retriable.go and system.go: the state of the agent, its collectors and its
-- reports. A method that holds the lock is a function on the agent. What sends a request is the
-- parameter `send`, which acts on a world `S` and answers with the error of sendBatch, if any.
use svcmetrics.Base.{
  ℕ, zero, suc, ◌+◌, ◌-◌, ◌*◌, String, Bool, true, false, ◌||◌, Option, none, some, List, [], ◌∷◌,
  leb, ◌==◌, str_eq, str_append, if◌then◌else◌, get_or, length,
}
use svcmetrics.Base.Dict.{Dict, lookup, insert, erase}
use svcmetrics.Base.Word.{Int64, add64, not_positive}
use svcmetrics.Errors.{
  Err, Link, has, find_link, status_code, is_net, eof, unexpected_eof, errno, econnrefused,
  econnreset, econnaborted, text, Result, ok, err,
}
use svcmetrics.Retry.{second}
pub mod Collect
pub mod Report
pub mod Request
pub mod Ledger
pub mod Encoders
pub mod Settings

-- The settings and the state that the lock guards, with float64 as the parameter `F`.
pub record Agent (F : Type 0) : Type 0 where
  pub updates_url : String
  pub poll_interval : Int64
  pub report_interval : Int64
  pub batch_size : ℕ
  pub rate_limit : ℕ
  pub key : String
  pub gauges : Dict F
  pub counters : Dict Int64
  pub last_sent_counters : Dict Int64
  pub cpu_count : ℕ

abbrev pub default_server_address : String
default_server_address = "http://localhost:8080"

abbrev pub default_poll_interval : Int64
default_poll_interval = 2 * second

abbrev pub default_report_interval : Int64
default_report_interval = 10 * second

abbrev pub default_batch_size : ℕ
default_batch_size = 32

abbrev pub default_rate_limit : ℕ
default_rate_limit = 1

-- New. `trim_right` is strings.TrimRight; the arguments of type int are int64 values.
unfoldable pub new_agent :
    {F : Type 0}
    → (String → String → String)
    → String
    → Int64
    → Int64
    → Int64
    → String
    → Int64
    → Agent F
new_agent trim_right endpoint poll report batch_size key rate_limit =
    let address = if str_eq endpoint "" then default_server_address else endpoint in
    record {
      updates_url = str_append (trim_right address "/") "/updates/";
      poll_interval = if not_positive poll then default_poll_interval else poll;
      report_interval = if not_positive report then default_report_interval else report;
      batch_size = if not_positive batch_size then default_batch_size else batch_size;
      rate_limit = if not_positive rate_limit then default_rate_limit else rate_limit;
      key = key;
      gauges = [];
      counters = [];
      last_sent_counters = [];
      cpu_count = 0;
    }

-- What errors.As and errors.Is look for behind the status of an answer.
abbrev is_wire_failure : Link → Bool
is_wire_failure eof = true
is_wire_failure unexpected_eof = true
is_wire_failure (errno econnrefused) = true
is_wire_failure (errno econnreset) = true
is_wire_failure (errno econnaborted) = true
is_wire_failure _ = false

unfoldable pub is_retriable_send_error : Option Err → Bool
is_retriable_send_error none = false
is_retriable_send_error (some e) = elim (find_link status_code e) [
  | some code ↦ leb 500 code || code == 429 || code == 408
  | none ↦ has is_net e || has is_wire_failure e
]

-- runtime.MemStats, each field as the float64 that the source makes of it.
pub record MemStats (F : Type 0) : Type 0 where
  pub alloc : F
  pub buck_hash_sys : F
  pub frees : F
  pub gc_cpu_fraction : F
  pub gc_sys : F
  pub heap_alloc : F
  pub heap_idle : F
  pub heap_inuse : F
  pub heap_objects : F
  pub heap_released : F
  pub heap_sys : F
  pub last_gc : F
  pub lookups : F
  pub mcache_inuse : F
  pub mcache_sys : F
  pub mspan_inuse : F
  pub mspan_sys : F
  pub mallocs : F
  pub next_gc : F
  pub num_forced_gc : F
  pub num_gc : F
  pub other_sys : F
  pub pause_total_ns : F
  pub stack_inuse : F
  pub stack_sys : F
  pub sys : F
  pub total_alloc : F

-- g[name] = value for each pair.
unfoldable pub put_all : {F : Type 0} → List (String × F) → Dict F → Dict F
put_all [] g = g
put_all ((name, v) ∷ rest) g = put_all rest (insert name v g)

-- models.CPUUtilization, with strconv.Itoa as a parameter
unfoldable pub cpu_utilization : (ℕ → String) → ℕ → String
cpu_utilization itoa n = str_append "CPUutilization" (itoa n)

module _ {F : Type 0} where
  abbrev pub runtime_gauges : MemStats F → F → List (String × F)
  runtime_gauges ms random =
      ("Alloc", ms.alloc)
      ∷ ("BuckHashSys", ms.buck_hash_sys)
      ∷ ("Frees", ms.frees)
      ∷ ("GCCPUFraction", ms.gc_cpu_fraction)
      ∷ ("GCSys", ms.gc_sys)
      ∷ ("HeapAlloc", ms.heap_alloc)
      ∷ ("HeapIdle", ms.heap_idle)
      ∷ ("HeapInuse", ms.heap_inuse)
      ∷ ("HeapObjects", ms.heap_objects)
      ∷ ("HeapReleased", ms.heap_released)
      ∷ ("HeapSys", ms.heap_sys)
      ∷ ("LastGC", ms.last_gc)
      ∷ ("Lookups", ms.lookups)
      ∷ ("MCacheInuse", ms.mcache_inuse)
      ∷ ("MCacheSys", ms.mcache_sys)
      ∷ ("MSpanInuse", ms.mspan_inuse)
      ∷ ("MSpanSys", ms.mspan_sys)
      ∷ ("Mallocs", ms.mallocs)
      ∷ ("NextGC", ms.next_gc)
      ∷ ("NumForcedGC", ms.num_forced_gc)
      ∷ ("NumGC", ms.num_gc)
      ∷ ("OtherSys", ms.other_sys)
      ∷ ("PauseTotalNs", ms.pause_total_ns)
      ∷ ("StackInuse", ms.stack_inuse)
      ∷ ("StackSys", ms.stack_sys)
      ∷ ("Sys", ms.sys)
      ∷ ("TotalAlloc", ms.total_alloc)
      ∷ ("RandomValue", random)
      ∷ []

  unfoldable pub collect_runtime_metrics : MemStats F → F → Agent F → Agent F
  unfolding put_all
  collect_runtime_metrics ms random a = record a {
    gauges = put_all (runtime_gauges ms random) a.gauges;
    counters = insert "PollCount" (add64 (get_or 0 (lookup "PollCount" a.counters)) 1) a.counters;
  }

  -- for i, load := range loads, with `i` gauges behind it
  unfoldable pub put_loads : (ℕ → String) → ℕ → List F → Dict F → Dict F
  unfolding cpu_utilization
  put_loads itoa i [] g = g
  put_loads itoa i (load ∷ loads) g =
      put_loads itoa (suc i) loads (insert (cpu_utilization itoa (i + 1)) load g)

  -- The gauges of the `count` CPUs behind the first `i`.
  unfoldable pub erase_loads : (ℕ → String) → ℕ → ℕ → Dict F → Dict F
  unfolding cpu_utilization
  erase_loads itoa i zero g = g
  erase_loads itoa i (suc count) g =
      erase_loads itoa (suc i) count (erase (cpu_utilization itoa (i + 1)) g)

  abbrev store_host : (ℕ → String) → F × F → List F → Agent F → Agent F
  store_host itoa (total, free) loads a = record a {
    gauges =
        erase_loads itoa (length loads) (a.cpu_count - length loads)
          (put_loads itoa 0 loads (insert "FreeMemory" free (insert "TotalMemory" total a.gauges)));
    cpu_count = length loads;
  }

  -- The two readings of gopsutil, the memory first, and what the agent makes of them.
  unfoldable pub collect_system_metrics :
      (ℕ → String) → Result (F × F) → Result (List F) → Agent F → Option Err × Agent F
  unfolding put_loads erase_loads
  collect_system_metrics itoa (err e) loads a = (some (text "reading the memory statistics" ∷ e), a)
  collect_system_metrics itoa (ok vm) (err e) a = (some (text "reading the CPU utilization" ∷ e), a)
  collect_system_metrics itoa (ok vm) (ok loads) a = (none, store_host itoa vm loads a)
