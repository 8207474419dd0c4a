-- ===== src/Model.antt =====
-- internal/model/metrics.go: the metric types and the wire representation of a metric. A float64
-- is only stored, compared by no operation and handed on, so its type is the parameter `F`.
use svcmetrics.Base.{String, List, [], ◌∷◌, Option, Bool, str_eq, ◌≡◌, true, false, arith, eq_iff}
use svcmetrics.Base.Word.{Int64}

abbrev pub counter : String
counter = "counter"

abbrev pub gauge : String
gauge = "gauge"

pub record Metrics (F : Type 0) : Type 0 where
  pub id : String
  pub mtype : String
  pub delta : Option Int64
  pub value : Option F

abbrev pub is_gauge : String → Bool
is_gauge t = str_eq t gauge

abbrev pub is_counter : String → Bool
is_counter t = str_eq t counter

-- No type is both.
pub is_gauge-not-is_counter : (t : String) → is_gauge t ≡ true → is_counter t ≡ false
is_gauge-not-is_counter t h = ground (arith, eq_iff t gauge, eq_iff t counter, eq_iff gauge counter)

pub is_counter-not-is_gauge : (t : String) → is_counter t ≡ true → is_gauge t ≡ false
is_counter-not-is_gauge t h = ground (arith, eq_iff t gauge, eq_iff t counter, eq_iff gauge counter)

-- The gauges read from the Go runtime.
abbrev pub runtime_gauge_metric_names : List String
runtime_gauge_metric_names =
    "Alloc" ∷ "BuckHashSys" ∷ "Frees" ∷ "GCCPUFraction" ∷ "GCSys" ∷ "HeapAlloc" ∷ "HeapIdle"
    ∷ "HeapInuse" ∷ "HeapObjects" ∷ "HeapReleased" ∷ "HeapSys" ∷ "LastGC" ∷ "Lookups"
    ∷ "MCacheInuse" ∷ "MCacheSys" ∷ "MSpanInuse" ∷ "MSpanSys" ∷ "Mallocs" ∷ "NextGC" ∷ "NumForcedGC"
    ∷ "NumGC" ∷ "OtherSys" ∷ "PauseTotalNs" ∷ "StackInuse" ∷ "StackSys" ∷ "Sys" ∷ "TotalAlloc"
    ∷ "RandomValue" ∷ []
