-- ===== src/Agent/Collect/Names.antt =====
-- The gauges of a poll are those that the model lists.
use svcmetrics.Base.{◌≡◌, refl, String, List, [], map}
use svcmetrics.Base.Dict.{Dict, insert}
use svcmetrics.Model.{runtime_gauge_metric_names}
use svcmetrics.Agent.{Agent, MemStats, collect_runtime_metrics}

module _ {F : Type 0} where
  -- The names of a map's entries.
  abbrev pub keys : Dict F → List String
  keys d = map (λ e. e.0) d

  -- A poll of an agent without gauges leaves exactly the gauges of RuntimeGaugeMetricNames, each once, and
  -- the same poll again leaves the same names.
  pub collect_runtime_metrics-keys :
      (ms ms' : MemStats F) (random random' : F) (a : Agent F)
      → a.gauges ≡ []
      → (keys (collect_runtime_metrics ms random a).gauges ≡ runtime_gauge_metric_names)
        × (keys (collect_runtime_metrics ms' random' (collect_runtime_metrics ms random a)).gauges
            ≡ runtime_gauge_metric_names)
  unfolding collect_runtime_metrics insert
  collect_runtime_metrics-keys ms ms' random random' a empty = rw empty (refl, refl)
