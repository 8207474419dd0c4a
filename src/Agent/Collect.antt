-- ===== src/Agent/Collect.antt =====
-- internal/agent/agent.go: the batch of a report. The counters whose delta the batch carries are marked
-- as sent, and a batch that did not arrive gives its deltas back.
pub mod Owed
pub mod Names
pub mod Stable
use Prim.Native.Nat.{Ordering}
use Prim.Native.String.{compare}
use svcmetrics.Base.{
  ℕ, String, Option, none, some, List, [], ◌∷◌, ◌++◌, map, length, take, drop, ◌==◌, if◌then◌else◌,
  get_or,
}
use svcmetrics.Base.Dict.{lookup, insert}
use svcmetrics.Base.Word.{Int64, sub64}
use svcmetrics.Model.{Metrics, gauge, counter, is_counter}
use svcmetrics.Agent.{Agent}

abbrev pub counter_metric_names : List String
counter_metric_names = "PollCount" ∷ []

module _ {F : Type 0} where
  abbrev gauge_metric : String × F → Metrics F
  gauge_metric (name, v) = record { id = name; mtype = gauge; delta = none; value = some v }

  abbrev counter_metric : String → Int64 → Metrics F
  counter_metric name d = record { id = name; mtype = counter; delta = some d; value = none }

  -- current of a counter, and what was sent of it
  abbrev pub total : String → Agent F → Int64
  total name a = get_or 0 (lookup name a.counters)

  abbrev pub sent : String → Agent F → Int64
  sent name a = get_or 0 (lookup name a.last_sent_counters)

  abbrev mark : String → Agent F → Agent F
  mark name a = record a { last_sent_counters = insert name (total name a) a.last_sent_counters }

  -- The loop over the counters: a zero delta is left out.
  unfoldable pub take_counters : List String → Agent F → List (Metrics F) × Agent F
  take_counters [] a = ([], a)
  take_counters (name ∷ names) a =
      let delta = sub64 (total name a) (sent name a) in
      let (rest, a') = take_counters names (mark name a) in
      (if delta == 0 then rest else counter_metric name delta ∷ rest, a')

  -- The batch, its gauges first, and their number.
  unfoldable pub snapshot_batch : Agent F → (List (Metrics F) × ℕ) × Agent F
  unfolding take_counters
  snapshot_batch a =
      let (deltas, a') = take_counters counter_metric_names a in
      let gauges = map gauge_metric a.gauges in ((gauges ++ deltas, length gauges), a')

  -- slices.SortFunc by strings.Compare of the names, which differ.
  unfoldable pub insert_by_id : Metrics F → List (Metrics F) → List (Metrics F)
  insert_by_id m [] = m ∷ []
  insert_by_id m (x ∷ xs) = elim (compare m.id x.id) [
    | Ordering.gt ↦ x ∷ insert_by_id m xs
    | _ ↦ m ∷ x ∷ xs
  ]

  unfoldable pub sort_by_id : List (Metrics F) → List (Metrics F)
  unfolding insert_by_id
  sort_by_id [] = []
  sort_by_id (m ∷ ms) = insert_by_id m (sort_by_id ms)

  unfoldable pub collect_batch : Agent F → List (Metrics F) × Agent F
  unfolding snapshot_batch sort_by_id
  collect_batch a =
      let ((batch, gauge_count), a') = snapshot_batch a in
      (sort_by_id (take gauge_count batch) ++ drop gauge_count batch, a')

  abbrev lower : String → Int64 → Agent F → Agent F
  lower name d a = record a {
    last_sent_counters = insert name (sub64 (sent name a) d) a.last_sent_counters;
  }

  abbrev pub give_back : String → Option Int64 → Agent F → Agent F
  give_back name none a = a
  give_back name (some d) a = lower name d a

  -- The delta of an unsent metric goes back.
  unfoldable pub return_one : Metrics F → Agent F → Agent F
  return_one m a = if is_counter m.mtype then give_back m.id m.delta a else a

  unfoldable pub return_counters : List (Metrics F) → Agent F → Agent F
  unfolding return_one
  return_counters [] a = a
  return_counters (m ∷ ms) a = return_counters ms (return_one m a)
