-- ===== src/Handler/Update.antt =====
-- internal/handler/update.go: the three endpoints that store metrics.
pub mod Outcome
pub mod Stores
use svcmetrics.Base.{String, Option, none, some, List, [], ◌∷◌, map, str_eq, if◌then◌else◌}
use svcmetrics.Base.Word.{Int64}
use svcmetrics.Model.{Metrics, is_gauge, is_counter}
use svcmetrics.Errors.{Err, Result, ok, err}
use svcmetrics.Repository.Storage.{Storage}
use svcmetrics.Handler.{
  Request, Response, Codec, Decoded, value, empty_body, malformed, http_error, write_storage_error,
  status_ok, bad_request, status_not_found, internal_server_error,
}
use svcmetrics.Handler.Audit.{World, notify_audit}

-- The names of a batch, in its order.
unfoldable pub metric_names : {F : Type 0} → List (Metrics F) → List String
metric_names [] = []
metric_names (m ∷ ms) = m.id ∷ metric_names ms

module _ {S F : Type 0} (c : Codec F) (st : Storage S F) (r : Request) where
  -- An answer that leaves the world as it is.
  abbrev reject : String → World S → Response × World S
  reject message w = (http_error message bad_request, w)

  -- The lines of UpdateJSONHandler behind the storage call: the report and the stored metric.
  unfoldable pub answer_metric : Metrics F → World S → Response × World S
  unfolding http_error notify_audit
  answer_metric result w =
      let w' = notify_audit c r (result.id ∷ []) w in
      elim (c.encode_metric result) [
        | none ↦ (http_error "Internal Server Error" internal_server_error, w')
        | some body ↦
            (record { status = status_ok; content_type = "application/json"; body = body }, w')
      ]

  -- A write to the storage that failed is answered by its error; the state is the storage's.
  abbrev stored_gauge : Metrics F → World S → Result F × S → Response × World S
  stored_gauge m w (err e, s) = (write_storage_error c e, record w { storage = s })
  stored_gauge m w (ok val, s) =
      answer_metric (record { id = m.id; mtype = m.mtype; delta = none; value = some val })
        (record w { storage = s })

  abbrev stored_counter : Metrics F → World S → Result Int64 × S → Response × World S
  stored_counter m w (err e, s) = (write_storage_error c e, record w { storage = s })
  stored_counter m w (ok val, s) =
      answer_metric (record { id = m.id; mtype = m.mtype; delta = some val; value = none })
        (record w { storage = s })

  abbrev update_gauge_json : Metrics F → World S → Option F → Response × World S
  update_gauge_json m w none = reject "Value missing for gauge" w
  update_gauge_json m w (some v) = stored_gauge m w (st.update_gauge m.id v w.storage)

  abbrev update_counter_json : Metrics F → World S → Option Int64 → Response × World S
  update_counter_json m w none = reject "Delta missing for counter" w
  update_counter_json m w (some d) = stored_counter m w (st.update_counter m.id d w.storage)

  -- UpdateJSONHandler behind the decoder.
  unfoldable pub update_metric : Metrics F → World S → Response × World S
  unfolding answer_metric write_storage_error
  update_metric m w =
      if str_eq m.id ""
      then reject "Metric ID missing" w
      else if is_gauge m.mtype
      then update_gauge_json m w m.value
      else if is_counter m.mtype
      then update_counter_json m w m.delta
      else reject "Invalid metric type" w

  abbrev update_decoded : World S → Decoded (Metrics F) → Response × World S
  update_decoded w empty_body = reject "Empty body" w
  update_decoded w malformed = reject "Invalid JSON" w
  update_decoded w (value m) = update_metric m w

  unfoldable pub update_json_handler : World S → Response × World S
  unfolding update_metric
  update_json_handler w = update_decoded w (c.decode_metric r.body)

  abbrev batch_accepted : Response
  batch_accepted = record {
    status = status_ok;
    content_type = "application/json";
    body = "{\"status\":\"ok\"}";
  }

  abbrev pub stored_batch : List (Metrics F) → World S → Option Err × S → Response × World S
  stored_batch ms w (some e, s) = (write_storage_error c e, record w { storage = s })
  stored_batch ms w (none, s) =
      (batch_accepted, notify_audit c r (metric_names ms) (record w { storage = s }))

  -- UpdatesJSONHandler behind the decoder: an empty batch stores nothing and is not reported.
  unfoldable pub update_metrics : List (Metrics F) → World S → Response × World S
  unfolding notify_audit write_storage_error metric_names
  update_metrics [] w = (batch_accepted, w)
  update_metrics (m ∷ ms) w = stored_batch (m ∷ ms) w (st.update_batch (m ∷ ms) w.storage)

  -- A nil slice is a bare null, which is no array.
  abbrev updates_decoded : World S → Decoded (Option (List (Metrics F))) → Response × World S
  updates_decoded w empty_body = reject "Empty body" w
  updates_decoded w malformed = reject "Invalid JSON" w
  updates_decoded w (value none) = reject "Invalid JSON" w
  updates_decoded w (value (some ms)) = update_metrics ms w

  unfoldable pub updates_json_handler : World S → Response × World S
  unfolding update_metrics
  updates_json_handler w = updates_decoded w (c.decode_batch r.body)

  abbrev path_accepted : Response
  path_accepted = record { status = status_ok; content_type = "text/plain"; body = "" }

  abbrev stored_path {ℓ} : {A : Type ℓ} → World S → Result A × S → Response × World S
  stored_path w (err e, s) = (write_storage_error c e, record w { storage = s })
  stored_path w (ok _, s) =
      (path_accepted, notify_audit c r (r.name_param ∷ []) (record w { storage = s }))

  abbrev update_gauge_path : World S → Option F → Response × World S
  update_gauge_path w none = reject "Invalid gauge value" w
  update_gauge_path w (some v) = stored_path w (st.update_gauge r.name_param v w.storage)

  abbrev update_counter_path : World S → Option Int64 → Response × World S
  update_counter_path w none = reject "Invalid counter value" w
  update_counter_path w (some d) = stored_path w (st.update_counter r.name_param d w.storage)

  unfoldable pub update_handler : World S → Response × World S
  unfolding notify_audit write_storage_error http_error
  update_handler w =
      if str_eq r.name_param ""
      then (http_error "Metric name missing" status_not_found, w)
      else if is_gauge r.type_param
      then update_gauge_path w (c.parse_float r.value_param)
      else if is_counter r.type_param
      then update_counter_path w (c.parse_int r.value_param)
      else reject "Invalid metric type" w
