-- ===== src/Handler/Value.antt =====
-- internal/handler/value.go: the endpoints that read metrics.
pub mod Reads
use svcmetrics.Base.{String, Option, none, some, str_eq, if◌then◌else◌}
use svcmetrics.Base.Word.{Int64}
use svcmetrics.Base.Dict.{Dict}
use svcmetrics.Model.{Metrics, is_gauge, is_counter}
use svcmetrics.Errors.{Err, Result, ok, err}
use svcmetrics.Repository.Storage.{Storage}
use svcmetrics.Handler.{
  Request, Response, Codec, Decoded, value, empty_body, malformed, http_error, write_storage_error,
  status_ok, bad_request, internal_server_error,
}

module _ {S F : Type 0} (c : Codec F) (st : Storage S F) (r : Request) where
  abbrev refuse : String → S → Response × S
  refuse message s = (http_error message bad_request, s)

  unfoldable pub encode_answer : Metrics F → Response
  unfolding http_error
  encode_answer result = elim (c.encode_metric result) [
    | none ↦ http_error "Internal Server Error" internal_server_error
    | some body ↦ record { status = status_ok; content_type = "application/json"; body = body }
  ]

  abbrev read_gauge_json : Metrics F → Result F × S → Response × S
  read_gauge_json m (err e, s) = (write_storage_error c e, s)
  read_gauge_json m (ok val, s) =
      (encode_answer (record { id = m.id; mtype = m.mtype; delta = none; value = some val }), s)

  abbrev read_counter_json : Metrics F → Result Int64 × S → Response × S
  read_counter_json m (err e, s) = (write_storage_error c e, s)
  read_counter_json m (ok val, s) =
      (encode_answer (record { id = m.id; mtype = m.mtype; delta = some val; value = none }), s)

  -- ValueJSONHandler behind the decoder.
  unfoldable pub value_metric : Metrics F → S → Response × S
  unfolding encode_answer write_storage_error
  value_metric m s =
      if str_eq m.id ""
      then refuse "Metric ID missing" s
      else if is_gauge m.mtype
      then read_gauge_json m (st.get_gauge m.id s)
      else if is_counter m.mtype
      then read_counter_json m (st.get_counter m.id s)
      else refuse "Invalid metric type" s

  unfoldable pub value_json_handler : S → Response × S
  unfolding value_metric
  value_json_handler s = elim (c.decode_metric r.body) [
    | empty_body ↦ refuse "Empty body" s
    | malformed ↦ refuse "Invalid JSON" s
    | value m ↦ value_metric m s
  ]

  abbrev plain : String → Response
  plain text = record { status = status_ok; content_type = "text/plain"; body = text }

  abbrev read_path : {A : Type 0} → (A → String) → Result A × S → Response × S
  read_path format (err e, s) = (write_storage_error c e, s)
  read_path format (ok val, s) = (plain (format val), s)

  unfoldable pub value_handler : S → Response × S
  unfolding write_storage_error http_error
  value_handler s =
      if is_gauge r.type_param
      then read_path c.format_float (st.get_gauge r.name_param s)
      else if is_counter r.type_param
      then read_path c.format_int (st.get_counter r.name_param s)
      else refuse "Invalid metric type" s

  abbrev render : Dict F → Dict Int64 → Response
  render gauges counters = elim (c.execute_list gauges counters) [
    | err e ↦ http_error (c.error_text e) internal_server_error
    | ok page ↦ record { status = status_ok; content_type = "text/html"; body = page }
  ]

  abbrev list_counters : Dict F → Result (Dict Int64) × S → Response × S
  list_counters gauges (err e, s) = (write_storage_error c e, s)
  list_counters gauges (ok counters, s) = (render gauges counters, s)

  abbrev list_gauges : Result (Dict F) × S → Response × S
  list_gauges (err e, s) = (write_storage_error c e, s)
  list_gauges (ok gauges, s) = list_counters gauges (st.get_all_counters s)

  unfoldable pub list_handler : S → Response × S
  unfolding write_storage_error http_error
  list_handler s = list_gauges (st.get_all_gauges s)

-- internal/handler/ping.go: PingHandler with a pinger that may be nil.
unfoldable pub ping_handler :
    {P F : Type 0} → Codec F → Option (P → Option Err × P) → P → Response × P
ping_handler c none p = (http_error "Database is not configured" internal_server_error, p)
ping_handler c (some ping) p =
    let (failed, p') = ping p in
    elim failed [
      | some e ↦ (http_error (c.error_text e) internal_server_error, p')
      | none ↦ (record { status = status_ok; content_type = ""; body = "" }, p')
    ]
