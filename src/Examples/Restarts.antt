-- ===== src/Examples/Restarts.antt =====
-- The life of a server with a file at a concrete input: an encoding of snapshots of one gauge.
use svcmetrics.Base.{
  ◌≡◌, ◌⊎◌, refl, ap, String, Option, none, some, List, [], ◌∷◌, true, if◌then◌else◌, arith, eq_iff,
}
use svcmetrics.Base.Dict.{Dict}
use svcmetrics.Base.Word.{Int64}
use svcmetrics.Errors.{Err, Result, ok, err, path_error}
use svcmetrics.Model.{Metrics, gauge, is_gauge}
use svcmetrics.Repository.Memory.{new_mem_storage}
use svcmetrics.Repository.Memory.Save.{File, Machine, done, failed, save_config}
use svcmetrics.Server.Serving.{
  ServerEvent, gauge_written, tick, start_storage, handle_events, serve_file,
}
use svcmetrics.Server.Serving.Memory.{replay}
use svcmetrics.Server.Serving.Restart.{IsRestored, rebooted, serve_file-IsRestored}
use svcmetrics.Examples.Quiet.{quiet, quiet_pause}

abbrev pub One : Type 0
One = Unit {0}

abbrev pub encode : String → String → Option Int64 → Option One → Result String
encode id mtype none (some tt) = if is_gauge mtype then ok id else err []
encode _ _ _ _ = err []

abbrev pub marshal : List (Metrics One) → Result String
marshal (m ∷ []) = encode m.id m.mtype m.delta m.value
marshal _ = err []

abbrev pub unmarshal : String → Result (List (Metrics One))
unmarshal bytes = ok (record { id = bytes; mtype = gauge; delta = none; value = some tt } ∷ [])

encode-parses :
    (id mtype : String) (delta : Option Int64) (value : Option One) (bytes : String)
    → encode id mtype delta value ≡ ok bytes
    → unmarshal bytes ≡ ok (record { id = id; mtype = mtype; delta = delta; value = value } ∷ [])
encode-parses id mtype none (some tt) bytes h = ground (arith, eq_iff mtype gauge)
encode-parses id mtype none none bytes h = ground arith
encode-parses id mtype (some d) value bytes h = ground arith

marshal-parses :
    (ms : List (Metrics One)) (bytes : String) → marshal ms ≡ ok bytes → unmarshal bytes ≡ ok ms
marshal-parses [] bytes h = ground arith
marshal-parses (m ∷ []) bytes h = encode-parses m.id m.mtype m.delta m.value bytes h
marshal-parses (_ ∷ _ ∷ _) bytes h = ground arith

abbrev pub temp_name : Dict File → String
temp_name files = "metrics.json.tmp-1"

abbrev pub machine : Machine One
machine = record {
  memory = new_mem_storage;
  files = [];
  past = [];
  outcomes = done ∷ failed "" (path_error ∷ []) ∷ [];
}

abbrev pub events : List (ServerEvent One)
events = gauge_written "Alloc" tt ∷ tick ∷ []

serve_file-IsRestored_example :
    let rt = quiet (Machine One) in
    let s = start_storage unmarshal "metrics.json" rt none true machine in
    let t = serve_file marshal temp_name "metrics.json" rt none 300 events s in
    let before = handle_events marshal temp_name "metrics.json" rt none 300 events s in
    let m = replay events s.machine.memory in
    let u = start_storage unmarshal "metrics.json" rt none true (rebooted (done ∷ []) t) in
    (t.machine.memory ≡ m) × (((e : Err) × (t.log ≡ e ∷ before.log)) ⊎ IsRestored m u)
serve_file-IsRestored_example =
    serve_file-IsRestored marshal unmarshal temp_name "metrics.json" (quiet (Machine One)) none
      (λ e k n u.
        let same = quiet_pause (save_config none) e k n u refl in
        (ap (λ p. p.1.files) same, ap (λ p. p.1.past) same, ap (λ p. p.1.memory) same))
      marshal-parses 300 true events machine (done ∷ []) (λ files. refl)
