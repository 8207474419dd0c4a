-- ===== src/Handler/Update/Outcome.antt =====
-- What a request to store metrics in JSON leaves behind: the answer, the report and the storage.
mod Status
pub use Status.*
use svcmetrics.Base.{
  ◌≡◌, ◌≢◌, refl, ap, ◌⊎◌, inl, inr, String, Bool, true, false, Option, none, some, List, [], ◌∷◌,
  ◌++◌, map, arith, Bool-cases, str_eq, eq_iff, if◌then◌else◌,
}
use svcmetrics.Base.Word.{Int64}
use svcmetrics.Model.{Metrics, gauge, counter, is_gauge, is_counter}
use svcmetrics.Errors.{Err, Result, ok, err}
use svcmetrics.Repository.Storage.{Storage}
use svcmetrics.Handler.{Request, Response, Codec, Decoded, value, empty_body, malformed, http_error}
use svcmetrics.Handler.Audit.{World, Notice, notify_audit, client_ip, report}
use svcmetrics.Handler.Update.{
  updates_decoded, update_gauge_json, update_counter_json, update_metric, update_decoded,
  update_json_handler, updates_json_handler, update_metrics, metric_names, stored_batch,
  stored_gauge, stored_counter, answer_metric,
}

report_lem :
    (audited : Bool) (n : Notice) (ns : List Notice)
    → report audited n ns ≡ (if audited then ns ++ n ∷ [] else ns)
report_lem true n ns = refl
report_lem false n ns = refl

metric_names-map : {F : Type 0} (ms : List (Metrics F)) → metric_names ms ≡ map (λ m. m.id) ms
unfolding metric_names
metric_names-map [] = refl
metric_names-map (m ∷ ms) = ap (λ l. m.id ∷ l) (metric_names-map ms)

module _ {S F : Type 0} (c : Codec F) where
  -- The world behind a write that left the storage `s`, which is reported once for the names of a
  -- request, if there is an auditor.
  abbrev pub reported : Request → List String → S → World S → World S
  reported r names s w = record w {
    storage = s;
    notices =
        if w.audited
        then w.notices ++ record { time = r.now; metrics = names; ip = client_ip c r } ∷ []
        else w.notices;
  }

  -- A write that failed by `e` and left the storage `s`: the status of the error, and no report.
  abbrev pub IsFailed : Err → S → World S → Response × World S → Type 0
  IsFailed e s w out = IsStatusOf e out.0.status × (out.1 ≡ record w { storage = s })

  module _ (st : Storage S F) (r : Request) where
    notify_audit-reported :
        (name : String) (names : List String) (s : S) (w : World S)
        → notify_audit c r (name ∷ names) (record w { storage = s }) ≡ reported r (name ∷ names) s w
    unfolding notify_audit
    notify_audit-reported name names s w =
        ap (λ (l : List Notice). record w { storage = s; notices = l })
          (report_lem w.audited _ w.notices)

    -- A batch by what the storage answers to it.
    abbrev pub IsWritten : List (Metrics F) → Option Err × S → World S → Response × World S → Type 0
    IsWritten ms (none, s) w out =
        (out.0.status ≡ 200) × (out.1 ≡ reported r (map (λ m. m.id) ms) s w)
    IsWritten ms (some e, s) w out = IsFailed e s w out

    stored_batch-IsWritten :
        (m : Metrics F) (ms : List (Metrics F)) (w : World S) (p : Option Err × S)
        → IsWritten (m ∷ ms) p w (stored_batch c st r (m ∷ ms) w p)
    stored_batch-IsWritten m ms w (some e, s) = (write_storage_error-IsStatusOf c e, refl)
    stored_batch-IsWritten m ms w (none, s) = (
      refl,
      rw (metric_names-map (m ∷ ms))
          (notify_audit-reported m.id (map (λ (x : Metrics F). x.id) ms) s w),
    )

    -- The answer to a body by what it decodes to: a batch, an empty one, or no batch.
    abbrev pub IsAnswered :
        World S → Decoded (Option (List (Metrics F))) → Response × World S → Type 0
    IsAnswered w (value (some (m ∷ ms))) out =
        IsWritten (m ∷ ms) (st.update_batch (m ∷ ms) w.storage) w out
    IsAnswered w (value (some [])) out = (out.0.status ≡ 200) × (out.1 ≡ w)
    IsAnswered w _ out = (out.0.status ≡ 400) × (out.1 ≡ w)

    updates_decoded-IsAnswered :
        (w : World S) (d : Decoded (Option (List (Metrics F))))
        → IsAnswered w d (updates_decoded c st r w d)
    unfolding update_metrics http_error
    updates_decoded-IsAnswered w empty_body = (refl, refl)
    updates_decoded-IsAnswered w malformed = (refl, refl)
    updates_decoded-IsAnswered w (value none) = (refl, refl)
    updates_decoded-IsAnswered w (value (some [])) = (refl, refl)
    updates_decoded-IsAnswered w (value (some (m ∷ ms))) =
        stored_batch-IsWritten m ms w (st.update_batch (m ∷ ms) w.storage)

    -- A batch in JSON goes to the storage in one call of UpdateBatch. Where that answers no error, the
    -- answer is 200 and, if there is an auditor, one report with the name of every metric of the batch in
    -- its order; where it answers an error, the status is 404, 400, 504 or 500, by the error, and nothing is
    -- reported; either way the storage is the one that the call left. An empty batch is accepted, and a
    -- body that decodes to no batch is refused with 400, and both leave the world as it is.
    pub updates_json_handler-IsAnswered :
        (w : World S) → IsAnswered w (c.decode_batch r.body) (updates_json_handler c st r w)
    unfolding updates_json_handler
    updates_json_handler-IsAnswered w = updates_decoded-IsAnswered w (c.decode_batch r.body)

    -- A stored metric is answered by its JSON; one that has none is an internal error.
    abbrev pub IsEncoded : Option String → Response → Type 0
    IsEncoded none out = out.status ≡ 500
    IsEncoded (some body) out = (out.status ≡ 200) × (out.body ≡ body)

    -- A metric by what the storage answers to it; `result` is the metric that the answer shows.
    abbrev pub IsTaken :
        {A : Type 0}
        → String
        → (A → Metrics F)
        → Result A × S
        → World S
        → Response × World S
        → Type 0
    IsTaken id result (ok a, s) w out =
        IsEncoded (c.encode_metric (result a)) out.0 × (out.1 ≡ reported r (id ∷ []) s w)
    IsTaken id result (err e, s) w out = IsFailed e s w out

    -- What is answered without a call of the storage.
    abbrev pub IsRefused : Metrics F → Type 0
    IsRefused m =
        (m.id ≡ "")
        ⊎ ((m.mtype ≡ gauge) × (m.value ≡ none))
        ⊎ ((m.mtype ≡ counter) × (m.delta ≡ none))
        ⊎ ((m.mtype ≢ gauge) × (m.mtype ≢ counter))

    abbrev pub IsHandled : World S → Metrics F → Response × World S → Type 0
    IsHandled w m out =
        (IsRefused m × (out.0.status ≡ 400) × (out.1 ≡ w))
        ⊎ ((v : F) × (m.id ≢ "")
            × (m.mtype ≡ gauge)
            × (m.value ≡ some v)
            × IsTaken m.id (λ x. record m { delta = none; value = some x })
                (st.update_gauge m.id v w.storage) w out)
        ⊎ ((d : Int64) × (m.id ≢ "")
            × (m.mtype ≡ counter)
            × (m.delta ≡ some d)
            × IsTaken m.id (λ x. record m { delta = some x; value = none })
                (st.update_counter m.id d w.storage) w out)

    abbrev pub IsDecoded : World S → Decoded (Metrics F) → Response × World S → Type 0
    IsDecoded w (value m) out = IsHandled w m out
    IsDecoded w _ out = (out.0.status ≡ 400) × (out.1 ≡ w)

    answer_metric-IsTaken :
        (m : Metrics F) (s : S) (w : World S) (o : Option String)
        → c.encode_metric m ≡ o
        → let out = answer_metric c st r m (record w { storage = s }) in
          IsEncoded o out.0 × (out.1 ≡ reported r (m.id ∷ []) s w)
    unfolding answer_metric http_error
    answer_metric-IsTaken m s w none e =
        rw (e, answer_metric) (refl, notify_audit-reported m.id [] s w)
    answer_metric-IsTaken m s w (some body) e =
        rw (e, answer_metric) ((refl, refl), notify_audit-reported m.id [] s w)

    stored_gauge-IsTaken :
        (m : Metrics F) (w : World S) (p : Result F × S)
        → IsTaken m.id
            (λ x. record m { delta = none; value = some x })
            p
            w
            (stored_gauge c st r m w p)
    stored_gauge-IsTaken m w (err e, s) = (write_storage_error-IsStatusOf c e, refl)
    stored_gauge-IsTaken m w (ok x, s) = answer_metric-IsTaken _ s w _ refl

    stored_counter-IsTaken :
        (m : Metrics F) (w : World S) (p : Result Int64 × S)
        → IsTaken m.id
            (λ x. record m { delta = some x; value = none })
            p
            w
            (stored_counter c st r m w p)
    stored_counter-IsTaken m w (err e, s) = (write_storage_error-IsStatusOf c e, refl)
    stored_counter-IsTaken m w (ok x, s) = answer_metric-IsTaken _ s w _ refl

    update_gauge_json-IsHandled :
        (m : Metrics F) (w : World S) (o : Option F)
        → m.id ≢ ""
        → m.mtype ≡ gauge
        → m.value ≡ o
        → IsHandled w m (update_gauge_json c st r m w o)
    unfolding http_error
    update_gauge_json-IsHandled m w none named is e = inl (inr (inl (is, e)), refl, refl)
    update_gauge_json-IsHandled m w (some v) named is e =
        inr (inl (v, named, is, e, stored_gauge-IsTaken m w (st.update_gauge m.id v w.storage)))

    update_counter_json-IsHandled :
        (m : Metrics F) (w : World S) (o : Option Int64)
        → m.id ≢ ""
        → m.mtype ≡ counter
        → m.delta ≡ o
        → IsHandled w m (update_counter_json c st r m w o)
    unfolding http_error
    update_counter_json-IsHandled m w none named is e = inl (inr (inr (inl (is, e))), refl, refl)
    update_counter_json-IsHandled m w (some d) named is e =
        inr (inr (d, named, is, e, stored_counter-IsTaken m w (st.update_counter m.id d w.storage)))

    update_metric-IsHandled :
        (m : Metrics F) (w : World S) → IsHandled w m (update_metric c st r m w)
    unfolding update_metric http_error
    update_metric-IsHandled m w = elim (Bool-cases (str_eq m.id "")) [
      | inl e ↦ rw e (inl (inl ((eq_iff m.id "").0 e), refl, refl))
      | inr e ↦
          let named : m.id ≢ "" = ground (arith, eq_iff m.id "") in
          elim (Bool-cases (is_gauge m.mtype)) [
            | inl g ↦
                rw (e, g) (update_gauge_json-IsHandled m w m.value named ((eq_iff _ _).0 g) refl)
            | inr g ↦ elim (Bool-cases (is_counter m.mtype)) [
              | inl k ↦
                  rw (e, g, k)
                    (update_counter_json-IsHandled m w m.delta named ((eq_iff _ _).0 k) refl)
              | inr k ↦
                  let no_gauge : m.mtype ≢ gauge = ground (arith, eq_iff m.mtype gauge) in
                  let no_counter : m.mtype ≢ counter = ground (arith, eq_iff m.mtype counter) in
                  rw (e, g, k) (inl (inr (inr (inr (no_gauge, no_counter))), refl, refl))
            ]
          ]
    ]

    -- A metric in JSON is refused with 400 before a call of the storage, with the world as it is, exactly if
    -- it cannot be decoded, has no ID, is a gauge with no value or a counter with no delta, or is of another type. Any other goes to
    -- the storage. Where that answers an error, the status is 404, 400, 504 or 500, by the error, and nothing
    -- is reported; where it answers a value, the metric is reported once, if there is an auditor, and the
    -- answer is 200 with the JSON of the metric with that value, or 500 if that has none. The storage is
    -- the one that its call left.
    pub update_json_handler-IsDecoded :
        (w : World S) → IsDecoded w (c.decode_metric r.body) (update_json_handler c st r w)
    unfolding update_json_handler
    update_json_handler-IsDecoded w = decoded (c.decode_metric r.body)
      where
        decoded : (d : Decoded (Metrics F)) → IsDecoded w d (update_decoded c st r w d)
        decoded empty_body = (refl, refl)
        decoded malformed = (refl, refl)
        decoded (value m) = update_metric-IsHandled m w
