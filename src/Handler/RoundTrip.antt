-- ===== src/Handler/RoundTrip.antt =====
-- Reads after writes through the handlers, for every storage that keeps the contract.
use svcmetrics.Base.{
  ◌≡◌, ◌≢◌, refl, sym, ap, ◌∙◌, String, some, arith, true, get_or, ◌⊎◌, inl, inr, ◌≤◌,
}
use text.Mathlib.TextPositions.{eq_refl}
use mathlib.Core.Option.{some-injective}
use svcmetrics.Base.Word.{Int64, add64}
use svcmetrics.Model.{gauge, counter}
use svcmetrics.Errors.{Err, Result, ok, err, has, is_not_found}
use svcmetrics.Repository.Storage.{Storage, Contract}
use svcmetrics.Handler.{Request, Response, Codec, storage_status, status_ok, status_not_found}
use svcmetrics.Handler.Audit.{World}
use svcmetrics.Handler.Update.{update_handler}
use svcmetrics.Handler.Update.Stores.{update_handler-gauge, update_handler-counter}
use svcmetrics.Handler.Value.{value_handler}
use svcmetrics.Handler.Value.Reads.{Answers, value_handler-gauge, value_handler-counter}

storage_status-ne-not_found :
    (e : Err) → ¬ (has is_not_found e ≡ true) → storage_status e ≢ status_not_found
unfolding storage_status
storage_status-ne-not_found e h p = ground arith

-- An answer to a read of a metric that holds `a`, by what the storage answered to it: the text of `a`,
-- which is then what it answered; or an error status but 404, where it answered an error.
abbrev pub ReadsBack : {A : Type 0} → (A → String) → A → Result A → Response → Type 0
ReadsBack format a p out =
    ((p ≡ ok a) × (out.status ≡ status_ok) × (out.body ≡ format a))
    ⊎ ((e : Err) × (p ≡ err e) × (400 ≤ out.status) × (out.status ≢ status_not_found))

reads_back :
    {A : Type 0} (format : A → String) (a : A) (p : Result A) (out : Response)
    → Answers format p out
    → ((b : A) → p ≡ ok b → a ≡ b)
    → ((e : Err) → p ≡ err e → ¬ (has is_not_found e ≡ true))
    → ReadsBack format a p out
reads_back format a (ok b) out h same found =
    let e = sym (same b refl) in inl (ap ok e, h.0, h.1 ∙ ap format e)
reads_back format a (err e) out h same found =
    inr (e, refl, omega arith, λ n. storage_status-ne-not_found e (found e refl) (sym h.0 ∙ n))

module _ {S F : Type 0} (c : Codec F) (st : Storage S F) (k : Contract st) where
  -- For a storage that keeps the contract: after an update in the path of a named gauge that was
  -- answered by 200, the next read of that gauge in the path answers its value, or the storage answers
  -- an error to it, and the status is an error other than 404.
  pub gauge-ReadsBack :
      (r q : Request) (w : World S) (v : F)
      → r.name_param ≢ ""
      → r.type_param ≡ gauge
      → c.parse_float r.value_param ≡ some v
      → q.type_param ≡ gauge
      → q.name_param ≡ r.name_param
      → (update_handler c st r w).0.status ≡ status_ok
      → ReadsBack c.format_float v
          (st.get_gauge q.name_param (update_handler c st r w).1.storage).0
          (value_handler c st q (update_handler c st r w).1.storage).0
  gauge-ReadsBack r q w v named is parsed is' same h =
      let (x, stored, left) = update_handler-gauge c st r w v named is parsed h in
      let (_, held, _) = k.update_gauge_ok r.name_param q.name_param v x w.storage stored in
      let s = (update_handler c st r w).1.storage in
      let holds : k.gauge_of s q.name_param ≡ some v = rw left (held ∙ rw (same, eq_refl)) in
      reads_back c.format_float v (st.get_gauge q.name_param s).0 _
        (value_handler-gauge c st q s is')
        (λ b e. some-injective _ _ (sym holds ∙ k.get_gauge_ok q.name_param s b e))
        (λ e f. k.get_gauge_some q.name_param s v e holds f)

  -- For a storage that keeps the contract: after an update in the path of a named counter by `d` that
  -- was answered by 200, the next read of that counter in the path answers the total before, or zero,
  -- plus `d`, which is what the storage answers to it; or the storage answers an error to it, and the
  -- status is an error other than 404.
  pub counter-ReadsBack :
      (r q : Request) (w : World S) (d : Int64)
      → r.name_param ≢ ""
      → r.type_param ≡ counter
      → c.parse_int r.value_param ≡ some d
      → q.type_param ≡ counter
      → q.name_param ≡ r.name_param
      → (update_handler c st r w).0.status ≡ status_ok
      → ReadsBack c.format_int
          (add64 (get_or 0 (k.counter_of w.storage r.name_param)) d)
          (st.get_counter q.name_param (update_handler c st r w).1.storage).0
          (value_handler c st q (update_handler c st r w).1.storage).0
  counter-ReadsBack r q w d named is parsed is' same h =
      let (x, stored, left) = update_handler-counter c st r w d named is parsed h in
      let (total, held, _) = k.update_counter_ok r.name_param q.name_param d x w.storage stored in
      let s = (update_handler c st r w).1.storage in
      let sum = add64 (get_or 0 (k.counter_of w.storage r.name_param)) d in
      let holds : k.counter_of s q.name_param ≡ some sum =
        rw left (held ∙ rw (same, eq_refl, total)) in
      reads_back c.format_int sum (st.get_counter q.name_param s).0 _
        (value_handler-counter c st q s is')
        (λ b e. some-injective _ _ (sym holds ∙ k.get_counter_ok q.name_param s b e))
        (λ e f. k.get_counter_some q.name_param s sum e holds f)
