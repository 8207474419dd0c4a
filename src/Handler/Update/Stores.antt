-- ===== src/Handler/Update/Stores.antt =====
-- A request in the path that is answered by 200 went through the storage.
use svcmetrics.Base.{◌≡◌, ◌≢◌, refl, ap, ◌∙◌, String, some, arith, true, false, str_eq, eq_iff}
use svcmetrics.Base.Word.{Int64}
use svcmetrics.Model.{gauge, counter, is_gauge, is_counter, is_counter-not-is_gauge}
use svcmetrics.Errors.{Result, ok, err}
use svcmetrics.Repository.Storage.{Storage}
use svcmetrics.Handler.{Request, Response, Codec, status_ok}
use svcmetrics.Handler.Audit.{World, notify_audit}
use svcmetrics.Handler.Update.{update_handler, stored_path, update_gauge_path, update_counter_path}
use svcmetrics.Handler.Update.Outcome.{write_storage_error_status}

not_empty : (s : String) → s ≢ "" → str_eq s "" ≡ false
not_empty s h = ground (arith, eq_iff s "")

-- The value that an answer reports as stored, and the state that the storage left.
abbrev pub Stored : {S A : Type 0} → Result A × S → Response × World S → Type 0
Stored {A = A} p out = (a : A) × (p.0 ≡ ok a) × (out.1.storage ≡ p.1)

module _ {S F : Type 0} (c : Codec F) (st : Storage S F) (r : Request) (w : World S) where
  stored_path_ok :
      {A : Type 0} (p : Result A × S)
      → (stored_path c st r w p).0.status ≡ status_ok
      → Stored p (stored_path c st r w p)
  unfolding notify_audit
  stored_path_ok (err e, s) h = absurd (omega (arith, (write_storage_error_status c e).1))
  stored_path_ok (ok a, s) h = (a, refl, refl)

  update_handler-update_gauge_path :
      r.name_param ≢ ""
      → r.type_param ≡ gauge
      → update_handler c st r w ≡ update_gauge_path c st r w (c.parse_float r.value_param)
  unfolding update_handler
  update_handler-update_gauge_path named is =
      let t : is_gauge r.type_param ≡ true = (eq_iff r.type_param gauge).1 is in
      simp (not_empty r.name_param named, t)

  update_handler-update_counter_path :
      r.name_param ≢ ""
      → r.type_param ≡ counter
      → update_handler c st r w ≡ update_counter_path c st r w (c.parse_int r.value_param)
  unfolding update_handler
  update_handler-update_counter_path named is =
      let t : is_counter r.type_param ≡ true = (eq_iff r.type_param counter).1 is in
      let g : is_gauge r.type_param ≡ false = is_counter-not-is_gauge r.type_param t in
      simp (not_empty r.name_param named, g, t)

  pub update_handler-gauge :
      (v : F)
      → r.name_param ≢ ""
      → r.type_param ≡ gauge
      → c.parse_float r.value_param ≡ some v
      → (update_handler c st r w).0.status ≡ status_ok
      → Stored (st.update_gauge r.name_param v w.storage) (update_handler c st r w)
  update_handler-gauge v named is parsed h =
      let path =
        update_handler-update_gauge_path named is ∙ ap (update_gauge_path c st r w) parsed in
      rw path (stored_path_ok _ (rw path at h))

  pub update_handler-counter :
      (d : Int64)
      → r.name_param ≢ ""
      → r.type_param ≡ counter
      → c.parse_int r.value_param ≡ some d
      → (update_handler c st r w).0.status ≡ status_ok
      → Stored (st.update_counter r.name_param d w.storage) (update_handler c st r w)
  update_handler-counter d named is parsed h =
      let path =
        update_handler-update_counter_path named is ∙ ap (update_counter_path c st r w) parsed in
      rw path (stored_path_ok _ (rw path at h))
