-- ===== src/Handler/Value/Reads.antt =====
-- What a read of one metric in the path answers.
use svcmetrics.Base.{◌≡◌, ◌≤◌, refl, String, true, false, eq_iff}
use svcmetrics.Model.{gauge, counter, is_gauge, is_counter, is_counter-not-is_gauge}
use svcmetrics.Errors.{Result, ok, err}
use svcmetrics.Repository.Storage.{Storage}
use svcmetrics.Handler.{Request, Response, Codec, storage_status, status_ok}
use svcmetrics.Handler.Update.Outcome.{write_storage_error_status}
use svcmetrics.Handler.Value.{value_handler, read_path}

-- A value is answered as its text, an error by its status.
abbrev pub Answers : {A : Type 0} → (A → String) → Result A → Response → Type 0
Answers format (ok a) out = (out.status ≡ status_ok) × (out.body ≡ format a)
Answers format (err e) out = (out.status ≡ storage_status e) × (400 ≤ out.status)

module _ {S F : Type 0} (c : Codec F) (st : Storage S F) (r : Request) (s : S) where
  read_path-Answers :
      {A : Type 0} (format : A → String) (p : Result A × S)
      → Answers format p.0 (read_path c st r format p).0
  read_path-Answers format (err e, t) =
      let (same, least, _) = write_storage_error_status c e in (same, least)
  read_path-Answers format (ok a, t) = (refl, refl)

  pub value_handler-gauge :
      r.type_param ≡ gauge
      → Answers c.format_float (st.get_gauge r.name_param s).0 (value_handler c st r s).0
  unfolding value_handler
  value_handler-gauge is =
      let t : is_gauge r.type_param ≡ true = (eq_iff r.type_param gauge).1 is in
      rw t (read_path-Answers c.format_float _)

  pub value_handler-counter :
      r.type_param ≡ counter
      → Answers c.format_int (st.get_counter r.name_param s).0 (value_handler c st r s).0
  unfolding value_handler
  value_handler-counter is =
      let t : is_counter r.type_param ≡ true = (eq_iff r.type_param counter).1 is in
      let g : is_gauge r.type_param ≡ false = is_counter-not-is_gauge r.type_param t in
      rw (g, t) (read_path-Answers c.format_int _)
