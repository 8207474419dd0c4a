-- ===== src/Server/Delivery.antt =====
-- A batch of the agent through the middleware of the server into its storage.
use svcmetrics.Base.{
  ℕ, ◌≡◌, ◌≢◌, refl, sym, ◌∙◌, ap, String, false, Option, none, some, List, [], ◌∷◌, get_or, arith,
  inl, inr, ◌⊎◌, ◌≤◌, ◌↔◌,
}
use Prim.Native.String.{len}
use svcmetrics.Errors.{Err, Result, ok, err}
use svcmetrics.Model.{Metrics}
use svcmetrics.Repository.Storage.{Storage}
use svcmetrics.Hashing.{Crypto, HexReads}
use svcmetrics.Agent.Request.{Client, new_request, request_header, accepted_by, post_batch}
use svcmetrics.Handler.{Request, Response, Codec, value, status_ok}
use svcmetrics.Handler.Audit.{World, notify_audit}
use svcmetrics.Handler.Update.{update_metrics, updates_json_handler, stored_batch, metric_names}
use svcmetrics.Handler.Update.Outcome.{write_storage_error_status}
use svcmetrics.Agent.Report.{send_batch}
use mathlib.Core.Option.{none-ne-some}
use svcmetrics.Handler.Hash.{HttpRequest, HttpHandler, HashResponseWriter, max_signed_body_size}
use svcmetrics.Handler.Wire.{wire, unsent}
use svcmetrics.Handler.Gzip.{Gzip, gzip_request_middleware, gzip_response_middleware}
use svcmetrics.Server.Router.{
  Logged, updates_calls, updates_endpoint, new_router, logging_middleware,
}
use svcmetrics.Server.Admitted.{chain-new_request, hash_middleware_status}

-- The server at the other end of an exchange: the status that the client receives.
unfoldable pub serve :
    {W : Type 0} → HttpHandler (Logged W) → HttpRequest → Logged W → Result ℕ × Logged W
serve handler r w =
    let (calls, w') = handler r w in (ok (get_or status_ok (wire calls (unsent [])).status), w')

-- The agent at one end of the connection and the batch endpoint behind its middleware at the other.
module _ {S F Z : Type 0} (c : Codec F) (st : Storage S F) (incoming : HttpRequest → Request)
    (gz : Gzip Z) (cr : Crypto) (itoa : ℕ → String) (written : String → ℕ × Option Err)
    (key : String) (pooled : HashResponseWriter) (encode : List (Metrics F) → Result String)
    (compress : String → Result String) where
  unfoldable pub route : HttpHandler (Logged (World S))
  route = new_router gz cr itoa written key pooled (updates_endpoint c st incoming)

  unfoldable pub connected : Client (Logged (World S)) F
  connected = record {
    encode_batch = encode;
    compress = compress;
    request_error = none;
    exchange = serve route;
  }

  serve_status :
      (endpoint : HttpHandler (World S)) (json body : String) (w : Logged (World S)) (r : Response)
      (w' : World S)
      → HexReads cr
      → len body ≤ max_signed_body_size
      → pooled.wrote_header ≡ false
      → gz.decompress (record { content = body; broken = false })
        ≡ some (record { content = json; broken = false })
      → gz.contains "identity" "gzip" ≡ false
      → endpoint
          (record {
            header = request_header cr key body;
            body = record { content = json; broken = false };
          })
          w.world
        ≡ (updates_calls r, w')
      → let out =
          serve (new_router gz cr itoa written key pooled endpoint) (new_request cr key body) w in
        (out.0 ≡ ok r.status) × (out.1.world ≡ w')
  unfolding serve new_router logging_middleware
  serve_status endpoint json body w r w' reads small fresh restores identity e =
      let chain = gzip_request_middleware gz (gzip_response_middleware gz [] endpoint) in
      let reached =
        chain-new_request gz cr itoa key pooled endpoint body _ w.world restores identity ∙ e in
      let (status, world) =
        hash_middleware_status gz cr itoa key pooled chain body w.world w' r reads small fresh
          reached in
      (ap (λ o. ok (get_or status_ok o)) status, world)

accepted_by-kept : {S : Type 0} (p : Result ℕ × S) → (accepted_by p).1 ≡ p.1
accepted_by-kept (err e, s) = refl
accepted_by-kept (ok code, s) = ground arith

accepted_by_success :
    {S : Type 0} (p : Result ℕ × S) → p.0 ≡ ok status_ok → (accepted_by p).0 ≡ none
accepted_by_success (p, s) e = rw e refl

accepted_by_refusal :
    {S : Type 0} (p : Result ℕ × S) (code : ℕ)
    → p.0 ≡ ok code
    → 400 ≤ code
    → (accepted_by p).0 ≢ none
accepted_by_refusal (p, s) code e high = rw e (λ h. ground arith)

-- The two ends of a batch that the storage was given.
abbrev Settles : {S : Type 0} → Option Err × S → Response × World S → Type 0
Settles p out =
    (out.1.storage ≡ p.1)
    × (((p.0 ≡ none) × (out.0.status ≡ status_ok)) ⊎ ((p.0 ≢ none) × (400 ≤ out.0.status)))

-- What the agent makes of them.
settled :
    {S : Type 0} (p : Option Err × S) (out : Response × World S)
    (served : Result ℕ × Logged (World S))
    → served.0 ≡ ok out.0.status
    → served.1.world ≡ out.1
    → Settles p out
    → (((accepted_by served).0 ≡ none) ↔ (p.0 ≡ none))
      × ((accepted_by served).1.world.storage ≡ p.1)
settled p out served answered world (kept, inl (held, success)) = (
  (λ _. held, λ _. accepted_by_success served (answered ∙ ap ok success)),
  rw (accepted_by-kept served, world) kept,
)
settled p out served answered world (kept, inr (failed, high)) = (
  (λ h. absurd (accepted_by_refusal served out.0.status answered high h), λ h. absurd (failed h)),
  rw (accepted_by-kept served, world) kept,
)

module _ {S F : Type 0} (c : Codec F) (st : Storage S F) (r : Request) where
  stored_batch-Settles :
      (ms : List (Metrics F)) (w : World S) (p : Option Err × S)
      → Settles p (stored_batch c st r ms w p)
  unfolding notify_audit metric_names
  stored_batch-Settles ms w (some e, s) =
      (refl, inr (λ n. none-ne-some _ (sym n), (write_storage_error_status c e).1))
  stored_batch-Settles [] w (none, s) = (refl, inl (refl, refl))
  stored_batch-Settles (m ∷ ms) w (none, s) = (refl, inl (refl, refl))

  updates_json_handler-Settles :
      (m : Metrics F) (ms : List (Metrics F)) (w : World S)
      → c.decode_batch r.body ≡ value (some (m ∷ ms))
      → Settles (st.update_batch (m ∷ ms) w.storage) (updates_json_handler c st r w)
  unfolding updates_json_handler update_metrics
  updates_json_handler-Settles m ms w e = rw e (stored_batch-Settles (m ∷ ms) w _)

module _ {S F Z : Type 0} (c : Codec F) (st : Storage S F) (incoming : HttpRequest → Request)
    (gz : Gzip Z) (cr : Crypto) (itoa : ℕ → String) (written : String → ℕ × Option Err)
    (key : String) (pooled : HashResponseWriter) (encode : List (Metrics F) → Result String)
    (compress : String → Result String) where
  -- With or without a key: for a batch that is not empty, where the decoders read what the
  -- encoders wrote, the compressed body is within the cap, a handler sees the body that it is
  -- given, the writer of the pool is fresh and identity does not ask for gzip, sendBatch returns
  -- no error exactly when the storage took the batch, and the storage is the one behind that
  -- single write.
  pub send_batch_stores :
      (m : Metrics F) (ms : List (Metrics F)) (w : Logged (World S)) (json body : String)
      → HexReads cr
      → gz.contains "identity" "gzip" ≡ false
      → pooled.wrote_header ≡ false
      → ((r : HttpRequest) → r.body.broken ≡ false → (incoming r).body ≡ r.body.content)
      → encode (m ∷ ms) ≡ ok json
      → c.decode_batch json ≡ value (some (m ∷ ms))
      → compress json ≡ ok body
      → gz.decompress (record { content = body; broken = false })
        ≡ some (record { content = json; broken = false })
      → len body ≤ max_signed_body_size
      → let client = connected c st incoming gz cr itoa written key pooled encode compress in
        let out = send_batch (post_batch cr key client) (m ∷ ms) w in
        let stored = st.update_batch (m ∷ ms) w.world.storage in
        ((out.0 ≡ none) ↔ (stored.0 ≡ none)) × (out.1.world.storage ≡ stored.1)
  unfolding send_batch post_batch connected route updates_endpoint
  send_batch_stores m ms w json body reads identity fresh read encodes decodes compresses restores
        small =
      let opened : HttpRequest = record {
        header = request_header cr key body;
        body = record { content = json; broken = false };
      } in
      let asked = incoming opened in
      let decoded : c.decode_batch asked.body ≡ value (some (m ∷ ms)) =
        rw (read opened refl) decodes in
      let (response, w') = updates_json_handler c st asked w.world in
      let (status, world) =
        serve_status c st incoming gz cr itoa written key pooled encode compress
          (updates_endpoint c st incoming) json body w response w' reads small fresh restores
          identity refl in
      rw (encodes, compresses)
        (settled _ (response, w') _ status world
          (updates_json_handler-Settles c st asked m ms w.world decoded))
