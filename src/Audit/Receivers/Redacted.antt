-- ===== src/Audit/Receivers/Redacted.antt =====
-- What the errors of the HTTP receiver say of its URL.
use svcmetrics.Base.{
  ℕ, ◌≡◌, refl, ap, sym, String, Option, none, some, List, [], ◌∷◌, ◌||◌, All, Bool-cases, inl, inr,
  ltb,
}
use mathlib.Core.Option.{none-ne-some, some-injective}
use svcmetrics.Audit.{Event}
use svcmetrics.Audit.Receivers.{
  HttpError, plain, wrapped, url_error, Net, HttpObserver, find_url_error, redact, replaced, posted,
  requested, encoded, Url, checked_url, refused_url, new_http_observer, http_update,
}

-- The URLs in an error, the outermost one first.
abbrev pub urls : HttpError → List String
urls (plain s) = []
urls (wrapped s e) = urls e
urls (url_error op url e) = url ∷ urls e

-- Only the outermost *url.Error has a URL, as in the errors of net/http.
abbrev pub IsFlat : HttpError → Type 0
IsFlat (plain s) = Unit
IsFlat (wrapped s e) = IsFlat e
IsFlat (url_error op url e) = urls e ≡ []

abbrev pub OnlyUrl : String → Option HttpError → Type 0
OnlyUrl safe_url none = Unit
OnlyUrl safe_url (some e) = All (λ u. u ≡ safe_url) (urls e)

redact-urls : (o : HttpObserver) (e : HttpError) → IsFlat e → OnlyUrl o.safe_url (some (redact o e))
unfolding redact find_url_error
redact-urls o e flat = found e e flat (λ h. rw h tt)
  where
    found :
        (whole e : HttpError)
        → IsFlat e
        → (urls e ≡ [] → All (λ u. u ≡ o.safe_url) (urls whole))
        → All (λ u. u ≡ o.safe_url) (urls (replaced o.safe_url whole (find_url_error e)))
    found whole (plain s) flat k = k refl
    found whole (wrapped s e) flat k = found whole e flat k
    found whole (url_error op url e) flat k = (refl, rw flat tt)

module _ {S : Type 0} (net : Net S) where
  posted-OnlyUrl :
      (o : HttpObserver) (code : ℕ) (s : S) (r : Option HttpError)
      → ((e : HttpError) → r ≡ some e → IsFlat e)
      → OnlyUrl o.safe_url (posted net o ((r, code), s)).0
  posted-OnlyUrl o code s (some e) flat = redact-urls o e (flat e refl)
  posted-OnlyUrl o code s none flat = elim (Bool-cases (ltb code 200 || ltb 299 code)) [
    | inl refused ↦ rw refused tt
    | inr accepted ↦ rw accepted tt
  ]

  requested-OnlyUrl :
      (o : HttpObserver) (body : String) (s : S) (r : Option HttpError)
      → ((e : HttpError) → r ≡ some e → IsFlat e)
      → ((e : HttpError) → (net.exchange o.url body s).0.0 ≡ some e → IsFlat e)
      → OnlyUrl o.safe_url (requested net o body r s).0
  requested-OnlyUrl o body s (some e) built sent = redact-urls o e (built e refl)
  requested-OnlyUrl o body s none built sent =
      let answer = net.exchange o.url body s in posted-OnlyUrl o answer.0.1 answer.1 answer.0.0 sent

  encoded-OnlyUrl :
      (o : HttpObserver) (s : S) (r : Option String)
      → ((e : HttpError) → net.request_error o.url ≡ some e → IsFlat e)
      → ((body : String) (e : HttpError) → (net.exchange o.url body s).0.0 ≡ some e → IsFlat e)
      → OnlyUrl o.safe_url (encoded net o r s).0
  encoded-OnlyUrl o s none built sent = tt
  encoded-OnlyUrl o s (some body) built sent =
      requested-OnlyUrl o body s (net.request_error o.url) built (sent body)

  -- Where in an error of net/http only the outermost *url.Error has a URL, every URL that an error of
  -- Update shows is the safe one of its observer: that of an accepted URL without its userinfo, path and query.
  pub http_update-OnlyUrl :
      (raw : String) (o : HttpObserver) (event : Event) (s : S)
      → new_http_observer net raw ≡ some o
      → ((e : HttpError) → net.request_error o.url ≡ some e → IsFlat e)
      → ((body : String) (e : HttpError) → (net.exchange o.url body s).0.0 ≡ some e → IsFlat e)
      → OnlyUrl o.safe_url (http_update net o event s).0
        × ((u : Url) × (net.parse_url raw ≡ some u)
            × (o.safe_url ≡ net.url_string (record u { secrets = "" })))
  unfolding http_update new_http_observer
  http_update-OnlyUrl raw o event s made built sent = (
    encoded-OnlyUrl o s (net.marshal_event event) built sent,
    accepted raw o (net.parse_url raw) refl made,
  )
    where
      accepted :
          (raw : String) (o : HttpObserver) (p : Option Url)
          → net.parse_url raw ≡ p
          → checked_url net raw p ≡ some o
          → (u : Url) × (net.parse_url raw ≡ some u)
            × (o.safe_url ≡ net.url_string (record u { secrets = "" }))
      accepted raw o none parsed e = absurd (none-ne-some o e)
      accepted raw o (some u) parsed e = elim (Bool-cases (refused_url net u)) [
        | inl refused ↦ absurd (none-ne-some o (rw refused at e))
        | inr fine ↦ (u, parsed, ap (λ h. h.safe_url) (sym (some-injective _ _ (rw fine at e))))
      ]
