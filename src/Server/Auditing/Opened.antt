-- ===== src/Server/Auditing/Opened.antt =====
-- The receivers that newAuditor sets up, and the files that it leaves open.
use mathlib.Core.List.{◌++◌ as ◌++ₗ◌}
use text.Mathlib.TextPositions.{eq_refl}
use svcmetrics.Base.{
  ◌≡◌, ◌≢◌, refl, arith, eq_iff, String, Bool, true, false, Option, none, some, List, [], ◌∷◌, ◌⊎◌,
  inl, inr, str_eq, Bool-cases, map, is_some,
}
use svcmetrics.Errors.{Err, Result, ok, err}
use svcmetrics.Audit.{Publisher, Worker, new_publisher, register}
use svcmetrics.Audit.Receivers.{
  Net, HttpObserver, new_http_observer, file_observer_name, http_observer_name,
}
use svcmetrics.Server.Auditing.{
  Auditor, close_file, register_all, file_receiver, http_receiver, checked_receiver, with_file,
  opened_file, new_auditor, close_audit,
}

-- The names of the receivers of an auditor.
abbrev pub receivers : Option Publisher → List String
receivers none = []
receivers (some p) = map (λ (w : Worker). w.name) p.workers

abbrev pub has_names : List String → Bool
has_names [] = false
has_names (_ ∷ _) = true

close_file-head : (path : String) (files : List String) → close_file path (path ∷ files) ≡ files
unfolding close_file
close_file-head path files = rw eq_refl refl

module _ {S : Type 0} (net : Net S) (open_file : String → Option Err) where
  -- The file for a path: its name, where there is one, and the files behind it.
  abbrev pub HasFile : String → List String → List String → List String → Type 0
  HasFile path files names opened =
      ((path ≡ "") × (names ≡ []) × (opened ≡ files))
      ⊎ ((path ≢ "")
          × (open_file path ≡ none)
          × (names ≡ file_observer_name path ∷ [])
          × (opened ≡ path ∷ files))

  -- The server for a URL.
  abbrev pub HasServer : String → List String → Type 0
  HasServer raw names =
      ((raw ≡ "") × (names ≡ []))
      ⊎ ((o : HttpObserver) × (raw ≢ "")
          × (new_http_observer net raw ≡ some o)
          × (names ≡ http_observer_name o ∷ []))

  -- An error with its cause and the files as before; or an auditor over the receivers, the files that are
  -- open then, and what its function restores.
  abbrev pub IsOpened : String → String → List String → Result Auditor × List String → Type 0
  IsOpened path raw files out =
      ((e : Err) × (out ≡ (err e, files))
        × (((x : Err) × (path ≢ "") × (open_file path ≡ some x))
            ⊎ ((raw ≢ "") × (new_http_observer net raw ≡ none))))
      ⊎ ((a : Auditor) × (names : List String) × (more : List String) × (out.0 ≡ ok a)
          × HasFile path files names out.1
          × HasServer raw more
          × (receivers a.publisher ≡ names ++ₗ more)
          × (is_some a.publisher ≡ has_names (names ++ₗ more))
          × ((close_audit true a out.1).1 ≡ files))

  -- What NewFileObserver and NewHTTPObserver answer for a path and a URL.
  data FileFound (path : String) (files : List String)
      : Result (Option String) × List String → Type 0 where
    no_path : path ≡ "" → FileFound path files (ok none, files)
    unopened :
        (x : Err) (e : Err)
        → path ≢ ""
        → open_file path ≡ some x
        → FileFound path files (err e, files)
    opened : path ≢ "" → open_file path ≡ none → FileFound path files (ok (some path), path ∷ files)

  data ServerFound (raw : String) : Result (Option HttpObserver) → Type 0 where
    no_url : raw ≡ "" → ServerFound raw (ok none)
    rejected : (e : Err) → raw ≢ "" → new_http_observer net raw ≡ none → ServerFound raw (err e)
    accepted :
        (o : HttpObserver)
        → raw ≢ ""
        → new_http_observer net raw ≡ some o
        → ServerFound raw (ok (some o))

  opened_file-FileFound :
      (path : String) (files : List String) (o : Option Err)
      → path ≢ ""
      → open_file path ≡ o
      → FileFound path files (opened_file net open_file path o files)
  opened_file-FileFound path files (some x) given e = unopened x _ given e
  opened_file-FileFound path files none given e = opened given e

  file_receiver-FileFound :
      (path : String) (files : List String)
      → FileFound path files (file_receiver net open_file path files)
  unfolding file_receiver
  file_receiver-FileFound path files = elim (Bool-cases (str_eq path "")) [
    | inl e ↦ rw e (no_path ((eq_iff path "").0 e))
    | inr e ↦
        let given : path ≢ "" = ground (arith, eq_iff path "") in
        rw e (opened_file-FileFound path files (open_file path) given refl)
  ]

  checked_receiver-ServerFound :
      (raw : String) (o : Option HttpObserver)
      → raw ≢ ""
      → new_http_observer net raw ≡ o
      → ServerFound raw (checked_receiver net open_file o)
  checked_receiver-ServerFound raw none given e = rejected _ given e
  checked_receiver-ServerFound raw (some o) given e = accepted o given e

  http_receiver-ServerFound : (raw : String) → ServerFound raw (http_receiver net open_file raw)
  unfolding http_receiver
  http_receiver-ServerFound raw = elim (Bool-cases (str_eq raw "")) [
    | inl e ↦ rw e (no_url ((eq_iff raw "").0 e))
    | inr e ↦
        let given : raw ≢ "" = ground (arith, eq_iff raw "") in
        rw e (checked_receiver-ServerFound raw (new_http_observer net raw) given refl)
  ]

  with_file-IsOpened :
      (path raw : String) (files : List String) {file : Result (Option String) × List String}
      {http : Result (Option HttpObserver)}
      → FileFound path files file
      → ServerFound raw http
      → IsOpened path raw files (with_file net open_file http file)
  unfolding close_audit register_all new_publisher register
  with_file-IsOpened path raw files (unopened x e given h) s = inl (e, refl, inl (x, given, h))
  with_file-IsOpened path raw files (no_path n) (rejected e given h) = inl (e, refl, inr (given, h))
  with_file-IsOpened path raw files (opened p q) (rejected e given h) =
      rw close_file-head (inl (e, refl, inr (given, h)))
  with_file-IsOpened path raw files (no_path n) (no_url m) =
      inr (_, [], [], refl, inl (n, refl, refl), inl (m, refl), refl, refl, refl)
  with_file-IsOpened path raw files (no_path n) (accepted o given h) = inr (
    _,
    [],
    http_observer_name o ∷ [],
    refl,
    inl (n, refl, refl),
    inr (o, given, h, refl),
    refl,
    refl,
    refl,
  )
  with_file-IsOpened path raw files (opened p q) (no_url m) = inr (
    _,
    file_observer_name path ∷ [],
    [],
    refl,
    inr (p, q, refl, refl),
    inl (m, refl),
    refl,
    refl,
    close_file-head path files,
  )
  with_file-IsOpened path raw files (opened p q) (accepted o given h) = inr (
    _,
    file_observer_name path ∷ [],
    http_observer_name o ∷ [],
    refl,
    inr (p, q, refl, refl),
    inr (o, given, h, refl),
    refl,
    refl,
    close_file-head path files,
  )

  -- newAuditor fails, with the open files as before, only if a path was given that cannot be opened or a
  -- URL that is rejected. Otherwise it returns an auditor whose receivers are the file at the path, if one
  -- was given, which is open then, and behind it the server at the URL, if one was given, and which is nil
  -- exactly when neither was; what closeAudit does behind a drain in time leaves the files that were open
  -- before.
  pub new_auditor-IsOpened :
      (path raw : String) (files : List String)
      → IsOpened path raw files (new_auditor net open_file path raw files)
  unfolding new_auditor
  new_auditor-IsOpened path raw files =
      with_file-IsOpened path raw files (file_receiver-FileFound path files)
        (http_receiver-ServerFound raw)
