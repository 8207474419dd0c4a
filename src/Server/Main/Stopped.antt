-- ===== src/Server/Main/Stopped.antt =====
-- cmd/server/main.go: what main has touched and released when the process ends.
use svcmetrics.Base.{
  ◌≡◌, refl, sym, ap, String, Bool, true, false, not, Option, none, some, List, str_eq, Bool-cases,
  inl, inr, is_some, if◌then◌else◌,
}
use mathlib.Core.Path.{subst}
use svcmetrics.Errors.{Err, Result, ok, err, ok_injective}
use svcmetrics.Repository.Postgres.Statements as Statements
use svcmetrics.Repository.Postgres.Open.{Handle, new_pg_storage-is_open, close_storage}
use svcmetrics.Server.Auditing.{Auditor, close_audit}
use svcmetrics.Server.Auditing.Opened.{HasFile, IsOpened, new_auditor-IsOpened}
use svcmetrics.Server.Settings.{Settings, read_settings}
use svcmetrics.Server.Serving.{ServerEvent}
use svcmetrics.Server.Main.{
  Process, Exit, fatal, not_listening, stopped, Platform, ends, served_database, serve, audited,
  configured, main,
}

-- The storage that the settings do not choose is as before: with a DSN that is the one in memory, without one
-- the database, and without a DSN and a path the files.
abbrev pub LeavesOthers : {F : Type 0} → Settings → Process F → Process F → Type 0
LeavesOthers s p q =
    (q.database ≡ (if str_eq s.database_dsn "" then p.database else q.database))
    × (q.storage ≡ (if str_eq s.database_dsn "" then q.storage else p.storage))
    × (q.storage.machine.files ≡ (
        if str_eq s.file_storage_path "" then p.storage.machine.files else q.storage.machine.files))

module _ {S F : Type 0} (pl : Platform S F) (listening : Option Err) (drained : Bool) (s : Settings)
    (p : Process F) where
  -- The end of a process that had the settings `s`, by its kind.
  abbrev pub IsStopped : Exit F → Type 0
  IsStopped (fatal e q) =
      (q.database.is_open ≡ false)
      × (q.storage ≡ p.storage)
      × (q.database ≡ (if str_eq s.database_dsn "" then p.database else q.database))
  IsStopped (not_listening e q) =
      (listening ≡ some e)
      × (q.database.is_open ≡ not (str_eq s.database_dsn ""))
      × ((names : List String) × HasFile pl.net pl.open_file s.audit_file p.audit_files names
            q.audit_files)
      × LeavesOthers s p q
  IsStopped (stopped q) =
      (listening ≡ none)
      × (q.database.is_open ≡ false)
      × (q.audit_files ≡ (if drained then p.audit_files else q.audit_files))
      × LeavesOthers s p q

if_same : {A : Type 0} (b : Bool) (x : A) → x ≡ (if b then x else x)
if_same true x = refl
if_same false x = refl

module _ {S F : Type 0} (pl : Platform S F) (requests : Statements.Server F → Statements.Server F)
    (events : List (ServerEvent F)) (listening : Option Err) (drained : Bool) (s : Settings)
    (p : Process F) where
  -- A shutdown or a failure of the listener, from what holds of each.
  ends-IsStopped :
      (o : Option Err) (served ended : Process F)
      → ((e : Err) → o ≡ some e → IsStopped pl o drained s p (not_listening e served))
      → (o ≡ none → IsStopped pl o drained s p (stopped ended))
      → IsStopped pl o drained s p (ends pl requests events listening drained o served ended)
  ends-IsStopped none served ended h k = k refl
  ends-IsStopped (some e) served ended h k = h e refl

  module _ (shut : p.database.is_open ≡ false) (a : Auditor) (files names : List String)
      (has_file : HasFile pl.net pl.open_file s.audit_file p.audit_files names files)
      (closes : (close_audit true a files).1 ≡ p.audit_files) where
    audit_closed-files :
        (close_audit drained a files).1
        ≡ (if drained then p.audit_files else (close_audit drained a files).1)
    audit_closed-files = elim (Bool-cases drained) [ inl d ↦ rw d closes | inr d ↦ rw d refl ]

    served_database-IsStopped :
        (out : Option Err × Handle F)
        → str_eq s.database_dsn "" ≡ false
        → out.1.is_open ≡ not (is_some out.0)
        → IsStopped pl listening drained s p (
            served_database pl requests events listening drained a
              (record p { audit_files = files })
              out)
    unfolding close_storage
    served_database-IsStopped (some e, h) dsn opened = (opened, refl, rw dsn refl)
    served_database-IsStopped (none, h) dsn opened =
        ends-IsStopped listening _ _
          (λ e l. (l, rw dsn opened, (names, has_file), (rw dsn refl, rw dsn refl, if_same _ _)))
          (λ l. (l, refl, audit_closed-files, (rw dsn refl, rw dsn refl, if_same _ _)))

    serve-IsStopped :
        IsStopped pl listening drained s p
          (serve pl requests events listening drained s a (record p { audit_files = files }))
    unfolding serve
    serve-IsStopped = elim (Bool-cases (str_eq s.database_dsn "")) [
      | inl none_given ↦ elim (Bool-cases (str_eq s.file_storage_path "")) [
        | inl no_path ↦
            rw (none_given, no_path)
              (ends-IsStopped listening _ _
                (λ e l. (
                  l,
                  rw none_given shut,
                  (names, has_file),
                  (rw none_given refl, rw none_given refl, if_same _ _),
                ))
                (λ l. (
                  l,
                  shut,
                  audit_closed-files,
                  (rw none_given refl, rw none_given refl, if_same _ _),
                )))
        | inr path ↦
            rw (none_given, path)
              (ends-IsStopped listening _ _
                (λ e l. (
                  l,
                  rw none_given shut,
                  (names, has_file),
                  (rw none_given refl, rw none_given refl, rw path refl),
                ))
                (λ l. (
                  l,
                  shut,
                  audit_closed-files,
                  (rw none_given refl, rw none_given refl, rw path refl),
                )))
      ]
      | inr given ↦ rw given (
          served_database-IsStopped _ given
            (new_pg_storage-is_open pl.driver pl.pg_codes pl.database_runtime p.database.server))
    ]

  module _ (shut : p.database.is_open ≡ false) where
    audited-IsStopped :
        (out : Result Auditor × List String)
        → IsOpened pl.net pl.open_file s.audit_file s.audit_url p.audit_files out
        → IsStopped pl listening drained s p (audited pl requests events listening drained s p out)
    audited-IsStopped (err e, files) h = (shut, refl, if_same _ _)
    audited-IsStopped (ok a, files) (inl (e, h, _)) = let clash = ap (λ o. o.0) h in absurd (cc)
    audited-IsStopped (ok a, files) (inr (x, names, _, same, found, _, _, _, closes)) =
        serve-IsStopped shut a files names found (
          subst (λ y. (close_audit true y files).1 ≡ p.audit_files) (sym (ok_injective same))
            closes)

    configured-IsStopped :
        (r : Result Settings)
        → r ≡ ok s
        → IsStopped pl listening drained s p (configured pl requests events listening drained p r)
    configured-IsStopped r h = rw h (
        audited-IsStopped _
          (new_auditor-IsOpened pl.net pl.open_file s.audit_file s.audit_url p.audit_files))

    -- Where no database is open at the start and the settings that the flags and the environment make are
    -- `s`. With a DSN the storage in memory and its files end as before, without one the database does, and
    -- without a DSN and a path the files do. main returns only where the listener ended by the shutdown, and
    -- then no database is open and, if the audit queues emptied in time, no more audit files than before. A
    -- fatal error before it serves leaves no database open and the storage in memory as before. Where the
    -- listener fails, the process ends by that error with the database open, if there is a DSN, and the
    -- audit file too, if one was given.
    pub main-IsStopped :
        (flags : Settings)
        → read_settings pl.getenv pl.atoi pl.parse_bool flags ≡ ok s
        → IsStopped pl listening drained s p (main pl requests events listening drained flags p)
    unfolding main
    main-IsStopped flags h = configured-IsStopped _ h
