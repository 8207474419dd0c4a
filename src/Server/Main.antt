-- ===== src/Server/Main.antt =====
-- cmd/server/main.go: main, from its settings to the end of the process. What the handlers do to the
-- database is the parameter `requests`.
pub mod Stopped
use svcmetrics.Base.{ℕ, String, Bool, Option, none, some, List, ◌∷◌, str_eq, if◌then◌else◌}
use svcmetrics.Base.Dict.{Dict}
use svcmetrics.Base.Word.{Int64}
use svcmetrics.Errors.{Err, Result, ok, err, text}
use svcmetrics.Model.{Metrics}
use svcmetrics.Retry.{Runtime}
use svcmetrics.Repository.Retriable.{PgErrCode}
use svcmetrics.Repository.Memory.{new_mem_storage}
use svcmetrics.Repository.Memory.Save.{File, Machine}
use svcmetrics.Repository.Postgres.Statements as Statements
use svcmetrics.Repository.Postgres.Open.{Handle, Driver, new_pg_storage, close_storage}
use svcmetrics.Audit.Receivers.{Net}
use svcmetrics.Server.Auditing.{Auditor, new_auditor, close_audit}
use svcmetrics.Server.Settings.{Settings, read_settings}
use svcmetrics.Server.Sync.{SyncStorage}
use svcmetrics.Server.Serving.{ServerEvent, in_memory, start_storage, handle_events, serve_file}
use svcmetrics.Server.Serving.Memory.{replay}

-- What the process holds open, and its storage in memory with the files.
pub record Process (F : Type 0) : Type 0 where
  pub audit_files : List String
  pub database : Handle F
  pub storage : SyncStorage F

-- log.Fatalf of main, log.Fatal of the goroutine that listens, or the return of main
pub data Exit (F : Type 0) : Type 0 where
  fatal : Err → Process F → Exit F
  not_listening : Err → Process F → Exit F
  stopped : Process F → Exit F

-- What main takes from elsewhere.
pub record Platform (S F : Type 0) : Type 0 where
  pub getenv : String → String
  pub atoi : String → Result Int64
  pub parse_bool : String → Result Bool
  pub net : Net S
  pub open_file : String → Option Err
  pub driver : Driver F
  pub pg_codes : PgErrCode
  pub database_runtime : Runtime (Statements.Server F)
  pub marshal : List (Metrics F) → Result String
  pub unmarshal : String → Result (List (Metrics F))
  pub temp_name : Dict File → String
  pub file_runtime : Runtime (Machine F)
  pub on_file_retry : Option (Err → ℕ → Int64 → Machine F → Machine F)

-- `listening` is the error by which srv.ListenAndServe ends behind the requests and the events, if it is
-- not closed by the shutdown; `drained` is whether the audit queues empty in time.
module _ {S F : Type 0} (pl : Platform S F) (requests : Statements.Server F → Statements.Server F)
    (events : List (ServerEvent F)) (listening : Option Err) (drained : Bool) where
  -- closeAudit()
  abbrev pub audit_closed : Auditor → Process F → Process F
  audit_closed a p = record p { audit_files = (close_audit drained a p.audit_files).1 }

  -- The end behind the requests: log.Fatal leaves the process as it is, with no deferred call and nothing
  -- that main does behind ctx.Done; a shutdown ends in `ended`.
  abbrev pub ends : Option Err → Process F → Process F → Exit F
  ends (some e) served ended = not_listening e served
  ends none served ended = stopped ended

  -- The case of a DSN, with its deferred Close.
  abbrev pub served_database : Auditor → Process F → Option Err × Handle F → Exit F
  served_database a p (some e, h) =
      fatal (text "Failed to initialize database storage" ∷ e) (record p { database = h })
  served_database a p (none, h) =
      let served : Handle F = record h { server = requests h.server } in
      ends listening (record p { database = served })
        (record (audit_closed a p) { database = close_storage served })

  -- The case of a file: the storage at the start, behind the events, and behind the last save.
  abbrev pub started_file : Settings → Process F → SyncStorage F
  started_file s p =
      start_storage pl.unmarshal s.file_storage_path pl.file_runtime pl.on_file_retry s.restore
        p.storage.machine

  abbrev pub unsaved_file : Settings → Process F → SyncStorage F
  unsaved_file s p =
      handle_events pl.marshal pl.temp_name s.file_storage_path pl.file_runtime pl.on_file_retry
        s.store_interval events (started_file s p)

  abbrev pub served_file : Settings → Process F → SyncStorage F
  served_file s p =
      serve_file pl.marshal pl.temp_name s.file_storage_path pl.file_runtime pl.on_file_retry
        s.store_interval events (started_file s p)

  unfoldable pub serve : Settings → Auditor → Process F → Exit F
  serve s a p =
      if str_eq s.database_dsn ""
      then (if str_eq s.file_storage_path ""
          then (let held = in_memory (replay events new_mem_storage) p.storage in
              ends listening (record p { storage = held })
                (record (audit_closed a p) { storage = held }))
          else ends listening (record p { storage = unsaved_file s p })
              (record (audit_closed a p) { storage = served_file s p }))
      else served_database a p
          (new_pg_storage pl.driver pl.pg_codes pl.database_runtime p.database.server)

  abbrev pub audited : Settings → Process F → Result Auditor × List String → Exit F
  audited s p (err e, files) =
      fatal (text "Failed to initialize audit" ∷ e) (record p { audit_files = files })
  audited s p (ok a, files) = serve s a (record p { audit_files = files })

  abbrev pub configured : Process F → Result Settings → Exit F
  configured p (err e) = fatal e p
  configured p (ok s) =
      audited s p (new_auditor pl.net pl.open_file s.audit_file s.audit_url p.audit_files)

  unfoldable pub main : Settings → Process F → Exit F
  main flags p = configured p (read_settings pl.getenv pl.atoi pl.parse_bool flags)
