-- ===== src/Repository/Postgres/Open.antt =====
-- internal/repository/postgres.go and migrations/migrations.go: opening, pinging and closing the database.
use svcmetrics.Base.{ℕ, ◌≡◌, refl, Bool, true, false, Option, none, some, ◌∷◌, is_some, not}
use svcmetrics.Base.Word.{Int64}
use svcmetrics.Errors.{Err, text}
use svcmetrics.Retry.{Runtime, Operation, do_op}
use svcmetrics.Repository.Retriable.{PgErrCode}
use svcmetrics.Repository.Postgres.Statements.{Server, call}
use svcmetrics.Repository.Postgres.{pg_config}

-- The handle of the database, and the server behind it.
pub record Handle (F : Type 0) : Type 0 where
  pub is_open : Bool
  pub server : Server F

-- sql.Open, goose.SetDialect and goose.UpContext.
pub record Driver (F : Type 0) : Type 0 where
  pub open_error : Option Err
  pub dialect_error : Option Err
  pub up : Server F → Option Err × Server F

module _ {F : Type 0} (driver : Driver F) (pc : PgErrCode) (rt : Runtime (Server F)) where
  abbrev ping_operation : Operation (Server F) (Unit {0})
  ping_operation s = let (e, s') = call s in (tt, e, s')

  -- PingContext
  unfoldable pub ping_context :
      Option (Err → ℕ → Int64 → Server F → Server F) → Server F → Option Err × Server F
  ping_context on_retry s =
      let (_, e, s') = do_op rt (pg_config pc rt on_retry) ping_operation s in (e, s')

  abbrev applied_up : Option Err × Server F → Option Err × Server F
  applied_up (none, s) = (none, s)
  applied_up (some e, s) = (some (text "apply migrations" ∷ e), s)

  abbrev with_dialect : Option Err → Server F → Option Err × Server F
  with_dialect (some e) s = (some (text "set goose dialect" ∷ e), s)
  with_dialect none s = applied_up (driver.up s)

  -- migrations.Up
  unfoldable pub migrate : Server F → Option Err × Server F
  migrate s = with_dialect driver.dialect_error s

  abbrev migrate_operation : Operation (Server F) (Unit {0})
  migrate_operation s = let (e, s') = migrate s in (tt, e, s')

  abbrev migrated : (Unit {0}) × Option Err × Server F → Option Err × Handle F
  migrated (_, none, s) = (none, record { is_open = true; server = s })
  migrated (_, some e, s) = (some e, record { is_open = false; server = s })

  abbrev pinged : Option Err × Server F → Option Err × Handle F
  pinged (some e, s) = (some (text "ping database" ∷ e), record { is_open = false; server = s })
  pinged (none, s) = migrated (do_op rt (pg_config pc rt none) migrate_operation s)

  abbrev opened : Option Err → Server F → Option Err × Handle F
  opened (some e) s = (some (text "open database" ∷ e), record { is_open = false; server = s })
  opened none s = pinged (ping_context none s)

  -- NewPgStorage; no retry of it is observed.
  unfoldable pub new_pg_storage : Server F → Option Err × Handle F
  new_pg_storage s = opened driver.open_error s

  migrated-is_open :
      (r : (Unit {0}) × Option Err × Server F)
      → (migrated r).1.is_open ≡ not (is_some (migrated r).0)
  migrated-is_open (_, none, s) = refl
  migrated-is_open (_, some e, s) = refl

  pinged-is_open : (r : Option Err × Server F) → (pinged r).1.is_open ≡ not (is_some (pinged r).0)
  pinged-is_open (some e, s) = refl
  pinged-is_open (none, s) = migrated-is_open _

  opened-is_open :
      (o : Option Err) (s : Server F) → (opened o s).1.is_open ≡ not (is_some (opened o s).0)
  opened-is_open (some e) s = refl
  opened-is_open none s = pinged-is_open _

  -- NewPgStorage leaves the database open exactly when it has no error.
  pub new_pg_storage-is_open :
      (s : Server F) → (new_pg_storage s).1.is_open ≡ not (is_some (new_pg_storage s).0)
  unfolding new_pg_storage
  new_pg_storage-is_open s = opened-is_open driver.open_error s

-- Close
unfoldable pub close_storage : {F : Type 0} → Handle F → Handle F
close_storage h = record h { is_open = false }
