-- ===== src/Repository/Retriable.antt =====
-- internal/repository/retriable.go: which failures of the database and of the snapshot file deserve
-- another attempt. An error is none where it is nil.
use svcmetrics.Base.{
  String, Bool, true, false, ◌||◌, Option, none, some, str_eq, if◌then◌else◌, ◌≡◌, ◌⊎◌, arith,
}
use svcmetrics.Errors.{
  Err, Link, has, find_link, is_canceled, is_deadline_exceeded, is_commit, is_net, pg_code,
  bad_conn, eof, unexpected_eof, errno, fs_not_exist, fs_permission, fs_invalid, path_error,
  link_error, econnrefused, econnreset, econnaborted, enospc, eisdir, enotdir, erofs, enoent,
  eacces, eperm,
}

-- What the package takes from github.com/jackc/pgerrcode.
pub record PgErrCode : Type 0 where
  pub is_connection_exception : String → Bool
  pub is_insufficient_resources : String → Bool
  pub serialization_failure : String
  pub deadlock_detected : String
  pub admin_shutdown : String
  pub crash_shutdown : String
  pub cannot_connect_now : String

-- The errors of the transport that errors.Is looks for.
abbrev is_broken_conn : Link → Bool
is_broken_conn bad_conn = true
is_broken_conn eof = true
is_broken_conn unexpected_eof = true
is_broken_conn (errno econnrefused) = true
is_broken_conn (errno econnreset) = true
is_broken_conn (errno econnaborted) = true
is_broken_conn _ = false

-- The permanent file errors. An errno matches the portable errors of io/fs that it stands for.
abbrev is_permanent : Link → Bool
is_permanent fs_not_exist = true
is_permanent fs_permission = true
is_permanent fs_invalid = true
is_permanent (errno enoent) = true
is_permanent (errno eacces) = true
is_permanent (errno eperm) = true
is_permanent (errno enospc) = true
is_permanent (errno eisdir) = true
is_permanent (errno enotdir) = true
is_permanent (errno erofs) = true
is_permanent _ = false

abbrev is_path_error : Link → Bool
is_path_error path_error = true
is_path_error _ = false

abbrev is_link_error : Link → Bool
is_link_error link_error = true
is_link_error _ = false

module _ (pc : PgErrCode) where
  unfoldable pub is_retriable_pg_code : String → Bool
  is_retriable_pg_code code =
      if pc.is_connection_exception code
      then true
      else if pc.is_insufficient_resources code
      then true
      else str_eq code pc.serialization_failure
        || str_eq code pc.deadlock_detected
        || str_eq code pc.admin_shutdown
        || str_eq code pc.crash_shutdown
        || str_eq code pc.cannot_connect_now

  unfoldable pub is_retriable_pg_error : Option Err → Bool
  is_retriable_pg_error none = false
  is_retriable_pg_error (some e) =
      if has is_canceled e || has is_deadline_exceeded e
      then false
      else if has is_commit e
      then false
      else elim (find_link pg_code e) [
        | some code ↦ is_retriable_pg_code code
        | none ↦ if has is_net e then true else has is_broken_conn e
      ]

  -- A commit of unknown outcome and a call whose context is over are never repeated, whatever else
  -- the chain of the error says.
  pub is_retriable_pg_error-never :
      (e : Err)
      → (has is_commit e ≡ true)
        ⊎ ((has is_canceled e ≡ true) ⊎ (has is_deadline_exceeded e ≡ true))
      → is_retriable_pg_error (some e) ≡ false
  unfolding is_retriable_pg_error
  is_retriable_pg_error-never e h = ground arith

unfoldable pub is_retriable_file_error : Option Err → Bool
is_retriable_file_error none = false
is_retriable_file_error (some e) =
    if has is_permanent e then false else has is_path_error e || has is_link_error e
