-- ===== src/Errors.antt =====
-- Go's errors as chains: an error value is a link, and `fmt.Errorf` with %w, a struct with an
-- `Unwrap` method and the wrappers of the standard library put one more link before a chain.
-- `errors.Is` and `errors.As` look for a link of the chain.
use svcmetrics.Base.{
  ℕ, String, Bool, true, false, ◌||◌, Option, none, some, List, [], ◌∷◌, ◌≡◌, refl,
}

pub data Errno : Type 0 where
  econnrefused econnreset econnaborted : Errno
  enospc eisdir enotdir erofs enoent eacces eperm : Errno
  other_errno : ℕ → Errno

pub data Link : Type 0 where
  -- internal/model: ErrNotFound and ErrInvalidMetric
  not_found invalid_metric : Link
  -- package context
  canceled deadline_exceeded : Link
  -- packages io, io/fs, database/sql
  eof unexpected_eof fs_not_exist fs_permission fs_invalid no_rows bad_conn : Link
  errno : Errno → Link
  -- *fs.PathError and *os.LinkError
  path_error link_error : Link
  -- *pgconn.PgError, with its SQLSTATE
  pg : String → Link
  -- a net.Error that is none of the others, such as *url.Error
  net : Link
  -- *commitError of internal/repository/postgres.go
  commit : Link
  -- *statusError of internal/agent/retriable.go, with its code
  status : ℕ → Link
  -- internal/audit: ErrQueueFull
  queue_full : Link
  -- a text, of fmt.Errorf or errors.New
  text : String → Link

abbrev pub Err : Type 0
Err = List Link

-- Whether a link of the chain passes a test: errors.Is and errors.As.
unfoldable pub has : (Link → Bool) → Err → Bool
has p [] = false
has p (l ∷ e) = p l || has p e

-- errors.As, which also hands the first link found over.
unfoldable pub find_link {ℓ} : {A : Type ℓ} → (Link → Option A) → Err → Option A
find_link p [] = none
find_link p (l ∷ e) = elim (p l) [ some a ↦ some a | none ↦ find_link p e ]

abbrev pub is_not_found : Link → Bool
is_not_found not_found = true
is_not_found _ = false

abbrev pub is_invalid_metric : Link → Bool
is_invalid_metric invalid_metric = true
is_invalid_metric _ = false

abbrev pub is_canceled : Link → Bool
is_canceled canceled = true
is_canceled _ = false

abbrev pub is_deadline_exceeded : Link → Bool
is_deadline_exceeded deadline_exceeded = true
is_deadline_exceeded _ = false

abbrev pub is_commit : Link → Bool
is_commit commit = true
is_commit _ = false

-- What the method sets of the types make a net.Error: *url.Error and the like, syscall.Errno and
-- the error of an expired context.
abbrev pub is_net : Link → Bool
is_net net = true
is_net (errno _) = true
is_net deadline_exceeded = true
is_net _ = false

abbrev pub pg_code : Link → Option String
pg_code (pg code) = some code
pg_code _ = none

abbrev pub status_code : Link → Option ℕ
status_code (status code) = some code
status_code _ = none

-- A pair of a result and a Go error, of which one is meant.
pub data Result {ℓ} (A : Type ℓ) : Type ℓ where
  ok : A → Result A
  err : Err → Result A

-- The result of an operation applied to a success.
abbrev pub map_ok {ℓ κ} : {A : Type ℓ} {B : Type κ} → (A → B) → Result A → Result B
map_ok f (ok a) = ok (f a)
map_ok f (err e) = err e

pub ok_injective {ℓ} : {A : Type ℓ} {a b : A} → ok a ≡ ok b → a ≡ b
ok_injective h = cc

pub map_ok_inv {ℓ κ} :
    {A : Type ℓ} {B : Type κ} (f : A → B) (r : Result A) {b : B}
    → map_ok f r ≡ ok b
    → (a : A) × (r ≡ ok a) × (f a ≡ b)
map_ok_inv f (ok a) h = (a, refl, ok_injective h)
map_ok_inv f (err e) h = cc
