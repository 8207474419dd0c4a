-- ===== src/Server/Settings.antt =====
-- cmd/server/main.go: the settings, from the flags and the environment.
use svcmetrics.Base.{String, Bool, false}
use svcmetrics.Base.Word.{Int64}
use svcmetrics.Errors.{Result, ok, err}
use svcmetrics.Environment.{overridden, parsed_override}

pub record Settings : Type 0 where
  pub address : String
  pub store_interval : Int64
  pub file_storage_path : String
  pub restore : Bool
  pub database_dsn : String
  pub key : String
  pub audit_file : String
  pub audit_url : String

-- What the flags are where none is given.
abbrev pub default_settings : Settings
default_settings = record {
  address = "localhost:8080";
  store_interval = 300;
  file_storage_path = "";
  restore = false;
  database_dsn = "";
  key = "";
  audit_file = "";
  audit_url = "";
}

infixl 5 ◌>>=◌
abbrev ◌>>=◌ : {A B : Type 0} → Result A → (A → Result B) → Result B
ok a >>= f = f a
err e >>= f = err e

-- os.Getenv, strconv.Atoi and strconv.ParseBool; an error is that of log.Fatalf.
module _ (getenv : String → String) (atoi : String → Result Int64)
    (parse_bool : String → Result Bool) where
  unfoldable pub read_settings : Settings → Result Settings
  read_settings flags = do
    interval ←
        parsed_override "Invalid STORE_INTERVAL value" atoi (getenv "STORE_INTERVAL")
          flags.store_interval
    restored ← parsed_override "Invalid RESTORE value" parse_bool (getenv "RESTORE") flags.restore
    ok (record {
      address = overridden (getenv "ADDRESS") flags.address;
      store_interval = interval;
      file_storage_path = overridden (getenv "FILE_STORAGE_PATH") flags.file_storage_path;
      restore = restored;
      database_dsn = overridden (getenv "DATABASE_DSN") flags.database_dsn;
      key = overridden (getenv "KEY") flags.key;
      audit_file = overridden (getenv "AUDIT_FILE") flags.audit_file;
      audit_url = overridden (getenv "AUDIT_URL") flags.audit_url;
    })
