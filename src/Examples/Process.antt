-- ===== src/Examples/Process.antt =====
-- The process of the server at a concrete input: a file by the environment, a broken interval or none.
use svcmetrics.Base.{ℕ, refl, true, false, none, [], str_eq, if◌then◌else◌}
use svcmetrics.Errors.{err}
use svcmetrics.Repository.Postgres.Statements as Statements
use svcmetrics.Server.Settings.{Settings, default_settings, read_settings}
use svcmetrics.Server.Main.{Process, Platform, main}
use svcmetrics.Server.Main.Stopped.{IsStopped, main-IsStopped}
use svcmetrics.Repository.Memory.Save.{Machine}
use svcmetrics.Examples.Quiet.{quiet}
use svcmetrics.Examples.Database.{codes}
use svcmetrics.Examples.Receivers.{net}
use svcmetrics.Examples.Restarts.{One, marshal, unmarshal, temp_name, machine, events}

abbrev platform : Platform ℕ One
platform = record {
  getenv = λ name. if str_eq name "FILE_STORAGE_PATH" then "metrics.json" else "";
  atoi = λ s. err [];
  parse_bool = λ s. err [];
  net = net;
  open_file = λ path. none;
  driver = record { open_error = none; dialect_error = none; up = λ s. (none, s) };
  pg_codes = codes;
  database_runtime = quiet (Statements.Server One);
  marshal = marshal;
  unmarshal = unmarshal;
  temp_name = temp_name;
  file_runtime = quiet (Machine One);
  on_file_retry = none;
}

abbrev process : Process One
process = record {
  audit_files = [];
  database = record {
    is_open = false;
    server = record { table = record { gauges = []; counters = [] }; answers = [] };
  };
  storage = record { machine = machine; log = [] };
}

abbrev flags : Settings
flags = record default_settings { audit_file = "audit.log" }

main-IsStopped_example :
    IsStopped platform none true
      (record flags { file_storage_path = "metrics.json" })
      process
      (main platform (λ s. s) events none true flags process)
unfolding read_settings
main-IsStopped_example =
    main-IsStopped platform (λ s. s) events none true
      (record flags { file_storage_path = "metrics.json" }) process refl flags refl
