-- ===== src/Agent/Settings.antt =====
-- cmd/agent/main.go: the settings, from the flags and the environment, and the agent that main runs.
use text.Mathlib.Text.{starts_with}
use text.Mathlib.TextPositions.{starts_with-append}
use svcmetrics.Base.{
  ◌≡◌, refl, String, true, false, not, ◌&&◌, ◌||◌, str_eq, str_append, if◌then◌else◌, Bool-cases,
  inl, inr,
}
use svcmetrics.Base.Word.{Int64, mul64, not_positive}
use svcmetrics.Errors.{Result}
use svcmetrics.Environment.{overridden, kept_override}
use svcmetrics.Retry.{second}
use svcmetrics.Agent.{
  Agent, new_agent, default_batch_size, default_rate_limit, default_server_address,
  default_poll_interval, default_report_interval,
}

pub record Settings : Type 0 where
  pub address : String
  pub report_interval : Int64
  pub poll_interval : Int64
  pub batch_size : Int64
  pub rate_limit : Int64
  pub key : String

-- What the flags are where none is given.
abbrev pub default_settings : Settings
default_settings = record {
  address = "localhost:8080";
  report_interval = 10;
  poll_interval = 2;
  batch_size = default_batch_size;
  rate_limit = default_rate_limit;
  key = "";
}

-- `getenv` is os.Getenv, `atoi` strconv.Atoi.
unfoldable pub read_settings : (String → String) → (String → Result Int64) → Settings → Settings
read_settings getenv atoi flags = record {
  address = overridden (getenv "ADDRESS") flags.address;
  report_interval = kept_override atoi (getenv "REPORT_INTERVAL") flags.report_interval;
  poll_interval = kept_override atoi (getenv "POLL_INTERVAL") flags.poll_interval;
  batch_size = kept_override atoi (getenv "BATCH_SIZE") flags.batch_size;
  rate_limit = kept_override atoi (getenv "RATE_LIMIT") flags.rate_limit;
  key = overridden (getenv "KEY") flags.key;
}

unfoldable pub endpoint : String → String
endpoint address =
    if not (starts_with address "http://") && not (starts_with address "https://")
    then str_append "http://" address
    else address

-- The agent of main. An interval in seconds becomes a time.Duration, which wraps around.
unfoldable pub configured_agent : {F : Type 0} → (String → String → String) → Settings → Agent F
configured_agent trim_right s =
    new_agent trim_right (endpoint s.address) (mul64 s.poll_interval second)
      (mul64 s.report_interval second) s.batch_size s.key s.rate_limit

abbrev pub HasScheme : String → Type 0
HasScheme url = (starts_with url "http://" || starts_with url "https://") ≡ true

endpoint-HasScheme : (address : String) → HasScheme (endpoint address)
unfolding endpoint
endpoint-HasScheme address = elim (Bool-cases (starts_with address "http://")) [
  | inl http ↦ rw (http, http) refl
  | inr other ↦ elim (Bool-cases (starts_with address "https://")) [
    | inl https ↦ rw (other, https, other, https) refl
    | inr none ↦ rw (other, none, starts_with-append "http://" address) refl
  ]
]

-- What New makes of any settings: nothing that a ticker or a limit panics on, and the batch endpoint of
-- a URL with a scheme.
pub record IsUsable {F : Type 0} (trim_right : String → String → String) (a : Agent F)
    : Type 0 where
  pub poll : not_positive a.poll_interval ≡ false
  pub report : not_positive a.report_interval ≡ false
  pub batch : not_positive a.batch_size ≡ false
  pub rate : not_positive a.rate_limit ≡ false
  pub url :
      (server : String) × HasScheme server
      × (a.updates_url ≡ str_append (trim_right server "/") "/updates/")

defaulted :
    (n default : Int64)
    → not_positive default ≡ false
    → not_positive (if not_positive n then default else n) ≡ false
defaulted n default h = elim (Bool-cases (not_positive n)) [ inl e ↦ rw e h | inr e ↦ rw e e ]

-- Whatever the flags, the environment and the numbers in it are, the agent that main runs has a
-- positive poll interval, report interval, batch size and rate limit, also where the seconds of an
-- interval do not fit into a time.Duration, and posts to the batch endpoint of a URL that begins with
-- http:// or https://.
pub configured_agent-IsUsable :
    {F : Type 0} (getenv : String → String) (atoi : String → Result Int64)
    (trim_right : String → String → String) (flags : Settings)
    → IsUsable {F = F} trim_right (configured_agent trim_right (read_settings getenv atoi flags))
unfolding configured_agent new_agent
configured_agent-IsUsable getenv atoi trim_right flags =
    let s = read_settings getenv atoi flags in
    record {
      poll = defaulted _ default_poll_interval (unfold not_positive in refl);
      report = defaulted _ default_report_interval (unfold not_positive in refl);
      batch = defaulted _ default_batch_size (unfold not_positive in refl);
      rate = defaulted _ default_rate_limit (unfold not_positive in refl);
      url = elim (Bool-cases (str_eq (endpoint s.address) "")) [
        | inl empty ↦ rw empty (default_server_address, refl, refl)
        | inr given ↦ rw given (endpoint s.address, endpoint-HasScheme s.address, refl)
      ];
    }
