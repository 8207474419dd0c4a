-- ===== src/Examples/Commands.antt =====
-- The agent's command at a concrete input: a negative interval, and a limit that is no number.
use svcmetrics.Base.{ℕ, String, str_eq, if◌then◌else◌, [], ◌-◌, ◌^◌}
use svcmetrics.Base.Word.{Int64}
use svcmetrics.Errors.{Result, ok, err}
use svcmetrics.Agent.Settings.{
  default_settings, read_settings, configured_agent, IsUsable, configured_agent-IsUsable,
}

abbrev getenv : String → String
getenv name =
    if str_eq name "REPORT_INTERVAL" then "-5" else if str_eq name "RATE_LIMIT" then "many" else ""

abbrev atoi : String → Result Int64
atoi s = if str_eq s "-5" then ok (2 ^ 64 - 5) else err []

configured_agent-IsUsable_example :
    IsUsable {F = ℕ}
      (λ s cut. s)
      (configured_agent (λ s cut. s) (read_settings getenv atoi default_settings))
configured_agent-IsUsable_example =
    configured_agent-IsUsable getenv atoi (λ s cut. s) default_settings
