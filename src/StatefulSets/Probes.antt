-- ===== src/StatefulSets/Probes.antt =====
-- The probes of pkg/resources/statefulsets/statefulset.go. The source writes an empty ProbeSpec into
-- a server that has none; nothing reads it after that.
pub mod Actions
use Prim.Native.String.{◌++◌ as append}
use wildfly_operator.Prelude.{Bool, Option, none, some, List, [], ◌∷◌, String, if◌then◌else◌}
use wildfly_operator.Prelude.Int.{ℤ, pos, eqb_ℤ}
use wildfly_operator.Kube.{ProbeAction, Probe, HttpGetAction}
use wildfly_operator.Api.{ProbeSpec, WildFlyServer}
use wildfly_operator.World.{Env}
use wildfly_operator.Util.Numbers.{format_int}
use wildfly_operator.Resources.Markers.{http_management_port}

abbrev pub no_probe_spec : ProbeSpec
no_probe_spec = record {
  handler = record { exec = none; http_get = none };
  initial_delay_seconds = none;
  timeout_seconds = pos 0;
  period_seconds = pos 0;
  success_threshold = pos 0;
  failure_threshold = pos 0;
}

abbrev pub spec_or_empty : Option ProbeSpec → ProbeSpec
spec_or_empty none = no_probe_spec
spec_or_empty (some s) = s

abbrev delay_or : ℤ → Option ℤ → ℤ
delay_or n none = n
delay_or n (some d) = d

-- A field that is 0 is one that is not set.
abbrev set_or : ℤ → ℤ → ℤ
set_or n v = if eqb_ℤ v (pos 0) then n else v

-- The script's command, with its fallback.
abbrev curl_command : String → String
curl_command end_point =
    append "curl --fail http://127.0.0.1:" (append (format_int http_management_port) end_point)

abbrev fallback_or : String → Option String → String
fallback_or end_point none = curl_command end_point
fallback_or end_point (some s) = s

abbrev script_command : String → String → String
script_command script fallback = append "if [ -f '" (
    append script (append "' ]; then " (append script (append "; else " (append fallback "; fi")))))

abbrev exec_action : List String → ProbeAction
exec_action command = record { exec = some command; http_get = none }

abbrev http_action : HttpGetAction → ProbeAction
http_action a = record { exec = none; http_get = some a }

abbrev endpoint_action : String → ProbeAction
endpoint_action end_point =
    http_action
      (record { path = end_point; port = "admin"; host = ""; scheme = ""; http_headers = [] })

-- The action where the user has configured none.
abbrev default_action : Env → Bool → Option String → String → String → ProbeAction
default_action env bootable none end_point fallback = endpoint_action end_point
default_action env bootable (some script) end_point fallback =
    if bootable
    then endpoint_action end_point
    else exec_action (
        "/bin/bash"
        ∷ "-c"
        ∷ script_command script (fallback_or end_point (env.getenv fallback))
        ∷ [])

unfoldable pub probe_action :
    Env
    → Bool
    → Option String
    → Option (List String)
    → Option HttpGetAction
    → String
    → String
    → ProbeAction
probe_action env bootable script (some command) http end_point fallback = exec_action command
probe_action env bootable script none (some a) end_point fallback = http_action a
probe_action env bootable script none none end_point fallback =
    default_action env bootable script end_point fallback

-- The defaults of one kind of probe.
pub record ProbeDefaults : Type 0 where
  pub delay : ℤ
  pub failures : ℤ
  pub script_variable : String
  pub end_point : String
  pub fallback_variable : String

-- createCommonProbe at the fields that its callers read from the spec.
unfoldable pub create_probe : Env → Bool → ProbeDefaults → ProbeSpec → Probe
unfolding probe_action
create_probe env bootable d s = record {
  action =
      probe_action env bootable (env.getenv d.script_variable) s.handler.exec s.handler.http_get
        d.end_point d.fallback_variable;
  initial_delay_seconds = delay_or d.delay s.initial_delay_seconds;
  timeout_seconds = set_or (pos 1) s.timeout_seconds;
  period_seconds = set_or (pos 10) s.period_seconds;
  success_threshold = set_or (pos 1) s.success_threshold;
  failure_threshold = set_or d.failures s.failure_threshold;
}

abbrev pub liveness : ProbeDefaults
liveness = record {
  delay = pos 0;
  failures = pos 3;
  script_variable = "SERVER_LIVENESS_SCRIPT";
  end_point = "/health/live";
  fallback_variable = "SERVER_LIVENESS_SCRIPT_FALLBACK";
}

abbrev pub readiness : ProbeDefaults
readiness = record {
  delay = pos 10;
  failures = pos 3;
  script_variable = "SERVER_READINESS_SCRIPT";
  end_point = "/health/ready";
  fallback_variable = "SERVER_READINESS_SCRIPT_FALLBACK";
}

-- The end point is that of the liveness probe.
abbrev pub startup : ProbeDefaults
startup = record {
  delay = pos 10;
  failures = pos 11;
  script_variable = "SERVER_LIVENESS_SCRIPT";
  end_point = "/health/live";
  fallback_variable = "SERVER_LIVENESS_SCRIPT_FALLBACK";
}

unfoldable pub create_liveness_probe : Env → WildFlyServer → Probe
unfolding create_probe
create_liveness_probe env w =
    create_probe env w.spec.bootable_jar liveness (spec_or_empty w.spec.liveness_probe)

unfoldable pub create_readiness_probe : Env → WildFlyServer → Probe
unfolding create_probe
create_readiness_probe env w =
    create_probe env w.spec.bootable_jar readiness (spec_or_empty w.spec.readiness_probe)

unfoldable pub create_startup_probe : Env → WildFlyServer → Probe
unfolding create_probe
create_startup_probe env w =
    create_probe env w.spec.bootable_jar startup (spec_or_empty w.spec.startup_probe)
