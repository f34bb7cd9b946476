-- ===== src/Entry.antt =====
-- main.go: the start of the operator, up to the manager that runs it. Log output is left out.
pub mod Started
use wildfly_operator.Prelude.{String, Bool, Option, none, some, List, [], ◌∷◌}
use wildfly_operator.Kube.{Opaque}
use wildfly_operator.World.{Env, Result, ok, err}
use wildfly_operator.Controller.Pods.{WatchedKind, set_up_with_manager}

-- The flags with their defaults.
pub record Flags : Type 0 where
  pub metrics_addr : String
  pub enable_leader_election : Bool
  pub probe_addr : String

abbrev pub default_flags : Bool → Flags
default_flags leader = record {
  metrics_addr = "0.0.0.0:8383";
  enable_leader_election = leader;
  probe_addr = ":8081";
}

pub record ManagerOptions : Type 0 where
  pub flags : Flags
  pub namespace : String

-- What the controller library answers. `get_config` is none where GetConfigOrDie ends the process.
pub record Platform : Type 0 where
  pub lookup_env : String → Option String
  pub get_config : Option Opaque
  pub new_manager : Opaque → ManagerOptions → Option Opaque
  pub is_openshift : Opaque → Result Opaque Bool
  pub complete : List WatchedKind → Option Opaque
  pub add_healthz_check : Option Opaque
  pub add_readyz_check : Option Opaque
  pub start : Option Opaque

-- The places where the process exits with 1.
pub data ExitReason : Type 0 where
  no_watch_namespace no_config : ExitReason
  no_manager no_platform no_controller no_health_check no_ready_check not_running :
      Opaque → ExitReason

pub data StartStep : Type 0 where
  created_manager : ManagerOptions → StartStep
  built_controller : List WatchedKind → StartStep
  added_healthz_check added_readyz_check started_manager : StartStep

-- The reason to exit, if there is one, after the steps that were made.
abbrev pub Start : Type 0 → Type 0
Start A = Result ExitReason A × List StartStep

abbrev pub and_then : {A B : Type 0} → Start A → (A → List StartStep → Start B) → Start B
and_then (ok a, steps) f = f a steps
and_then (err e, steps) f = (err e, steps)

-- getWatchNamespace: a value that is set and empty is a namespace, that of the whole cluster.
abbrev namespace_of : Option String → Result ExitReason String
namespace_of none = err no_watch_namespace
namespace_of (some namespace) = ok namespace

unfoldable pub get_watch_namespace : Platform → Result ExitReason String
get_watch_namespace p = namespace_of (p.lookup_env "WATCH_NAMESPACE")

abbrev config_of : Option Opaque → Result ExitReason Opaque
config_of none = err no_config
config_of (some config) = ok config

-- A call that only fails or works, with the step that it is.
abbrev attempt :
    (Opaque → ExitReason) → StartStep → Option Opaque → List StartStep → Start (Unit {0})
attempt reason step none steps = (ok tt, step ∷ steps)
attempt reason step (some e) steps = (err (reason e), steps)

abbrev platform_of : Result Opaque Bool → Result ExitReason Bool
platform_of (ok openshift) = ok openshift
platform_of (err e) = err (no_platform e)

-- From the controller on. An error of Start is one after the manager has run.
abbrev ran : Option Opaque → Result ExitReason (Unit {0})
ran none = ok tt
ran (some e) = err (not_running e)

unfoldable pub run_manager : Platform → Env → Bool → List StartStep → Start (Unit {0})
run_manager p env openshift steps =
    and_then
      (attempt no_controller (built_controller (set_up_with_manager env openshift))
        (p.complete (set_up_with_manager env openshift)) steps)
      (λ u steps'.
        and_then (attempt no_health_check added_healthz_check p.add_healthz_check steps')
          (λ u' steps''.
            and_then (attempt no_ready_check added_readyz_check p.add_readyz_check steps'')
              (λ u'' steps'''. (ran p.start, started_manager ∷ steps'''))))

unfoldable pub with_namespace : Platform → Env → Flags → String → Start (Unit {0})
with_namespace p env flags namespace =
    let options : ManagerOptions = record { flags = flags; namespace = namespace } in
    and_then (config_of p.get_config, [])
      (λ config steps.
        and_then (attempt no_manager (created_manager options) (p.new_manager config options) steps)
          (λ u steps'.
            and_then (platform_of (p.is_openshift config), steps')
              (λ openshift steps''. run_manager p env openshift steps'')))

unfoldable pub main : Platform → Env → Flags → Start (Unit {0})
main p env flags =
    and_then (get_watch_namespace p, []) (λ namespace steps. with_namespace p env flags namespace)
