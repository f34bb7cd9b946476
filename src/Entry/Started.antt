-- ===== src/Entry/Started.antt =====
-- When main.go comes to start the manager.
use wildfly_operator.Prelude.{
  ◌≡◌, refl, sym, ap, ◌↔◌, String, Bool, true, false, true_is_false, Option, none, some, List, [],
  ◌∷◌, arith,
}
use wildfly_operator.Kube.{Opaque}
use wildfly_operator.World.{Env, Result, ok, err}
use wildfly_operator.Controller.Pods.{set_up_with_manager}
use wildfly_operator.Entry.{
  Flags, Platform, StartStep, created_manager, built_controller, added_healthz_check,
  added_readyz_check, started_manager, get_watch_namespace, run_manager, with_namespace, main,
}

-- Every step before the start worked, on a cluster of the kind.
abbrev pub IsPrepared : Platform → Env → Flags → String → Bool → Type 0
IsPrepared p env flags namespace openshift =
    (config : Opaque) × (p.lookup_env "WATCH_NAMESPACE" ≡ some namespace)
    × (p.get_config ≡ some config)
    × (p.new_manager config (record { flags = flags; namespace = namespace }) ≡ none)
    × (p.is_openshift config ≡ ok openshift)
    × (p.complete (set_up_with_manager env openshift) ≡ none)
    × (p.add_healthz_check ≡ none)
    × (p.add_readyz_check ≡ none)

abbrev pub all_steps : Env → Flags → String → Bool → List StartStep
all_steps env flags namespace openshift =
    started_manager
    ∷ added_readyz_check
    ∷ added_healthz_check
    ∷ built_controller (set_up_with_manager env openshift)
    ∷ created_manager (record { flags = flags; namespace = namespace })
    ∷ []

abbrev pub has_started : List StartStep → Bool
has_started (started_manager ∷ steps) = true
has_started _ = false

-- The manager is started after all the steps before it have worked.
abbrev pub StartsPrepared : Platform → Env → Flags → Type 0
StartsPrepared p env flags =
    (namespace : String) × (openshift : Bool) × IsPrepared p env flags namespace openshift
    × ((main p env flags).1 ≡ all_steps env flags namespace openshift)

module _ (p : Platform) (env : Env) (flags : Flags) where
  prepared-main :
      (namespace : String) (openshift : Bool)
      → IsPrepared p env flags namespace openshift
      → (main p env flags).1 ≡ all_steps env flags namespace openshift
  unfolding main get_watch_namespace with_namespace run_manager
  prepared-main namespace openshift (config, a, b, c, d, e, f, g) = rw (a, b, c, d, e, f, g) refl

  -- One answer after another: each one that is an error leaves the manager unstarted.
  module _ (h : has_started (main p env flags).1 ≡ true) where
    at_end :
        (namespace config : String) (openshift : Bool)
        → p.lookup_env "WATCH_NAMESPACE" ≡ some namespace
        → p.get_config ≡ some config
        → p.new_manager config (record { flags = flags; namespace = namespace }) ≡ none
        → p.is_openshift config ≡ ok openshift
        → (p.complete (set_up_with_manager env openshift) ≡ none)
          × (p.add_healthz_check ≡ none)
          × (p.add_readyz_check ≡ none)
    unfolding main get_watch_namespace with_namespace run_manager
    at_end namespace config openshift a b c d = let g = rw (a, b, c, d) at h in ground arith

    at_platform :
        (namespace config : String) (r : Result Opaque Bool)
        → p.lookup_env "WATCH_NAMESPACE" ≡ some namespace
        → p.get_config ≡ some config
        → p.new_manager config (record { flags = flags; namespace = namespace }) ≡ none
        → p.is_openshift config ≡ r
        → StartsPrepared p env flags
    unfolding main get_watch_namespace with_namespace run_manager
    at_platform namespace config (err e) a b c d = true_is_false (sym (rw (a, b, c, d) at h))
    at_platform namespace config (ok openshift) a b c d =
        let (e, f, g) = at_end namespace config openshift a b c d in
        let all : IsPrepared p env flags namespace openshift = (config, a, b, c, d, e, f, g) in
        (namespace, openshift, all, prepared-main namespace openshift all)

    at_manager :
        (namespace config : String) (e : Option Opaque)
        → p.lookup_env "WATCH_NAMESPACE" ≡ some namespace
        → p.get_config ≡ some config
        → p.new_manager config (record { flags = flags; namespace = namespace }) ≡ e
        → StartsPrepared p env flags
    unfolding main get_watch_namespace with_namespace run_manager
    at_manager namespace config none a b c = at_platform namespace config _ a b c refl
    at_manager namespace config (some e) a b c = true_is_false (sym (rw (a, b, c) at h))

    at_config :
        (namespace : String) (config : Option Opaque)
        → p.lookup_env "WATCH_NAMESPACE" ≡ some namespace
        → p.get_config ≡ config
        → StartsPrepared p env flags
    unfolding main get_watch_namespace with_namespace run_manager
    at_config namespace none a b = true_is_false (sym (rw (a, b) at h))
    at_config namespace (some config) a b = at_manager namespace config _ a b refl

    at_namespace :
        (namespace : Option String)
        → p.lookup_env "WATCH_NAMESPACE" ≡ namespace
        → StartsPrepared p env flags
    unfolding main get_watch_namespace with_namespace run_manager
    at_namespace none a = true_is_false (sym (rw a at h))
    at_namespace (some namespace) a = at_config namespace _ a refl

-- The manager is started exactly when the watched namespace is set, a configuration is found, the
-- manager is made for that namespace, the platform is told, the controller with the kinds that it
-- watches on that platform is built, and both checks are added; nothing else is done then.
pub main_started :
    (p : Platform) (env : Env) (flags : Flags)
    → (has_started (main p env flags).1 ≡ true) ↔ StartsPrepared p env flags
main_started p env flags = (
  λ h. at_namespace p env flags h _ refl,
  λ (namespace, openshift, all, steps). ap has_started steps,
)
