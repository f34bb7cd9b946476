-- ===== src/Controller/Pods.antt =====
-- GetPodsForWildFly, hasServiceMonitor and SetupWithManager of
-- controllers/wildflyserver_controller.go.
use wildfly_operator.Prelude.{Bool, List, [], ◌∷◌, ◌++◌, if◌then◌else◌}
use wildfly_operator.Kube.{ApiError, Pod}
use wildfly_operator.Api.{WildFlyServer}
use wildfly_operator.World.{M, Env, Result, ok, err, listed_pods, ◌>>=◌, pure, request}
use wildfly_operator.Util.Pods.{sort_pods_by_name}
use wildfly_operator.Resources.{custom_resource_definition_exists}
use wildfly_operator.Controller.Labels.{labels_for_wildfly}

abbrev pub sorted : Result ApiError (List Pod) → Result ApiError (List Pod)
sorted (ok pods) = ok (sort_pods_by_name pods)
sorted (err e) = err e

-- The pods of the server's namespace with the server's labels, in the order of their numbers.
unfoldable pub get_pods_for_wildfly : Env → WildFlyServer → M (Result ApiError (List Pod))
get_pods_for_wildfly env w = do
  let labels = labels_for_wildfly env w
  r ← request (λ env' h. env'.list_pods h w.namespace labels) (listed_pods w.namespace labels)
  pure (sorted r)

unfoldable pub has_service_monitor : Env → Bool
has_service_monitor env =
    custom_resource_definition_exists env "monitoring.coreos.com/v1" "ServiceMonitor"

-- The kinds of object of which a change brings a new round for the server that owns them.
pub data WatchedKind : Type 0 where
  wildfly_servers services service_monitors routes stateful_sets : WatchedKind

-- The kinds in the order of the calls of the builder.
unfoldable pub set_up_with_manager : Env → Bool → List WatchedKind
set_up_with_manager env openshift =
    wildfly_servers
    ∷ services
    ∷ ((if has_service_monitor env then service_monitors ∷ [] else [])
        ++ ((if openshift then routes ∷ [] else []) ++ (stateful_sets ∷ [])))
