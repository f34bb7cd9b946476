-- ===== src/Services.antt =====
-- pkg/resources/services/service.go: the admin, headless and cluster services. The map of labels is
-- the caller's and the functions write into it; it is made anew for each call, so it is passed by value.
pub mod Names
pub mod Update
pub mod Total
pub mod Quiet
use wildfly_operator.Prelude.{
  Bool, true, false, Option, none, some, List, [], ◌∷◌, String, StringMap, insert, if◌then◌else◌,
}
use wildfly_operator.Prelude.Int.{ℤ}
use wildfly_operator.Kube.{ServiceSpec, Service, ApiError, not_found, already_exists, invalid}
use wildfly_operator.Api.{WildFlyServer}
use wildfly_operator.World.{M, Result, ok, err, service, got_service, ◌>>=◌, pure, request}
use wildfly_operator.Resources
use wildfly_operator.Resources.Generation.{is_current_generation, mark_server_generation}
use wildfly_operator.Resources.Markers.{
  http_application_port, http_management_port, marker_service_active,
  marker_operated_by_loadbalancer, marker_operated_by_headless,
}
use Names.{admin_service_name, headless_service_name, cluster_service_name}

abbrev pub headless_labels : StringMap → StringMap
headless_labels labels = insert marker_operated_by_headless marker_service_active labels

abbrev new_service :
    WildFlyServer → String → StringMap → String → String → List (String × ℤ) → Service
new_service w name labels cluster_ip affinity ports = record {
  name = name;
  namespace = w.namespace;
  labels = labels;
  annotations = [];
  spec = record {
    selector = labels;
    cluster_ip = cluster_ip;
    session_affinity = affinity;
    ports = ports;
  };
}

unfoldable pub new_headless_service : WildFlyServer → StringMap → Service
new_headless_service w labels =
    new_service w (headless_service_name w) (headless_labels labels) "None" ""
      (("http", http_application_port) ∷ [])

unfoldable pub new_admin_service : WildFlyServer → StringMap → Service
new_admin_service w labels =
    new_service w (admin_service_name w) labels "None" "" (("admin", http_management_port) ∷ [])

unfoldable pub new_cluster_service : WildFlyServer → StringMap → Service
new_cluster_service w labels =
    new_service w (cluster_service_name w)
      (insert marker_operated_by_loadbalancer marker_service_active labels) ""
      (if w.spec.session_affinity then "ClientIP" else "None")
      (("http", http_application_port) ∷ [])

-- serviceCreator leaves its markers in the map that the service then gets as its labels.
abbrev pub Creator : Type 0
Creator = WildFlyServer → StringMap → Service

abbrev created_service : Option ApiError → Result ApiError (Option Service)
created_service none = ok none
created_service (some already_exists) = ok none
created_service (some e) = err e

abbrev deleted_service : Option ApiError → Result ApiError (Option Service)
deleted_service none = ok none
deleted_service (some e) = err e

-- The found service with the labels and the spec of a new one, but its own cluster IP.
abbrev pub renewed : Service → Service → Service
renewed old new = record old {
  labels = new.labels;
  spec = record (new.spec) { cluster_ip = old.spec.cluster_ip };
}

-- The service as Update leaves it in memory.
abbrev pub marked_service : WildFlyServer → Service → Service
marked_service w s = record s { annotations = mark_server_generation w s.annotations }

-- A service that cannot be updated is deleted, to be created in a later round.
after_update : Service → Option ApiError → M (Result ApiError (Option Service))
after_update s none = pure (ok none)
after_update s (some invalid) = do e ← Resources.delete (service s); pure (deleted_service e)
after_update s (some e) = pure (err e)

after_get :
    WildFlyServer
    → StringMap
    → Creator
    → Result ApiError Service
    → M (Result ApiError (Option Service))
unfolding after_update
after_get w labels new (ok s) =
    if is_current_generation w s.annotations then pure (ok (some s)) else (do
      e ← Resources.update w (service (renewed s (new w labels)))
      after_update (marked_service w (renewed s (new w labels))) e)
after_get w labels new (err not_found) = do
  e ← Resources.create w (service (new w labels))
  pure (created_service e)
after_get w labels new (err e) = pure (err e)

-- `ok none` is the answer (nil, nil): something was written, and the round has to be repeated.
unfoldable pub create_or_update_service :
    WildFlyServer → StringMap → String → Creator → M (Result ApiError (Option Service))
unfolding after_get
create_or_update_service w labels name new = do
  r ← Resources.get (λ env h. env.get_service h name) (got_service name)
  after_get w (headless_labels labels) new r

unfoldable pub create_or_update_admin_service :
    WildFlyServer → StringMap → M (Result ApiError (Option Service))
create_or_update_admin_service w labels =
    create_or_update_service w labels (admin_service_name w) new_admin_service

unfoldable pub create_or_update_headless_service :
    WildFlyServer → StringMap → M (Result ApiError (Option Service))
create_or_update_headless_service w labels =
    create_or_update_service w labels (headless_service_name w) new_headless_service

unfoldable pub create_or_update_cluster_service :
    WildFlyServer → StringMap → M (Result ApiError (Option Service))
create_or_update_cluster_service w labels =
    create_or_update_service w labels (cluster_service_name w) new_cluster_service
