-- ===== src/Routes.antt =====
-- pkg/resources/routes/route.go: the OpenShift route to the HTTP port.
pub mod Total
pub mod Quiet
use wildfly_operator.Prelude.{Bool, true, false, Option, none, some, [], StringMap}
use wildfly_operator.Prelude.Int.{pos}
use wildfly_operator.Kube.{Route, ApiError, not_found, already_exists}
use wildfly_operator.Api.{WildFlyServer}
use wildfly_operator.World.{M, Result, ok, err, route, got_route, ◌>>=◌, pure}
use wildfly_operator.Resources
use wildfly_operator.Services.Names.{cluster_service_name, route_service_name}

unfoldable pub new_route : WildFlyServer → StringMap → Route
new_route w labels = record {
  name = route_service_name w;
  namespace = w.namespace;
  labels = labels;
  annotations = [];
  service = cluster_service_name w;
  weight = pos 100;
  target_port = "http";
  ingress_hosts = [];
}

-- `&routev1.Route{}`, the object that Get fills.
abbrev pub no_route : Route
no_route = record {
  name = "";
  namespace = "";
  labels = [];
  annotations = [];
  service = "";
  weight = pos 0;
  target_port = "";
  ingress_hosts = [];
}

abbrev created_route : Option ApiError → Result ApiError (Option Route)
created_route none = ok none
created_route (some already_exists) = ok none
created_route (some e) = err e

-- An error of Get other than "not found" is passed over, and the empty object is the answer.
after_get : WildFlyServer → StringMap → Result ApiError Route → M (Result ApiError (Option Route))
after_get w labels (ok r) = pure (ok (some r))
after_get w labels (err not_found) = do
  e ← Resources.create w (route (new_route w labels))
  pure (created_route e)
after_get w labels (err _) = pure (ok (some no_route))

unfoldable pub get_or_create_route : WildFlyServer → StringMap → M (Result ApiError (Option Route))
unfolding after_get
get_or_create_route w labels = do
  r ←
      Resources.get (λ env h. env.get_route h (route_service_name w))
        (got_route (route_service_name w))
  after_get w labels r

-- The flag and the error side by side: the flag is true only where the deletion failed.
abbrev deleted_route : Option ApiError → Bool × Option ApiError
deleted_route (some e) = (true, some e)
deleted_route none = (false, none)

after_found : Result ApiError Route → M (Bool × Option ApiError)
after_found (err not_found) = pure (false, none)
after_found (err e) = pure (false, some e)
after_found (ok r) = do e ← Resources.delete (route r); pure (deleted_route e)

unfoldable pub delete_existing_route : WildFlyServer → M (Bool × Option ApiError)
unfolding after_found
delete_existing_route w = do
  r ←
      Resources.get (λ env h. env.get_route h (route_service_name w))
        (got_route (route_service_name w))
  after_found r
