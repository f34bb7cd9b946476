-- ===== src/Routes/Quiet.antt =====
-- The operations of pkg/resources/routes/route.go write no StatefulSet.
use wildfly_operator.Prelude.{StringMap}
use wildfly_operator.Kube.{ApiError, not_found, already_exists, invalid, other, Route}
use wildfly_operator.Api.{WildFlyServer}
use wildfly_operator.World.{Result, ok, err}
use wildfly_operator.World.Quiet.{Quiet}
use wildfly_operator.Resources.Quiet.{client_quiet}
use wildfly_operator.Routes.{after_get, get_or_create_route, after_found, delete_existing_route}

module _ (w : WildFlyServer) (labels : StringMap) where
  after_get-Quiet : (r : Result ApiError Route) → Quiet (after_get w labels r)
  unfolding after_get
  after_get-Quiet (ok r) = search client_quiet
  after_get-Quiet (err not_found) = search client_quiet
  after_get-Quiet (err already_exists) = search client_quiet
  after_get-Quiet (err invalid) = search client_quiet
  after_get-Quiet (err other) = search client_quiet

pub route-Quiet : (w : WildFlyServer) (labels : StringMap) → Quiet (get_or_create_route w labels)
unfolding get_or_create_route
route-Quiet w labels = search (client_quiet, after_get-Quiet)

after_found-Quiet : (r : Result ApiError Route) → Quiet (after_found r)
unfolding after_found
after_found-Quiet (ok r) = search client_quiet
after_found-Quiet (err not_found) = search client_quiet
after_found-Quiet (err already_exists) = search client_quiet
after_found-Quiet (err invalid) = search client_quiet
after_found-Quiet (err other) = search client_quiet

pub delete_route-Quiet : (w : WildFlyServer) → Quiet (delete_existing_route w)
unfolding delete_existing_route
delete_route-Quiet w = search (client_quiet, after_found-Quiet)
