-- ===== src/Routes/Total.antt =====
-- The operations of pkg/resources/routes/route.go always end.
use wildfly_operator.Prelude.{StringMap}
use wildfly_operator.Kube.{ApiError, not_found, already_exists, invalid, other, Route}
use wildfly_operator.Api.{WildFlyServer}
use wildfly_operator.World.{Result, ok, err}
use wildfly_operator.World.Rules.{Runs, Anything}
use wildfly_operator.Resources.Total.{client_total}
use wildfly_operator.Routes.{after_get, get_or_create_route, after_found, delete_existing_route}

module _ (w : WildFlyServer) (labels : StringMap) where
  after_get-Runs : (r : Result ApiError Route) → Runs Anything (after_get w labels r)
  unfolding after_get
  after_get-Runs (ok r) = search client_total
  after_get-Runs (err not_found) = search client_total
  after_get-Runs (err already_exists) = search client_total
  after_get-Runs (err invalid) = search client_total
  after_get-Runs (err other) = search client_total

pub route-Runs :
    (w : WildFlyServer) (labels : StringMap) → Runs Anything (get_or_create_route w labels)
unfolding get_or_create_route
route-Runs w labels = search (client_total, after_get-Runs)

after_found-Runs : (r : Result ApiError Route) → Runs Anything (after_found r)
unfolding after_found
after_found-Runs (ok r) = search client_total
after_found-Runs (err not_found) = search client_total
after_found-Runs (err already_exists) = search client_total
after_found-Runs (err invalid) = search client_total
after_found-Runs (err other) = search client_total

pub delete_route-Runs : (w : WildFlyServer) → Runs Anything (delete_existing_route w)
unfolding delete_existing_route
delete_route-Runs w = search (client_total, after_found-Runs)
