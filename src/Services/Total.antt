-- ===== src/Services/Total.antt =====
-- The operations of pkg/resources/services/service.go always end.
use wildfly_operator.Prelude.{String, StringMap, Option, none, some}
use wildfly_operator.Kube.{ApiError, not_found, already_exists, invalid, other, Service}
use wildfly_operator.Api.{WildFlyServer}
use wildfly_operator.World.{Result, ok, err}
use wildfly_operator.World.Rules.{Runs, Anything}
use wildfly_operator.Resources.Total.{client_total}
use wildfly_operator.Services.{
  Creator, after_update, after_get, create_or_update_service, create_or_update_admin_service,
  create_or_update_headless_service, create_or_update_cluster_service,
}

after_update-Runs : (s : Service) (e : Option ApiError) → Runs Anything (after_update s e)
unfolding after_update
after_update-Runs s none = search client_total
after_update-Runs s (some invalid) = search client_total
after_update-Runs s (some not_found) = search client_total
after_update-Runs s (some already_exists) = search client_total
after_update-Runs s (some other) = search client_total

module _ (w : WildFlyServer) (labels : StringMap) where
  after_get-Runs :
      (new : Creator) (r : Result ApiError Service) → Runs Anything (after_get w labels new r)
  unfolding after_get
  after_get-Runs new (ok s) = search (client_total, after_update-Runs)
  after_get-Runs new (err not_found) = search client_total
  after_get-Runs new (err already_exists) = search client_total
  after_get-Runs new (err invalid) = search client_total
  after_get-Runs new (err other) = search client_total

module _ (w : WildFlyServer) (labels : StringMap) where
  service-Runs :
      (name : String) (new : Creator) → Runs Anything (create_or_update_service w labels name new)
  unfolding create_or_update_service
  service-Runs name new = search (client_total, after_get-Runs)

  pub admin_service-Runs : Runs Anything (create_or_update_admin_service w labels)
  unfolding create_or_update_admin_service
  admin_service-Runs = service-Runs _ _

  pub headless_service-Runs : Runs Anything (create_or_update_headless_service w labels)
  unfolding create_or_update_headless_service
  headless_service-Runs = service-Runs _ _

  pub cluster_service-Runs : Runs Anything (create_or_update_cluster_service w labels)
  unfolding create_or_update_cluster_service
  cluster_service-Runs = service-Runs _ _
