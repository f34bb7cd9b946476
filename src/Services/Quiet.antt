-- ===== src/Services/Quiet.antt =====
-- The operations of pkg/resources/services/service.go write no StatefulSet.
use wildfly_operator.Prelude.{String, StringMap, Option, none, some}
use wildfly_operator.Kube.{ApiError, not_found, already_exists, invalid, other, Service}
use wildfly_operator.Api.{WildFlyServer}
use wildfly_operator.World.{Result, ok, err}
use wildfly_operator.World.Quiet.{Quiet}
use wildfly_operator.Resources.Quiet.{client_quiet}
use wildfly_operator.Services.{
  Creator, after_update, after_get, create_or_update_service, create_or_update_admin_service,
  create_or_update_headless_service, create_or_update_cluster_service,
}

after_update-Quiet : (s : Service) (e : Option ApiError) → Quiet (after_update s e)
unfolding after_update
after_update-Quiet s none = search client_quiet
after_update-Quiet s (some invalid) = search client_quiet
after_update-Quiet s (some not_found) = search client_quiet
after_update-Quiet s (some already_exists) = search client_quiet
after_update-Quiet s (some other) = search client_quiet

module _ (w : WildFlyServer) (labels : StringMap) where
  after_get-Quiet : (new : Creator) (r : Result ApiError Service) → Quiet (after_get w labels new r)
  unfolding after_get
  after_get-Quiet new (ok s) = search (client_quiet, after_update-Quiet)
  after_get-Quiet new (err not_found) = search client_quiet
  after_get-Quiet new (err already_exists) = search client_quiet
  after_get-Quiet new (err invalid) = search client_quiet
  after_get-Quiet new (err other) = search client_quiet

module _ (w : WildFlyServer) (labels : StringMap) where
  service-Quiet :
      (name : String) (new : Creator) → Quiet (create_or_update_service w labels name new)
  unfolding create_or_update_service
  service-Quiet name new = search (client_quiet, after_get-Quiet)

  pub admin_service-Quiet : Quiet (create_or_update_admin_service w labels)
  unfolding create_or_update_admin_service
  admin_service-Quiet = service-Quiet _ _

  pub headless_service-Quiet : Quiet (create_or_update_headless_service w labels)
  unfolding create_or_update_headless_service
  headless_service-Quiet = service-Quiet _ _

  pub cluster_service-Quiet : Quiet (create_or_update_cluster_service w labels)
  unfolding create_or_update_cluster_service
  cluster_service-Quiet = service-Quiet _ _
