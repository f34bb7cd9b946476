-- ===== src/ServiceMonitors/Total.antt =====
-- The operation of pkg/resources/servicemonitors/servicemonitor.go always ends.
use wildfly_operator.Prelude.{StringMap}
use wildfly_operator.Kube.{ApiError, not_found, already_exists, invalid, other, ServiceMonitor}
use wildfly_operator.Api.{WildFlyServer}
use wildfly_operator.World.{Result, ok, err}
use wildfly_operator.World.Rules.{Runs, Anything}
use wildfly_operator.Resources.Total.{client_total}
use wildfly_operator.ServiceMonitors.{after_get, get_or_create_service_monitor}

module _ (w : WildFlyServer) (labels : StringMap) where
  after_get-Runs : (r : Result ApiError ServiceMonitor) → Runs Anything (after_get w labels r)
  unfolding after_get
  after_get-Runs (ok r) = search client_total
  after_get-Runs (err not_found) = search client_total
  after_get-Runs (err already_exists) = search client_total
  after_get-Runs (err invalid) = search client_total
  after_get-Runs (err other) = search client_total

pub service_monitor-Runs :
    (w : WildFlyServer) (labels : StringMap)
    → Runs Anything (get_or_create_service_monitor w labels)
unfolding get_or_create_service_monitor
service_monitor-Runs w labels = search (client_total, after_get-Runs)
