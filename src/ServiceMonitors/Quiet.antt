-- ===== src/ServiceMonitors/Quiet.antt =====
-- The operation of pkg/resources/servicemonitors/servicemonitor.go writes no StatefulSet.
use wildfly_operator.Prelude.{StringMap}
use wildfly_operator.Kube.{ApiError, not_found, already_exists, invalid, other, ServiceMonitor}
use wildfly_operator.Api.{WildFlyServer}
use wildfly_operator.World.{Result, ok, err}
use wildfly_operator.World.Quiet.{Quiet}
use wildfly_operator.Resources.Quiet.{client_quiet}
use wildfly_operator.ServiceMonitors.{after_get, get_or_create_service_monitor}

module _ (w : WildFlyServer) (labels : StringMap) where
  after_get-Quiet : (r : Result ApiError ServiceMonitor) → Quiet (after_get w labels r)
  unfolding after_get
  after_get-Quiet (ok r) = search client_quiet
  after_get-Quiet (err not_found) = search client_quiet
  after_get-Quiet (err already_exists) = search client_quiet
  after_get-Quiet (err invalid) = search client_quiet
  after_get-Quiet (err other) = search client_quiet

pub service_monitor-Quiet :
    (w : WildFlyServer) (labels : StringMap) → Quiet (get_or_create_service_monitor w labels)
unfolding get_or_create_service_monitor
service_monitor-Quiet w labels = search (client_quiet, after_get-Quiet)
