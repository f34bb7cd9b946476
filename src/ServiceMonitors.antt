-- ===== src/ServiceMonitors.antt =====
-- pkg/resources/servicemonitors/servicemonitor.go.
pub mod Total
pub mod Quiet
use wildfly_operator.Prelude.{Option, none, some, [], StringMap}
use wildfly_operator.Kube.{ServiceMonitor, ApiError, not_found, already_exists}
use wildfly_operator.Api.{WildFlyServer}
use wildfly_operator.World.{M, Result, ok, err, service_monitor, got_service_monitor, ◌>>=◌, pure}
use wildfly_operator.Resources

unfoldable pub new_service_monitor : WildFlyServer → StringMap → ServiceMonitor
new_service_monitor w labels = record {
  name = w.name;
  namespace = w.namespace;
  labels = labels;
  annotations = [];
  port = "admin";
  selector = labels;
}

-- `&monitoringv1.ServiceMonitor{}`
abbrev no_service_monitor : ServiceMonitor
no_service_monitor = record {
  name = "";
  namespace = "";
  labels = [];
  annotations = [];
  port = "";
  selector = [];
}

abbrev created_monitor : Option ApiError → Result ApiError (Option ServiceMonitor)
created_monitor none = ok none
created_monitor (some already_exists) = ok none
created_monitor (some e) = err e

-- An error of Get other than "not found" is passed over, and the empty object is the answer.
after_get :
    WildFlyServer
    → StringMap
    → Result ApiError ServiceMonitor
    → M (Result ApiError (Option ServiceMonitor))
after_get w labels (ok s) = pure (ok (some s))
after_get w labels (err not_found) = do
  e ← Resources.create w (service_monitor (new_service_monitor w labels))
  pure (created_monitor e)
after_get w labels (err _) = pure (ok (some no_service_monitor))

unfoldable pub get_or_create_service_monitor :
    WildFlyServer → StringMap → M (Result ApiError (Option ServiceMonitor))
unfolding after_get
get_or_create_service_monitor w labels = do
  r ← Resources.get (λ env h. env.get_service_monitor h w.name) (got_service_monitor w.name)
  after_get w labels r
