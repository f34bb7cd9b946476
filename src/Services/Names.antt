-- ===== src/Services/Names.antt =====
-- The names of the services and of the route (pkg/resources/services/service.go,
-- pkg/resources/routes/route.go).
use Prim.Native.String.{◌++◌ as append}
use wildfly_operator.Prelude.{String}
use wildfly_operator.Api.{WildFlyServer}

abbrev pub headless_service_name : WildFlyServer → String
headless_service_name w = append w.name "-headless"

abbrev pub admin_service_name : WildFlyServer → String
admin_service_name w = append w.name "-admin"

abbrev pub cluster_service_name : WildFlyServer → String
cluster_service_name w = append w.name "-loadbalancer"

abbrev pub route_service_name : WildFlyServer → String
route_service_name w = append w.name "-route"
