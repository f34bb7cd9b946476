-- ===== src/Controller/Reconcile/Finish/Stable.antt =====
-- The status that Reconcile of controllers/wildflyserver_controller.go writes at its end: a round that
-- finds the same again writes nothing.
use wildfly_operator.Prelude.{◌≡◌, false, List, [], ◌∷◌, str_eq, All}
use wildfly_operator.Kube.{Pod}
use wildfly_operator.Api.{WildFlyServerStatus}
use wildfly_operator.Controller.Reconcile.Finish.{Round, with_status}

-- No two pods of the list have one name.
abbrev pub Distinct : List Pod → Type 0
Distinct [] = Unit
Distinct (p ∷ ps) = All (λ q. str_eq q.name p.name ≡ false) ps × Distinct ps

-- The round as it comes back, with what was written, when the same pods, hosts and size are found.
abbrev pub repeated : Round → WildFlyServerStatus → Round
repeated c s = record c { server = with_status c.server s }
