-- ===== src/Resources/Quiet.antt =====
-- The calls of the client in pkg/resources/actions.go write no StatefulSet where the object is another
-- one.
use wildfly_operator.Prelude.{Option, none, some}
use wildfly_operator.Kube.{ApiError}
use wildfly_operator.Api.{WildFlyServer}
use wildfly_operator.World.{Object, stateful_set, service, route, service_monitor, pod}
use wildfly_operator.World.Quiet.{Quiet, quiet_rules}
use wildfly_operator.Resources.{create_owned, create, update, patch, delete, update_status}
use wildfly_operator.Resources.Generation.{mark_object}

-- The object is no set.
abbrev pub IsOther : Object → Type 0
IsOther (stateful_set s) = ⊥
IsOther o = Unit

create_owned-Quiet : (o : Object) (e : Option ApiError) → IsOther o → Quiet (create_owned o e)
create_owned-Quiet (stateful_set s) e x = absurd x
create_owned-Quiet (service s) none x = search quiet_rules
create_owned-Quiet (route s) none x = search quiet_rules
create_owned-Quiet (service_monitor s) none x = search quiet_rules
create_owned-Quiet (pod s) none x = search quiet_rules
create_owned-Quiet o (some e) x = search quiet_rules

module _ (w : WildFlyServer) where
  pub create-Quiet : (o : Object) → IsOther o → Quiet (create w o)
  unfolding create mark_object
  create-Quiet (stateful_set s) x = absurd x
  create-Quiet (service s) x = search (quiet_rules, create_owned-Quiet)
  create-Quiet (route s) x = search (quiet_rules, create_owned-Quiet)
  create-Quiet (service_monitor s) x = search (quiet_rules, create_owned-Quiet)
  create-Quiet (pod s) x = search (quiet_rules, create_owned-Quiet)

  pub update-Quiet : (o : Object) → IsOther o → Quiet (update w o)
  unfolding update mark_object
  update-Quiet (stateful_set s) x = absurd x
  update-Quiet (service s) x = search quiet_rules
  update-Quiet (route s) x = search quiet_rules
  update-Quiet (service_monitor s) x = search quiet_rules
  update-Quiet (pod s) x = search quiet_rules

  pub patch-Quiet : (o : Object) → IsOther o → Quiet (patch w o)
  unfolding patch mark_object
  patch-Quiet (stateful_set s) x = absurd x
  patch-Quiet (service s) x = search quiet_rules
  patch-Quiet (route s) x = search quiet_rules
  patch-Quiet (service_monitor s) x = search quiet_rules
  patch-Quiet (pod s) x = search quiet_rules

pub delete-Quiet : (o : Object) → IsOther o → Quiet (delete o)
unfolding delete
delete-Quiet (stateful_set s) x = absurd x
delete-Quiet (service s) x = search quiet_rules
delete-Quiet (route s) x = search quiet_rules
delete-Quiet (service_monitor s) x = search quiet_rules
delete-Quiet (pod s) x = search quiet_rules

pub update_status-Quiet : (w : WildFlyServer) → Quiet (update_status w)
unfolding update_status
update_status-Quiet w = search quiet_rules

-- The rules of the client's calls.
pub ruleset client_quiet =
    (quiet_rules, create-Quiet, update-Quiet, patch-Quiet, delete-Quiet, update_status-Quiet)
