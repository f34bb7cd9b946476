-- ===== src/Resources/Total.antt =====
-- The calls of the client in pkg/resources/actions.go always end with an answer.
use wildfly_operator.Prelude.{Option, none, some}
use wildfly_operator.Kube.{ApiError}
use wildfly_operator.Api.{WildFlyServer}
use wildfly_operator.World.{Object}
use wildfly_operator.World.Rules.{Runs, Anything, total_rules}
use wildfly_operator.Resources.{create_owned, create, update, patch, delete, update_status}

create_owned-Runs : (o : Object) (e : Option ApiError) → Runs Anything (create_owned o e)
create_owned-Runs o none = search total_rules
create_owned-Runs o (some e) = search total_rules

module _ (w : WildFlyServer) (o : Object) where
  pub create-Runs : Runs Anything (create w o)
  unfolding create
  create-Runs = search (total_rules, create_owned-Runs)

  pub update-Runs : Runs Anything (update w o)
  unfolding update
  update-Runs = search total_rules

  pub patch-Runs : Runs Anything (patch w o)
  unfolding patch
  patch-Runs = search total_rules

pub delete-Runs : (o : Object) → Runs Anything (delete o)
unfolding delete
delete-Runs o = search total_rules

pub update_status-Runs : (w : WildFlyServer) → Runs Anything (update_status w)
unfolding update_status
update_status-Runs w = search total_rules

-- The rules of the client's calls.
pub ruleset client_total =
    (total_rules, create-Runs, update-Runs, patch-Runs, delete-Runs, update_status-Runs)
