-- ===== src/Controller/Scale/Total.antt =====
-- checkStatefulSet of controllers/wildflyserver_controller.go always ends with a StatefulSet that has
-- a size and annotations.
use wildfly_operator.Prelude.{◌≡◌, Bool, false, some, List, is_empty}
use wildfly_operator.Prelude.Int.{ℤ}
use wildfly_operator.Kube.{Pod, StatefulSet}
use wildfly_operator.Api.{WildFlyServer}
use wildfly_operator.World.{Env}
use wildfly_operator.World.Rules.{
  Runs, Anything, total_pure, total_bind, total_if, total_rules, Runs-environment,
}
use wildfly_operator.Resources.Total.{client_total}
use wildfly_operator.StatefulSets.{new_stateful_set}
use wildfly_operator.Controller.Labels.{labels_for_wildfly}
use wildfly_operator.Controller.Scale.{
  Plan, plan_scale, delete_set, update_set, renew_set, apply_plan, announce, check_size,
  check_stateful_set, must_delete,
}

delete_set-Runs : (s : StatefulSet) → Runs Anything (delete_set s)
unfolding delete_set
delete_set-Runs s = search client_total

update_set-Runs : (w : WildFlyServer) (s : StatefulSet) → Runs Anything (update_set w s)
unfolding update_set
update_set-Runs w s = search client_total

announce-Runs : (wanted current : ℤ) (p : Plan) → Runs Anything (announce wanted current p)
announce-Runs wanted current p = search total_rules

module _ (w : WildFlyServer) (found : StatefulSet)
    (marked : is_empty found.annotations ≡ false) where
  renew_set-Runs : (p : Plan) (new : StatefulSet) → Runs Anything (renew_set w found p new)
  unfolding renew_set
  renew_set-Runs p new = rw marked (
      total_if (must_delete found.volume_claim_templates new.volume_claim_templates) _ _
        (delete_set-Runs _) (update_set-Runs w _))

  apply_plan-Runs :
      (env : Env) (openshift : Bool) (p : Plan) → Runs Anything (apply_plan env w openshift found p)
  unfolding apply_plan
  apply_plan-Runs env openshift p =
      total_if _ _ _
        (renew_set-Runs p (new_stateful_set env w (labels_for_wildfly env w) p.size openshift))
        (total_if _ _ _ (update_set-Runs w _) (total_pure _))

  check_size-Runs :
      (openshift : Bool) (pods : List Pod) (current : ℤ)
      → Runs Anything (check_size w openshift found pods current)
  unfolding check_size
  check_size-Runs openshift pods current = total_bind _ _ Runs-environment λ env.
      let p = plan_scale w.spec.replicas current w.status.pods pods in
      total_bind _ _ (announce-Runs w.spec.replicas current p)
        (λ u. apply_plan-Runs env openshift p)

pub check_stateful_set-Runs :
    (w : WildFlyServer) (openshift : Bool) (found : StatefulSet) (pods : List Pod) {current : ℤ}
    → is_empty found.annotations ≡ false
    → found.replicas ≡ some current
    → Runs Anything (check_stateful_set w openshift found pods)
unfolding check_stateful_set
check_stateful_set-Runs w openshift found pods marked sized =
    rw (sized, check_stateful_set) (check_size-Runs w found marked openshift pods _)
