-- ===== src/Controller/Reconcile/Finish/Total.antt =====
-- The last stage of Reconcile in controllers/wildflyserver_controller.go always ends.
use wildfly_operator.Prelude.{Bool, true, false, Option, List, [], ◌∷◌, String}
use wildfly_operator.Kube.{Pod}
use wildfly_operator.Api.{PodStatus}
use wildfly_operator.World.Rules.{Runs, Anything, total_pure, total_bind, total_if}
use wildfly_operator.Resources.Total.{client_total}
use wildfly_operator.Controller.Reconcile.Finish.{
  Round, reactivate, reactivate_if, write_status, finish_round,
}
use wildfly_operator.Controller.Reconcile.Finish.Rest.{delete_named-Runs}

reactivate-Runs : (pods : List Pod) (ss : List PodStatus) → Runs Anything (reactivate pods ss)
unfolding reactivate
reactivate-Runs pods [] = total_pure _
reactivate-Runs pods (s ∷ ss) =
    total_if _ _ _ (total_bind _ _ (reactivate-Runs pods ss) (λ r. total_pure _)) (
      total_bind _ _ (delete_named-Runs s.name pods)
        (λ u. total_bind _ _ (reactivate-Runs pods ss) (λ r. total_pure _)))

reactivate_if-Runs :
    (b : Bool) (pods : List Pod) (ss : List PodStatus) → Runs Anything (reactivate_if b pods ss)
reactivate_if-Runs true pods ss = reactivate-Runs pods ss
reactivate_if-Runs false pods ss = total_pure _

write_status-Runs :
    (c : Round) (hosts : Option (List String) × Bool) (r : List PodStatus × Bool)
    → Runs Anything (write_status c hosts r)
unfolding write_status
write_status-Runs c hosts r = search client_total

pub finish_round-Runs : (c : Round) → Runs Anything (finish_round c)
unfolding finish_round
finish_round-Runs c = total_bind _ _ (reactivate_if-Runs _ _ _) (λ r. write_status-Runs c _ r)
