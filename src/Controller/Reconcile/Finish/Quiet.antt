-- ===== src/Controller/Reconcile/Finish/Quiet.antt =====
-- The last stage of Reconcile in controllers/wildflyserver_controller.go writes no StatefulSet.
use wildfly_operator.Prelude.{Bool, true, false, Option, List, [], ◌∷◌, String}
use wildfly_operator.Kube.{Pod}
use wildfly_operator.Api.{PodStatus}
use wildfly_operator.World.{pod}
use wildfly_operator.World.Quiet.{Quiet, Quiet-pure, Quiet-bind, Quiet-if}
use wildfly_operator.Resources.Quiet.{client_quiet, delete-Quiet}
use wildfly_operator.Controller.Reconcile.Finish.{
  Round, delete_named, reactivate, reactivate_if, write_status, finish_round,
}

delete_named-Quiet : (name : String) (ps : List Pod) → Quiet (delete_named name ps)
unfolding delete_named
delete_named-Quiet name [] = Quiet-pure tt
delete_named-Quiet name (p ∷ ps) =
    Quiet-if _ _ _ (Quiet-bind _ _ (delete-Quiet (pod p) tt) (λ e. delete_named-Quiet name ps))
      (delete_named-Quiet name ps)

reactivate-Quiet : (pods : List Pod) (ss : List PodStatus) → Quiet (reactivate pods ss)
unfolding reactivate
reactivate-Quiet pods [] = Quiet-pure _
reactivate-Quiet pods (s ∷ ss) =
    Quiet-if _ _ _ (Quiet-bind _ _ (reactivate-Quiet pods ss) (λ r. Quiet-pure _)) (
      Quiet-bind _ _ (delete_named-Quiet s.name pods)
        (λ u. Quiet-bind _ _ (reactivate-Quiet pods ss) (λ r. Quiet-pure _)))

reactivate_if-Quiet :
    (b : Bool) (pods : List Pod) (ss : List PodStatus) → Quiet (reactivate_if b pods ss)
reactivate_if-Quiet true pods ss = reactivate-Quiet pods ss
reactivate_if-Quiet false pods ss = Quiet-pure _

write_status-Quiet :
    (c : Round) (hosts : Option (List String) × Bool) (r : List PodStatus × Bool)
    → Quiet (write_status c hosts r)
unfolding write_status
write_status-Quiet c hosts r = search client_quiet

pub finish_round-Quiet : (c : Round) → Quiet (finish_round c)
unfolding finish_round
finish_round-Quiet c = Quiet-bind _ _ (reactivate_if-Quiet _ _ _) (λ r. write_status-Quiet c _ r)
