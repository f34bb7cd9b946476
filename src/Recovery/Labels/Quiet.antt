-- ===== src/Recovery/Labels/Quiet.antt =====
-- setLabelAsDisabled of controllers/transaction_recovery.go writes no StatefulSet.
use wildfly_operator.Prelude.{ℕ, zero, suc, Bool, List, [], ◌∷◌, String}
use wildfly_operator.Prelude.Int.{ℤ}
use wildfly_operator.Kube.{Pod}
use wildfly_operator.Api.{WildFlyServer}
use wildfly_operator.World.Quiet.{Quiet, Quiet-pure, Quiet-bind}
use wildfly_operator.Resources.Quiet.{client_quiet}
use wildfly_operator.Recovery.Labels.{update_pod_label, label_loop, set_label_as_disabled}

module _ (w : WildFlyServer) (name : String) where
  update_pod_label-Quiet : (p : Pod) (value : String) → Quiet (update_pod_label w p name value)
  unfolding update_pod_label
  update_pod_label-Quiet p value = search client_quiet

  label_loop-Quiet :
      (n : ℕ) (pods : List Pod) (state : Bool × ℕ) → Quiet (label_loop w name n pods state)
  unfolding label_loop
  label_loop-Quiet zero pods state = Quiet-pure _
  label_loop-Quiet (suc n) [] state = Quiet-pure _
  label_loop-Quiet (suc n) (p ∷ pods) state =
      Quiet-bind _ _ (update_pod_label-Quiet p _) (λ r. label_loop-Quiet n pods _)

  pub set_label-Quiet : (n : ℤ) (pods : List Pod) → Quiet (set_label_as_disabled w name n pods)
  unfolding set_label_as_disabled
  set_label-Quiet n pods = label_loop-Quiet _ _ _
