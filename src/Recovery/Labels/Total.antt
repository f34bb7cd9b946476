-- ===== src/Recovery/Labels/Total.antt =====
-- setLabelAsDisabled of controllers/transaction_recovery.go always ends.
use wildfly_operator.Prelude.{ℕ, zero, suc, Bool, List, [], ◌∷◌, String}
use wildfly_operator.Prelude.Int.{ℤ}
use wildfly_operator.Kube.{Pod}
use wildfly_operator.Api.{WildFlyServer}
use wildfly_operator.World.Rules.{Runs, Anything, total_pure, total_bind}
use wildfly_operator.Resources.Total.{client_total}
use wildfly_operator.Recovery.Labels.{update_pod_label, label_loop, set_label_as_disabled}

module _ (w : WildFlyServer) (name : String) where
  update_pod_label-Runs :
      (p : Pod) (value : String) → Runs Anything (update_pod_label w p name value)
  unfolding update_pod_label
  update_pod_label-Runs p value = search client_total

  label_loop-Runs :
      (n : ℕ) (pods : List Pod) (state : Bool × ℕ) → Runs Anything (label_loop w name n pods state)
  unfolding label_loop
  label_loop-Runs zero pods state = total_pure _
  label_loop-Runs (suc n) [] state = total_pure _
  label_loop-Runs (suc n) (p ∷ pods) state =
      total_bind _ _ (update_pod_label-Runs p _) (λ r. label_loop-Runs n pods _)

  pub set_label-Runs :
      (n : ℤ) (pods : List Pod) → Runs Anything (set_label_as_disabled w name n pods)
  unfolding set_label_as_disabled
  set_label-Runs n pods = label_loop-Runs _ _ _
