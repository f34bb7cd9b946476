-- ===== src/Recovery/Process/Skip.antt =====
-- skipRecoveryAndForceScaleDown of controllers/transaction_recovery.go.
pub mod Marked
use mathlib.Core.List.{reverse}
use wildfly_operator.Prelude.{ℕ, zero, suc, Option, none, some, List, [], ◌∷◌, String}
use wildfly_operator.Prelude.Int.{ℤ, int32, pos_part}
use wildfly_operator.Kube.{Pod}
use wildfly_operator.Api.{scaling_down_clean, PodStatus, WildFlyServer}
use wildfly_operator.World.{M, ◌>>◌, pure, crash}
use wildfly_operator.Resources
use wildfly_operator.Recovery.Types.{RecoveryError, requeue_off}
use wildfly_operator.Recovery.Statuses.{find_status, put_status, with_pods, with_state}

-- mustReconcile, the error, and the server as the function leaves it.
pub record Processed : Type 0 where
  pub must_reconcile : ℕ
  pub error : Option RecoveryError
  pub server : WildFlyServer

abbrev pub processed : ℕ → Option RecoveryError → WildFlyServer → Processed
processed n e w = record { must_reconcile = n; error = e; server = w }

abbrev pub scaling_down : WildFlyServer → ℤ → WildFlyServer
scaling_down w n = record w { status = record (w.status) { scalingdown_pods = int32 n } }

abbrev pub cleaned : String → Option PodStatus → List PodStatus → List PodStatus
cleaned name none statuses = statuses
cleaned name (some s) statuses = put_status name (with_state s scaling_down_clean) statuses

-- The loop over scaleDownIndex: `rounds` pods of the reversed list are left; `none` is an index
-- below 0.
unfoldable pub mark_clean : ℕ → List Pod → List PodStatus → Option (List PodStatus)
mark_clean zero pods statuses = some statuses
mark_clean (suc rounds) [] statuses = none
mark_clean (suc rounds) (p ∷ pods) statuses =
    mark_clean rounds pods (cleaned p.name (find_status p.name statuses) statuses)

-- An error of the update is only logged.
unfoldable pub save_skipped : WildFlyServer → M Processed
save_skipped w = do Resources.update_status w; pure (processed requeue_off none w)

unfoldable pub skip_recovery : WildFlyServer → ℤ → List Pod → M Processed
unfolding save_skipped
skip_recovery w n pods = elim (mark_clean (pos_part n) (reverse pods) w.status.pods) [
  | none ↦ crash
  | some statuses ↦ save_skipped (scaling_down (with_pods w statuses) n)
]
