-- ===== src/Recovery/Labels.antt =====
-- updatePodLabel and setLabelAsDisabled of controllers/transaction_recovery.go. Pods carry labels by
-- which they were listed, so the map of a pod's labels is never nil.
pub mod Disabled
pub mod Total
pub mod Quiet
use wildfly_operator.Prelude.{
  ℕ, zero, suc, Bool, true, false, Option, none, some, List, [], ◌∷◌, String, str_eq, lookup,
  insert, ◌||◌, if◌then◌else◌,
}
use mathlib.Core.List.{reverse}
use wildfly_operator.Prelude.Int.{ℤ, pos_part}
use wildfly_operator.Kube.{ApiError, Pod}
use wildfly_operator.Api.{WildFlyServer}
use wildfly_operator.World.{M, pod, Result, ok, err, ◌>>=◌, pure}
use wildfly_operator.Resources
use wildfly_operator.Recovery.Types.{
  RecoveryError, labels_not_saved, no_such_pod, marker_service_disabled, text_or_empty,
}

abbrev pub with_label : String → String → Pod → Pod
with_label name value p = record p { labels = insert name value p.labels }

abbrev label_saved : Option ApiError → Result ApiError Bool
label_saved (some e) = err e
label_saved none = ok true

-- Whether the label was changed, or why it could not be.
unfoldable pub update_pod_label : WildFlyServer → Pod → String → String → M (Result ApiError Bool)
update_pod_label w p name value =
    if str_eq (text_or_empty (lookup name p.labels)) value
    then pure (ok false)
    else do e ← Resources.patch w (pod (with_label name value p)); pure (label_saved e)

-- The flag and the number of errors after one more pod.
abbrev pub count_label : Result ApiError Bool → Bool × ℕ → Bool × ℕ
count_label (err e) (needed, errors) = (needed, suc errors)
count_label (ok updated) (needed, errors) = (needed || updated, errors)

abbrev pub labels_result : Bool × ℕ → Bool × Option RecoveryError
labels_result (needed, zero) = (needed, none)
labels_result (needed, suc errors) = (true, some (labels_not_saved (suc errors)))

-- The loop over scaleDownIndex: `rounds` pods of the reversed list are left.
unfoldable pub label_loop :
    WildFlyServer → String → ℕ → List Pod → Bool × ℕ → M (Bool × Option RecoveryError)
label_loop w name zero pods state = pure (labels_result state)
label_loop w name (suc rounds) [] state = pure (false, some no_such_pod)
label_loop w name (suc rounds) (p ∷ pods) state = do
  r ← update_pod_label w p name marker_service_disabled
  label_loop w name rounds pods (count_label r state)

unfoldable pub set_label_as_disabled :
    WildFlyServer → String → ℤ → List Pod → M (Bool × Option RecoveryError)
set_label_as_disabled w name n pods = label_loop w name (pos_part n) (reverse pods) (false, 0)
