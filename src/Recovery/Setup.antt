-- ===== src/Recovery/Setup.antt =====
-- setupRecoveryPropertiesAndRestart of controllers/transaction_recovery.go.
pub mod Contract
pub mod Quiet
use wildfly_operator.Prelude.{
  ℕ, Bool, true, false, Option, none, some, List, [], ◌∷◌, String, str_eq, lookup, insert, not,
  ◌&&◌, if◌then◌else◌,
}
use wildfly_operator.Json.{object, Fields}
use wildfly_operator.Kube.{ApiError, Pod, PodPhase, running}
use wildfly_operator.Api.{WildFlyServer}
use wildfly_operator.World.{M, Result, pod, ◌>>=◌, ◌>>◌, pure}
use wildfly_operator.Util.Convert.{convert_to_string, string_or_empty}
use wildfly_operator.Mgmt.{
  MgmtError, execute, execute_mgmt_op, execute_op_and_wait, body_or_nil, is_app_server_running,
  is_outcome_successful, read_json, restart_op,
}
use wildfly_operator.Resources
use wildfly_operator.Recovery.Types.{
  RecoveryError, setup_failed, restart_failed, setup_not_saved, requeue_off, requeue_later,
  requeue_now, marker_recovery_properties_setup, text_or_empty,
}

-- mustReconcile, the error, and the pod with its annotations.
pub record Prepared : Type 0 where
  pub must_reconcile : ℕ
  pub error : Option RecoveryError
  pub pod_after : Pod

abbrev pub prepared : ℕ → Option RecoveryError → Pod → Prepared
prepared n e p = record { must_reconcile = n; error = e; pod_after = p }

-- The two periods and the switch of the transaction manager, in one operation.
abbrev pub set_properties_op : String
set_properties_op =
    "/system-property=com.arjuna.ats.arjuna.common.RecoveryEnvironmentBean.recoveryBackoffPeriod:add(value=1),/system-property=com.arjuna.ats.jta.common.JTAEnvironmentBean.orphanSafetyInterval:add(value=1),/system-property=com.arjuna.ats.arjuna.common.CoordinatorEnvironmentBean.startDisabled:add(value=true)"

abbrev pub marker_dir_op : String
marker_dir_op =
    "/system-property=org.wildfly.internal.cli.boot.hook.marker.dir:add(value=/tmp/markerdir)"

abbrev pub mkdir_command : List String
mkdir_command =
    "/bin/sh" ∷ "-c"
    ∷ "mkdir /tmp/markerdir && touch /tmp/markerdir/wf-cli-shutdown-initiated || true" ∷ []

abbrev pub with_setup : Pod → Pod
with_setup p = record p {
  annotations = insert marker_recovery_properties_setup "true" p.annotations;
}

abbrev saved_setup : Pod → Option ApiError → Prepared
saved_setup p (some e) = prepared requeue_now (some setup_not_saved) p
saved_setup p none = prepared requeue_off none p

-- A failed restart deletes the pod, and an error of that is dropped.
after_restart : WildFlyServer → Pod → Option MgmtError → M Prepared
after_restart w p (some e) = do
  Resources.delete (pod p)
  pure (prepared requeue_now (some restart_failed) p)
after_restart w p none = do
  e ← Resources.patch w (pod (with_setup p))
  pure (saved_setup (Resources.marked_pod w (with_setup p)) e)

restart : WildFlyServer → Pod → M Prepared
restart w p = do
  execute p mkdir_command
  execute_mgmt_op p marker_dir_op
  e ← execute_op_and_wait restart_op p
  after_restart w p e

-- An operation that was rolled back has set the properties before.
rolled_back : Result MgmtError Fields → String
rolled_back r =
    string_or_empty (convert_to_string (read_json (object (body_or_nil r)) ("rolled-back" ∷ [])))

after_properties : WildFlyServer → Pod → Result MgmtError Fields → M Prepared
unfolding rolled_back
after_properties w p r =
    if not (is_outcome_successful (body_or_nil r)) && not (str_eq (rolled_back r) "true")
    then pure (prepared requeue_later (some setup_failed) p)
    else restart w p

set_properties : WildFlyServer → Pod → M Prepared
unfolding restart after_restart after_properties
set_properties w p = do r ← execute_mgmt_op p set_properties_op; after_properties w p r

abbrev pub is_running : PodPhase → Bool
is_running running = true
is_running _ = false

abbrev pub setup_annotation : Pod → String
setup_annotation p = text_or_empty (lookup marker_recovery_properties_setup p.annotations)

after_running : WildFlyServer → Pod → Option MgmtError → M Prepared
after_running w p (some e) = pure (prepared requeue_later none p)
after_running w p none =
    if str_eq (setup_annotation p) ""
    then set_properties w p
    else pure (prepared requeue_off none p)

unfoldable pub set_up_recovery : WildFlyServer → Pod → M Prepared
unfolding after_running set_properties
set_up_recovery w p =
    if is_running p.phase
    then (do e ← is_app_server_running p; after_running w p e)
    else pure (prepared requeue_later none p)
