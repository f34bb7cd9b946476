-- ===== src/Recovery/Process.antt =====
-- processTransactionRecoveryScaleDown and skipRecoveryAndForceScaleDown of
-- controllers/transaction_recovery.go. The goroutines, one to a pod, are run one after another in
-- the order in which they are started; Recovery/Race has what they share.
pub mod Skip
pub mod OnePod
pub mod Frame
pub mod Loops
pub mod Total
pub mod Quiet
pub mod CleanOnes
pub mod Grounds
use mathlib.Core.List.{reverse}
use Prim.Native.Nat.{max}
use wildfly_operator.Prelude.{
  ℕ, zero, suc, ◌+◌, ◌≡◌, refl, Bool, true, false, Option, none, some, List, [], ◌∷◌, String,
  str_eq, not, ◌||◌, ◌&&◌, ◌==◌, length, is_empty, is_none, if◌then◌else◌,
}
use wildfly_operator.Prelude.Int.{ℤ, pos, int32, eqb_ℤ, pos_part}
use wildfly_operator.Json.{Value}
use wildfly_operator.Kube.{ApiError, Pod}
use wildfly_operator.Api.{
  PodState, active, recovery_investigation, is_active, PodStatus, StorageSpec, WildFlyServer,
}
use wildfly_operator.World.{M, Result, ok, err, ◌>>=◌, ◌>>◌, pure, crash, record_event}
use wildfly_operator.Util.Convert.{convert_to_string}
use wildfly_operator.Mgmt.{MgmtError, execute_and_get_result, list_subsystems, txn_check_jdbc_store}
use wildfly_operator.Resources
use wildfly_operator.Recovery.Types.{
  RecoveryError, found_errors, mgmt, status_not_saved, status_not_saved_after, requeue_off,
  requeue_later, requeue_now, parse_bool,
}
use wildfly_operator.Recovery.Setup.{is_running}
use wildfly_operator.Recovery.Statuses.{find_status, put_status, with_pods, with_state}
use Skip.{Processed, processed, skip_recovery, scaling_down}
use OnePod.{PodDone, recover_pod}

-- ContainsInList of pkg/util/go_utilities.go.
unfoldable pub contains_in_list : List String → String → Bool
contains_in_list [] s = false
contains_in_list (v ∷ vs) s = str_eq v s || contains_in_list vs s

abbrev jdbc_answer : Result MgmtError Value → Option Bool
jdbc_answer (err e) = none
jdbc_answer (ok v) = elim (convert_to_string v) [ err e ↦ none | ok s ↦ parse_bool s ]

-- `none` is any of the function's errors.
unfoldable pub is_jdbc_log_store_in_use : Pod → M (Option Bool)
is_jdbc_log_store_in_use p = do
  r ← execute_and_get_result p txn_check_jdbc_store
  pure (jdbc_answer r)

-- `podList.Items[index]` from the last pod downwards, `rounds` times; `none` is an index below 0.
unfoldable pub last_pods : ℕ → List Pod → Option (List Pod)
last_pods zero pods = some []
last_pods (suc rounds) [] = none
last_pods (suc rounds) (p ∷ pods) = elim (last_pods rounds pods) [
  | none ↦ none
  | some rest ↦ some (p ∷ rest)
]

unfoldable pub running_pods : List Pod → List Pod
running_pods [] = []
running_pods (p ∷ pods) = if is_running p.phase then p ∷ running_pods pods else running_pods pods

-- The statuses after the first loop, and whether one of them changed; `none` is a nil pointer.
unfoldable pub start_investigation :
    List Pod → List PodStatus → Bool → Option (List PodStatus × Bool)
start_investigation [] statuses changed = some (statuses, changed)
start_investigation (p ∷ pods) statuses changed = elim (find_status p.name statuses) [
  | none ↦ none
  | some s ↦
      start_investigation pods
        (if is_active s.state
          then put_status p.name (with_state s recovery_investigation) statuses
          else statuses)
        (changed || is_active s.state)
]

-- What the goroutines leave: mustReconcile, the errors' number, the statuses, the update flag.
pub record Round : Type 0 where
  pub must_reconcile : ℕ
  pub errors : ℕ
  pub statuses : List PodStatus
  pub changed : Bool

abbrev pub add_done : String → PodDone → Round → Round
add_done name d r = record {
  must_reconcile = max r.must_reconcile d.must_reconcile;
  errors = if is_none d.error then r.errors else suc r.errors;
  statuses = put_status name d.status r.statuses;
  changed = r.changed || d.changed;
}

abbrev with_found : Option PodStatus → (PodStatus → M Round) → M Round
with_found none k = crash
with_found (some s) k = k s

unfoldable pub recover_pods : WildFlyServer → List Pod → Round → M Round
recover_pods w [] r = pure r
recover_pods w (p ∷ pods) r =
    with_found (find_status p.name r.statuses)
      (λ s. do d ← recover_pod w p s; recover_pods w pods (add_done p.name d r))

abbrev pub round_error : ℕ → Option RecoveryError
round_error zero = none
round_error (suc n) = some (found_errors (suc n))

abbrev record_errors : ℕ → M (Unit {0})
record_errors zero = pure tt
record_errors (suc n) = record_event "WildFlyServerScaledown"

abbrev pub after_save : ℕ → Option RecoveryError → WildFlyServer → Option ApiError → Processed
after_save n e w (some a) = processed requeue_now (some status_not_saved_after) w
after_save n e w none = processed n e w

-- The second update of the status, where a goroutine asked for it.
finish : WildFlyServer → ℤ → Round → M Processed
finish w n r =
    if r.changed
    then (do
      e ← Resources.update_status (scaling_down (with_pods w r.statuses) n)
      pure (
          after_save r.must_reconcile (round_error r.errors)
            (scaling_down (with_pods w r.statuses) n) e))
    else pure (processed r.must_reconcile (round_error r.errors) (with_pods w r.statuses))

abbrev pub first_round : List PodStatus → Round
first_round statuses = record {
  must_reconcile = requeue_off;
  errors = 0;
  statuses = statuses;
  changed = false;
}

run_round : WildFlyServer → ℤ → List Pod → M Processed
unfolding finish
run_round w n pods = do
  r ← recover_pods w pods (first_round w.status.pods)
  record_errors r.errors
  finish w n r

after_first_save : WildFlyServer → ℤ → List Pod → Option ApiError → M Processed
unfolding run_round
after_first_save w n pods (some e) = pure (processed requeue_now (some status_not_saved) w)
after_first_save w n pods none = run_round w n pods

investigate : WildFlyServer → ℤ → List Pod → Option (List PodStatus × Bool) → M Processed
unfolding after_first_save
investigate w n pods none = crash
investigate w n pods (some (statuses, changed)) =
    if changed
    then (do
      e ← Resources.update_status (scaling_down (with_pods w statuses) n)
      after_first_save (scaling_down (with_pods w statuses) n) n pods e)
    else run_round (with_pods w statuses) n pods

recover_running : WildFlyServer → ℤ → List Pod → M Processed
recover_running w n [] = pure (processed requeue_later none w)
recover_running w n (p ∷ pods) =
    investigate w n (p ∷ pods) (start_investigation (p ∷ pods) w.status.pods false)

-- The pods to scale down, and the recovery of those that run.
unfoldable pub recover_last : WildFlyServer → ℤ → List Pod → M Processed
unfolding recover_running investigate
recover_last w n pods = elim (last_pods (pos_part n) (reverse pods)) [
  | none ↦ crash
  | some chosen ↦ recover_running w n (running_pods chosen)
]

-- `Storage == nil || Storage.EmptyDir != nil`
abbrev pub is_ephemeral : Option StorageSpec → Bool
is_ephemeral none = true
is_ephemeral (some s) = not (is_none s.empty_dir)

after_jdbc : WildFlyServer → ℤ → List Pod → Option Bool → M Processed
after_jdbc w n pods none = pure (processed requeue_later (some (mgmt MgmtError.no_result)) w)
after_jdbc w n pods (some true) = recover_last w n pods
after_jdbc w n pods (some false) = skip_recovery w n pods

after_subsystems : WildFlyServer → ℤ → List Pod → Pod → Result MgmtError (List String) → M Processed
unfolding after_jdbc
after_subsystems w n pods p (err e) = pure (processed requeue_later (some (mgmt e)) w)
after_subsystems w n pods p (ok names) =
    if contains_in_list names "transactions"
    then if is_ephemeral w.spec.storage
      then (do r ← is_jdbc_log_store_in_use p; after_jdbc w n pods r)
      else recover_last w n pods
    else skip_recovery w n pods

process_pods : WildFlyServer → ℤ → List Pod → Pod → M Processed
unfolding after_subsystems
process_pods w n pods p =
    if not (length w.status.pods == length pods)
    then pure (processed requeue_later none w)
    else if w.spec.bootable_jar
    then skip_recovery w n pods
    else if w.spec.deactivate_transaction_recovery
    then skip_recovery w n pods
    else do r ← list_subsystems p; after_subsystems w n pods p r

-- With no pod, or none to remove, there is nothing to do.
unfoldable pub process_recovery : WildFlyServer → ℤ → List Pod → M Processed
unfolding process_pods
process_recovery w n [] = pure (processed requeue_off none w)
process_recovery w n (p ∷ pods) =
    if eqb_ℤ n (pos 0) then pure (processed requeue_off none w) else process_pods w n (p ∷ pods) p
