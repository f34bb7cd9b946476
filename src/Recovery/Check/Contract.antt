-- ===== src/Recovery/Check/Contract.antt =====
-- checkRecovery of controllers/transaction_recovery.go always ends; what its result, its error and
-- the pod that it leaves have to do with one another.
use wildfly_operator.Prelude.{
  ℕ, ◌≡◌, refl, ◌⊎◌, inl, inr, Bool, true, false, Option, none, some, List, [], ◌∷◌, String,
  StringMap, str_eq, arith, is_none, if◌then◌else◌,
}
use wildfly_operator.Prelude.Int.{ℤ}
use wildfly_operator.Json.{Fields}
use wildfly_operator.Kube.{ApiError, Pod}
use wildfly_operator.Api.{WildFlyServer}
use wildfly_operator.World.{M, Result, ok, err, RemoteError, pure, ◌>>=◌}
use wildfly_operator.World.Rules.{Runs, Anything, Runs-pure, Runs-bind, Runs-if, Runs-weaken}
use wildfly_operator.Mgmt.{MgmtError}
use wildfly_operator.Mgmt.Total.{mgmt_total, execute_mgmt_op-Runs, execute-Runs}
use wildfly_operator.Resources.Total.{patch-Runs}
use wildfly_operator.Recovery.Types.{
  CheckResult, clean, recovery, heuristic, generic_error, RecoveryError, heuristics_not_read,
  heuristics_refused,
}
use wildfly_operator.Recovery.Check.{
  Checked, failing, result_is, check_data_dir, check_heuristics, found_heuristic, or_next, in_doubt,
  after_probe, check_transactions, after_log, check_log, after_scan, run_scan, scan_if_saved,
  save_port, query_port, after_listener, set_up_port, saved_port, after_time, check_recovery,
  listing,
}

-- Only the annotations of the pod change, and an error comes with the generic result.
pub record IsCheckOf (p : Pod) (c : Checked) : Type 0 where
  pub annotations : StringMap
  pub same_pod : c.pod_after ≡ record p { annotations = annotations }
  pub error_is_generic : (is_none c.error ≡ true) ⊎ (c.outcome ≡ generic_error)

failing-IsCheckOf : (e : RecoveryError) (p : Pod) → IsCheckOf p (failing e p)
failing-IsCheckOf e p = record {
  annotations = p.annotations;
  same_pod = refl;
  error_is_generic = inr refl;
}

result_is-IsCheckOf : (c : CheckResult) (p : Pod) → IsCheckOf p (result_is c p)
result_is-IsCheckOf c p = record {
  annotations = p.annotations;
  same_pod = refl;
  error_is_generic = inl refl;
}

annotated-IsCheckOf :
    (p : Pod) (a : StringMap) (c : Checked)
    → IsCheckOf (record p { annotations = a }) c
    → IsCheckOf p c
annotated-IsCheckOf p a c h = record {
  annotations = h.annotations;
  same_pod = h.same_pod;
  error_is_generic = h.error_is_generic;
}

module _ (p : Pod) where
  failing-Runs : (e : RecoveryError) → Runs (IsCheckOf p) (pure (failing e p))
  failing-Runs e = Runs-pure (IsCheckOf p) (failing e p) (failing-IsCheckOf e p)

  result_is-Runs : (c : CheckResult) → Runs (IsCheckOf p) (pure (result_is c p))
  result_is-Runs c = Runs-pure (IsCheckOf p) (result_is c p) (result_is-IsCheckOf c p)

  -- A request of which only the answer matters, and then a check.
  then_check :
      {A : Type 0} (m : M A) (k : A → M Checked)
      → Runs Anything m
      → ((a : A) → Runs (IsCheckOf p) (k a))
      → Runs (IsCheckOf p) (m >>= k)
  then_check m k total all = Runs-bind Anything (IsCheckOf p) k m total (λ a x. all a)

  if_check :
      (b : Bool) (m n : M Checked)
      → Runs (IsCheckOf p) m
      → Runs (IsCheckOf p) n
      → Runs (IsCheckOf p) (if b then m else n)
  if_check b m n km kn = Runs-if (IsCheckOf p) b m n (λ e. km) (λ e. kn)

ruleset check_rules = (mgmt_total, failing-Runs, result_is-Runs, then_check, if_check)

either :
    (p : Pod) (b : Bool) (c d : CheckResult)
    → IsCheckOf p (if b then result_is c p else result_is d p)
either p true c d = result_is-IsCheckOf c p
either p false c d = result_is-IsCheckOf d p

listing-IsCheckOf :
    (p : Pod) (answer : String × Option RemoteError) → IsCheckOf p (listing p answer)
listing-IsCheckOf p (out, some e) = failing-IsCheckOf _ p
listing-IsCheckOf p (out, none) = either p (str_eq out "") clean recovery

found_heuristic-cases :
    (p : Pod) (r : Result MgmtError Fields) {c : Checked}
    → found_heuristic p r ≡ some c
    → (c ≡ failing heuristics_not_read p)
      ⊎ (c ≡ failing heuristics_refused p)
      ⊎ (c ≡ result_is heuristic p)
found_heuristic-cases p (err e) h = ground arith
found_heuristic-cases p (ok body) h = ground arith

module _ (p : Pod) where
  check_data_dir-Runs : Runs (IsCheckOf p) (check_data_dir p)
  unfolding check_data_dir
  check_data_dir-Runs =
      then_check p _ _ (execute-Runs p _)
        (λ a. Runs-pure (IsCheckOf p) (listing p a) (listing-IsCheckOf p a))

  found_heuristic-IsCheckOf :
      (r : Result MgmtError Fields) {c : Checked} → found_heuristic p r ≡ some c → IsCheckOf p c
  found_heuristic-IsCheckOf r h = elim (found_heuristic-cases p r h) [
    | inl e ↦ rw e (failing-IsCheckOf _ p)
    | inr (inl e) ↦ rw e (failing-IsCheckOf _ p)
    | inr (inr e) ↦ rw e (result_is-IsCheckOf _ p)
  ]

  or_next-Runs :
      (o : Option Checked) (next : M Checked)
      → ((c : Checked) → o ≡ some c → IsCheckOf p c)
      → Runs (IsCheckOf p) next
      → Runs (IsCheckOf p) (or_next o next)
  or_next-Runs (some c) next found more = Runs-pure (IsCheckOf p) c (found c refl)
  or_next-Runs none next found more = more

  check_heuristics-Runs : (kinds : List String) → Runs (IsCheckOf p) (check_heuristics p kinds)
  unfolding check_heuristics
  check_heuristics-Runs [] = result_is-Runs p recovery
  check_heuristics-Runs (k ∷ kinds) = then_check p _ _ (execute_mgmt_op-Runs p _) λ r.
      or_next-Runs (found_heuristic p r) _ (λ c e. found_heuristic-IsCheckOf r e)
        (check_heuristics-Runs kinds)

  in_doubt-Runs : (r : Result MgmtError Fields) → Runs (IsCheckOf p) (in_doubt p r)
  unfolding in_doubt
  in_doubt-Runs (err e) = failing-Runs p _
  in_doubt-Runs (ok body) = search (check_rules, check_heuristics-Runs, check_data_dir-Runs)

  after_probe-Runs : (r : Result MgmtError Fields) → Runs (IsCheckOf p) (after_probe p r)
  unfolding after_probe
  after_probe-Runs (err e) = failing-Runs p _
  after_probe-Runs (ok body) = search (check_rules, in_doubt-Runs)

  check_transactions-Runs : Runs (IsCheckOf p) (check_transactions p)
  unfolding check_transactions
  check_transactions-Runs = search (check_rules, after_probe-Runs)

  after_log-Runs : (r : Result RemoteError String) → Runs (IsCheckOf p) (after_log p r)
  unfolding after_log
  after_log-Runs (err e) = failing-Runs p _
  after_log-Runs (ok line) = search (check_rules, check_transactions-Runs)

  check_log-Runs : (since : ℕ) → Runs (IsCheckOf p) (check_log p since)
  unfolding check_log
  check_log-Runs since = search (check_rules, after_log-Runs)

  failing_annotated-Runs :
      (e : RecoveryError) (a : StringMap)
      → Runs (IsCheckOf p) (pure (failing e (record p { annotations = a })))
  failing_annotated-Runs e a =
      Runs-weaken _ _ _ (annotated-IsCheckOf p a) (failing-Runs (record p { annotations = a }) e)

  after_scan-Runs : (since : ℕ) (r : Option RemoteError) → Runs (IsCheckOf p) (after_scan p since r)
  unfolding after_scan
  after_scan-Runs since none = check_log-Runs since
  after_scan-Runs since (some e) = search (check_rules, failing_annotated-Runs)

  run_scan-Runs : (since : ℕ) (port : ℤ) → Runs (IsCheckOf p) (run_scan p since port)
  unfolding run_scan
  run_scan-Runs since port = search (check_rules, after_scan-Runs)

module _ (w : WildFlyServer) (p : Pod) (since : ℕ) where
  scan_if_saved-Runs :
      (a : StringMap) (port : ℤ) (e : Option ApiError)
      → Runs (IsCheckOf p) (scan_if_saved (record p { annotations = a }) since port e)
  scan_if_saved-Runs a port (some e) =
      Runs-weaken _ _ _ (annotated-IsCheckOf p a) (failing-Runs (record p { annotations = a }) _)
  scan_if_saved-Runs a port none =
      Runs-weaken _ _ _ (annotated-IsCheckOf p a)
        (run_scan-Runs (record p { annotations = a }) since port)

  save_port-Runs : (port : ℤ) → Runs (IsCheckOf p) (save_port w p since port)
  unfolding save_port
  save_port-Runs port = then_check p _ _ (patch-Runs w _) (scan_if_saved-Runs _ port)

  query_port-Runs : Runs (IsCheckOf p) (query_port w p since)
  unfolding query_port
  query_port-Runs = search (check_rules, save_port-Runs)

  after_listener-Runs :
      (r : Result MgmtError Fields) → Runs (IsCheckOf p) (after_listener w p since r)
  unfolding after_listener
  after_listener-Runs (err e) = failing-Runs p _
  after_listener-Runs (ok body) = search (check_rules, query_port-Runs)

  set_up_port-Runs : Runs (IsCheckOf p) (set_up_port w p since)
  unfolding set_up_port
  set_up_port-Runs = search (check_rules, after_listener-Runs)

  saved_port-Runs : (port : Option ℤ) → Runs (IsCheckOf p) (saved_port w p since port)
  unfolding saved_port
  saved_port-Runs (some port) = run_scan-Runs p since _
  saved_port-Runs none = search (check_rules, patch-Runs, failing_annotated-Runs)

module _ (w : WildFlyServer) (p : Pod) where
  after_time-Runs : (r : Result RemoteError ℕ) → Runs (IsCheckOf p) (after_time w p r)
  unfolding after_time
  after_time-Runs (err e) = failing-Runs p _
  after_time-Runs (ok since) = search (check_rules, set_up_port-Runs, saved_port-Runs)

  -- The check always ends, whatever the environment answers: of the pod only the annotations differ,
  -- an error comes with the generic result, and the history grows.
  pub check_recovery-Runs : Runs (IsCheckOf p) (check_recovery w p)
  unfolding check_recovery
  check_recovery-Runs = search (check_rules, after_time-Runs)
