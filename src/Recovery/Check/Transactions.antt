-- ===== src/Recovery/Check/Transactions.antt =====
-- The part of checkRecovery in controllers/transaction_recovery.go after the scan: what it has seen of
-- the log and of the transactions when it calls a pod clean.
use wildfly_operator.Prelude.{
  ℕ, ◌≡◌, refl, inl, inr, true, false, Bool-cases, Option, none, some, List, [], ◌∷◌, String,
  str_eq, arith, eq_iff,
}
use wildfly_operator.Json.{Fields}
use wildfly_operator.Kube.{Pod}
use wildfly_operator.World.{
  M, Env, History, Event, Result, ok, err, RemoteError, executed, log_searched,
}
use wildfly_operator.Mgmt.{
  MgmtError, execute, execute_mgmt_op, mgmt_body, cli_command, is_outcome_successful, txn_probe,
  txn_read,
}
use wildfly_operator.Recovery.Types.{clean, generic_error}
use wildfly_operator.Recovery.Check.{
  Checked, check_data_dir, check_heuristics, in_doubt, after_probe, check_transactions, after_log,
  check_log, has_transactions, heuristic_types, ls_command, found_heuristic, heuristic_op, or_next,
  listing,
}
use wildfly_operator.Recovery.Check.Evidence.{SaysClean, Answers}

pub generic-ne-clean : ¬ (generic_error ≡ clean)
generic-ne-clean e = cc

listing-clean :
    (p : Pod) (out : String) (e : Option RemoteError)
    → (listing p (out, e)).outcome ≡ clean
    → (out ≡ "") × (e ≡ none)
listing-clean p out (some e) h = cc
listing-clean p out none h = ground (arith, eq_iff out "")

found_heuristic-not-clean :
    (p : Pod) (r : Result MgmtError Fields) {c : Checked}
    → found_heuristic p r ≡ some c
    → ¬ (c.outcome ≡ clean)
found_heuristic-not-clean p (err e) h = λ k. cc
found_heuristic-not-clean p (ok body) h = λ k. ground arith

or_next-not-clean :
    (env : Env) (o : Option Checked) (m : M Checked) (h : History)
    → ((c : Checked) → o ≡ some c → ¬ (c.outcome ≡ clean))
    → ¬ SaysClean (m env h)
    → ¬ SaysClean (or_next o m env h)
or_next-not-clean env (some c) m h found next = found c refl
or_next-not-clean env none m h found next = next

module _ (env : Env) (p : Pod) where
  data_dir-clean :
      (h : History)
      → SaysClean (check_data_dir p env h)
      → (check_data_dir p env h).1 ≡ executed p.name ls_command "" none ∷ h
  unfolding check_data_dir execute
  data_dir-clean h s =
      let answer = env.execute h p.name ls_command in
      let c = listing-clean p answer.0 answer.1 s in rw (c.0, c.1)

  heuristics-not-clean :
      (kinds : List String) (h : History) → ¬ SaysClean (check_heuristics p kinds env h)
  unfolding check_heuristics execute_mgmt_op
  heuristics-not-clean [] h = λ s. cc
  heuristics-not-clean (k ∷ kinds) h =
      let answer = env.execute h p.name (cli_command (heuristic_op k)) in
      let r = mgmt_body env answer in
      or_next-not-clean env (found_heuristic p r) (check_heuristics p kinds)
        (executed p.name (cli_command (heuristic_op k)) answer.0 answer.1 ∷ h)
        (λ c e. found_heuristic-not-clean p r e) (heuristics-not-clean kinds _)

  module _ (h : History) where
    abbrev read_answer : String × Option RemoteError
    read_answer = env.execute h p.name (cli_command txn_read)

    in_doubt-clean :
        (r : Result MgmtError Fields)
        → SaysClean (in_doubt p r env h)
        → (body : Fields) × (r ≡ ok body)
          × (is_outcome_successful body ≡ true)
          × (has_transactions body ≡ false)
          × ((in_doubt p r env h).1 ≡ executed p.name ls_command "" none ∷ h)
    unfolding in_doubt
    in_doubt-clean (err e) s = cc
    in_doubt-clean (ok body) s = elim (Bool-cases (is_outcome_successful body)) [
      | inr f ↦ absurd (generic-ne-clean (rw f at s))
      | inl t ↦ elim (Bool-cases (has_transactions body)) [
        | inl some_left ↦ absurd (heuristics-not-clean heuristic_types h (rw (t, some_left) at s))
        | inr none_left ↦ (
          body,
          refl,
          t,
          none_left,
          rw (t, none_left) (data_dir-clean h (rw (t, none_left) at s)),
        )
      ]
    ]

-- The part of the evidence that the transactions give, from the history before it.
pub record NoTransactions (env : Env) (p : Pod) (h h' : History) : Type 0 where
  pub out : String
  pub error : Option RemoteError
  pub body : Fields
  pub out' : String
  pub error' : Option RemoteError
  pub body' : Fields
  pub probed : mgmt_body env (out, error) ≡ ok body
  pub answers : Answers env out' error' body'
  pub none_left : has_transactions body' ≡ false
  pub trace :
      h'
      ≡ executed p.name ls_command "" none
        ∷ executed p.name (cli_command txn_read) out' error'
        ∷ executed p.name (cli_command txn_probe) out error
        ∷ h

module _ (env : Env) (p : Pod) (h : History) where
  probe_answer : String × Option RemoteError
  probe_answer = env.execute h p.name (cli_command txn_probe)

  probe_event : Event
  unfolding probe_answer
  probe_event = executed p.name (cli_command txn_probe) probe_answer.0 probe_answer.1

  after_probe-clean :
      (r : Result MgmtError Fields)
      → mgmt_body env probe_answer ≡ r
      → SaysClean (after_probe p r env (probe_event ∷ h))
      → NoTransactions env p h (after_probe p r env (probe_event ∷ h)).1
  unfolding after_probe execute_mgmt_op probe_event
  after_probe-clean (err e) q s = absurd (generic-ne-clean s)
  after_probe-clean (ok body) q s =
      let answer = read_answer env p (probe_event ∷ h) in
      let (body', decoded, good, none_left, trace) =
        in_doubt-clean env p
          (executed p.name (cli_command txn_read) answer.0 answer.1 ∷ probe_event ∷ h)
          (mgmt_body env answer) s in
      record {
        out = probe_answer.0;
        error = probe_answer.1;
        body = body;
        out' = answer.0;
        error' = answer.1;
        body' = body';
        probed = q;
        answers = record { decodes = decoded; succeeds = good };
        none_left = none_left;
        trace = trace;
      }

  transactions-clean :
      SaysClean (check_transactions p env h) → NoTransactions env p h (check_transactions p env h).1
  unfolding check_transactions execute_mgmt_op probe_event
  transactions-clean s = after_probe-clean (mgmt_body env probe_answer) refl s

module _ (env : Env) (p : Pod) (since : ℕ) (h : History) where
  log_answer : Result RemoteError String
  log_answer = env.log_contains h p.name since

  after_log-clean :
      (r : Result RemoteError String)
      → SaysClean (after_log p r env (log_searched p.name since r ∷ h))
      → NoTransactions env p
          (log_searched p.name since (ok "") ∷ h)
          (after_log p r env (log_searched p.name since r ∷ h)).1
  unfolding after_log
  after_log-clean (err e) s = absurd (generic-ne-clean s)
  after_log-clean (ok line) s = elim (Bool-cases (str_eq line "")) [
    | inl quiet ↦
        let e = (eq_iff line "").0 quiet in
        rw quiet (
          rw e (
            transactions-clean env p (log_searched p.name since (ok "") ∷ h)
              (rw e at (rw quiet at s))))
    | inr loud ↦ absurd (generic-ne-clean (rw loud at s))
  ]

  pub log-clean :
      SaysClean (check_log p since env h)
      → NoTransactions env p (log_searched p.name since (ok "") ∷ h) (check_log p since env h).1
  unfolding check_log log_answer
  log-clean s = after_log-clean log_answer s
