-- ===== src/Remote/Over/Clean.antt =====
-- What the log, the socket and the command line of a pod have said when the recovery of
-- controllers/transaction_recovery.go calls it clean over pkg/util/remote_ops.go.
use wildfly_operator.Prelude.{
  ℕ, ◌≡◌, refl, sym, ap, subst, ◌∙◌, inl, inr, false, true, Bool, Option, none, some, List, [], ◌∷◌,
  ◌++◌, String, codes, All, All-weaken, true_is_false,
}
use wildfly_operator.Prelude.Int.{ℤ}
use wildfly_operator.Json.{Fields}
use wildfly_operator.Kube.{Pod}
use wildfly_operator.World.{
  Env, Event, History, Result, ok, err, RemoteError, executed, log_searched, connected, recorded,
}
use wildfly_operator.World.Rules.{IsHonest, IsHonest-Answered}
use wildfly_operator.Mgmt.{cli_command, txn_probe, txn_read, txn_check_recovery_listener}
use wildfly_operator.Remote.{RemotePod, Stream, Backend, Failure, Call, log_not_read}
use wildfly_operator.Remote.Lines.{split_lines, drop_cr, is_too_long}
use wildfly_operator.Remote.Patterns.{
  is_recovery_error, finds, matches_here, after_dots, starts_with,
}
use wildfly_operator.Remote.Patterns.Meaning.{Holds, is_recovery_error_iff}
use wildfly_operator.Remote.Exec
use wildfly_operator.Remote.Socket
use wildfly_operator.Remote.Replied.{IsReplied, socket_connect-IsReplied}
use wildfly_operator.World.Emits.{Later, Later-trans}
use wildfly_operator.Remote.Logs.{
  read_pod_log, search_log, time_limiting_pod_log_options, verify_log_contains_regexp,
}
use wildfly_operator.Remote.Logs.Search.{Passes, search_log_iff}
use wildfly_operator.Remote.Over.{over, plain, failure_of, plain_output}
use wildfly_operator.Recovery.Types.{txn_recovery_scan_command}
use wildfly_operator.Recovery.Check.{has_transactions, listener_disabled, ls_command}
use wildfly_operator.Recovery.Check.Evidence.{Evidence, Answers, disabled, recovered}

ok_of_plain : {A : Type 0} (r : Result Failure A) {a : A} → plain r ≡ ok a → r ≡ ok a
ok_of_plain (ok x) h = cc
ok_of_plain (err e) h = absurd cc

-- An answer of the search is the search of a log that was opened.
module _ (p : RemotePod) (since : Option ℕ) (test : String → Bool) (b : Backend) (calls : List Call)
    (x : String) where
  opened :
      (r : Result Failure Stream)
      → (read_pod_log p (time_limiting_pod_log_options since) b calls).0 ≡ r
      → (verify_log_contains_regexp p since test b calls).0 ≡ ok x
      → (s : Stream) × ((read_pod_log p (time_limiting_pod_log_options since) b calls).0 ≡ ok s)
        × (search_log test s ≡ ok x)
  unfolding verify_log_contains_regexp
  opened (ok s) e h = (s, e, rw e at h)
  opened (err f) e h = let wrong : err (log_not_read f) ≡ ok x = rw e at h in absurd cc

  verify-ok :
      (verify_log_contains_regexp p since test b calls).0 ≡ ok x
      → (s : Stream) × ((read_pod_log p (time_limiting_pod_log_options since) b calls).0 ≡ ok s)
        × (search_log test s ≡ ok x)
  verify-ok h = opened _ refl h

-- A line that the scanner gives whole and that has no "ERROR" with a later "Periodic Recovery".
abbrev pub IsHarmless : String → Type 0
IsHarmless line =
    (is_too_long line ≡ false)
    × ¬ Holds (codes "ERROR") (codes "Periodic Recovery") (codes (drop_cr line))

Passes-IsHarmless : (line : String) → Passes is_recovery_error line → IsHarmless line
Passes-IsHarmless line (short, other) =
    (short, λ h. true_is_false (sym ((is_recovery_error_iff (drop_cr line)).1 h) ∙ other))

-- The log of the stream was read to its end and every line of it is harmless.
abbrev pub IsQuietLog : Stream → Type 0
IsQuietLog s = (s.failure ≡ none) × All IsHarmless (split_lines s.content)

empty-not-error : is_recovery_error "" ≡ false
unfolding is_recovery_error finds matches_here after_dots starts_with
empty-not-error = refl

search_log-IsQuietLog : (s : Stream) → search_log is_recovery_error s ≡ ok "" → IsQuietLog s
search_log-IsQuietLog s h = elim ((search_log_iff is_recovery_error s "").0 h) [
  | inl (before, line, after, split, all, short, found, is) ↦
      true_is_false (sym found ∙ (ap is_recovery_error (sym is) ∙ empty-not-error))
  | inr (a, b, all) ↦ (b, All-weaken Passes-IsHarmless (split_lines s.content) all)
]

-- The history after the scan and the search of the log, with later requests in front.
abbrev pub requests_after : History → Pod → ℤ → ℕ → List Event → History
requests_after scanned p port since later =
    later
    ++ (log_searched p.name since (ok "")
        ∷ connected p.pod_ip port txn_recovery_scan_command none
        ∷ scanned)

-- What was seen of the pod up to now: its listener was read as off; or the scan was sent to it at some port
-- and replied to with a whole line, right after that its log since some time was read and was quiet,
-- then its transactions were probed and read as none, and right after that its data directory was listed
-- as empty.
pub data Seen (backend : History → Backend) (pods : String → RemotePod) (env : Env) (p : Pod)
    (now : History) : Type 0 where
  listener_off :
      {out : String} {e : Option RemoteError} {body : Fields} (h : History)
      → plain_output
          (Exec.execute (pods p.name) (cli_command txn_check_recovery_listener) (backend h) []).0
        ≡ (out, e)
      → Answers (over backend pods env) out e body
      → listener_disabled body ≡ true
      → Later (executed p.name (cli_command txn_check_recovery_listener) out e ∷ h) now
      → Seen backend pods env p now
  quiet :
      (port : ℤ) (since : ℕ) {s : Stream} {probe reading : Event} {out : String}
      {e : Option RemoteError} {body : Fields} (scanned : History)
      → IsReplied
          (backend scanned)
          p.pod_ip
          port
          txn_recovery_scan_command
          (Socket.socket_connect p.pod_ip port txn_recovery_scan_command (backend scanned) []).1
      → (read_pod_log
          (pods p.name)
          (time_limiting_pod_log_options (some since))
          (backend (connected p.pod_ip port txn_recovery_scan_command none ∷ scanned))
          []).0
        ≡ ok s
      → IsQuietLog s
      → plain_output
          (Exec.execute
            (pods p.name)
            (cli_command txn_read)
            (backend (requests_after scanned p port since (probe ∷ [])))
            []).0
        ≡ (out, e)
      → Answers (over backend pods env) out e body
      → has_transactions body ≡ false
      → plain_output
          (Exec.execute
            (pods p.name)
            ls_command
            (backend (requests_after scanned p port since (reading ∷ probe ∷ [])))
            []).0
        ≡ ("", none)
      → Later
          (requests_after scanned p port since
            (executed p.name ls_command "" none ∷ reading ∷ probe ∷ []))
          now
      → Seen backend pods env p now

no_failure : (r : Result Failure String) → failure_of r ≡ none → (m : String) × (r ≡ ok m)
no_failure (ok m) e = (m, refl)
no_failure (err f) e = absurd cc

module _ (backend : History → Backend) (pods : String → RemotePod) (env : Env) (p : Pod) where
  log-quiet :
      (since : ℕ) (h : History)
      → (over backend pods env).log_contains h p.name since ≡ ok ""
      → (s : Stream) × ((read_pod_log
            (pods p.name)
            (time_limiting_pod_log_options (some since))
            (backend h)
            []).0
          ≡ ok s)
        × IsQuietLog s
  unfolding over
  log-quiet since h e =
      let (s, opens, quiet_one) =
        verify-ok (pods p.name) (some since) is_recovery_error (backend h) [] ""
          (ok_of_plain _ e) in
      (s, opens, search_log-IsQuietLog s quiet_one)

  replied :
      (port : ℤ) (h : History)
      → (over backend pods env).socket_connect h p.pod_ip port txn_recovery_scan_command ≡ none
      → IsReplied
          (backend h)
          p.pod_ip
          port
          txn_recovery_scan_command
          (Socket.socket_connect p.pod_ip port txn_recovery_scan_command (backend h) []).1
  unfolding over
  replied port h e =
      let talk = Socket.socket_connect p.pod_ip port txn_recovery_scan_command (backend h) [] in
      let (m, is_ok) = no_failure talk.0 e in
      socket_connect-IsReplied (backend h) p.pod_ip port txn_recovery_scan_command is_ok

  -- Each answer of the evidence is one of the remote operations.
  pub Evidence-Seen :
      {h : History}
      → IsHonest (over backend pods env) h
      → Evidence (over backend pods env) p h
      → Seen backend pods env p h
  unfolding over
  Evidence-Seen honest (disabled {out = out} {e = e} {h = h0} answers off trace) =
      let env' = over backend pods env in
      let top = subst (IsHonest env') trace honest in
      listener_off h0
        (IsHonest-Answered env' (recorded "WildFlyServerTransactionRecovery" ∷ [])
          (executed p.name (cli_command txn_check_recovery_listener) out e) h0 top)
        answers off (recorded "WildFlyServerTransactionRecovery" ∷ [], trace)
  Evidence-Seen honest
        (recovered {port = port} {since = since} {out = out} {out' = out'} {e = e} {e' = e'}
          {h = h0} probed answers none_left trace) =
      let env' = over backend pods env in
      let top = subst (IsHonest env') trace honest in
      let scan = connected p.pod_ip port txn_recovery_scan_command none in
      let search_it = log_searched p.name since (ok "") in
      let probe = executed p.name (cli_command txn_probe) out e in
      let reading = executed p.name (cli_command txn_read) out' e' in
      let list = executed p.name ls_command "" none in
      let a = IsHonest-Answered env' [] list (reading ∷ probe ∷ search_it ∷ scan ∷ h0) top in
      let b = IsHonest-Answered env' (list ∷ []) reading (probe ∷ search_it ∷ scan ∷ h0) top in
      let d = IsHonest-Answered env' (list ∷ reading ∷ probe ∷ []) search_it (scan ∷ h0) top in
      let f = IsHonest-Answered env' (list ∷ reading ∷ probe ∷ search_it ∷ []) scan h0 top in
      let (s, opens, quiet_one) = log-quiet since (scan ∷ h0) d in
      quiet port since {probe = probe} {reading = reading} h0 (replied port h0 f) opens quiet_one b
        answers none_left a ([], trace)

-- What was seen stays so.
pub Seen-Later :
    (backend : History → Backend) (pods : String → RemotePod) (env : Env) (p : Pod)
    (h now : History)
    → Later h now
    → Seen backend pods env p h
    → Seen backend pods env p now
Seen-Later backend pods env p h now later (listener_off h0 a b c d) =
    listener_off h0 a b c (Later-trans d later)
Seen-Later backend pods env p h now later
      (quiet port since {probe = probe} {reading = reading} h0 a b c d e f g i) =
    quiet port since {probe = probe} {reading = reading} h0 a b c d e f g (Later-trans i later)
