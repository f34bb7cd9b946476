-- ===== src/Recovery/Process/Frame.antt =====
-- What processTransactionRecoveryScaleDown of controllers/transaction_recovery.go leaves of the server
-- as it was.
use wildfly_operator.Prelude.{
  ℕ, zero, suc, ◌≡◌, refl, sym, ap, ◌∙◌, Bool, true, false, Bool-cases, inl, inr, ◌||◌, Option,
  none, some, List, [], ◌∷◌, String, str_eq, arith, eq_iff, if◌then◌else◌,
}
use wildfly_operator.Prelude.Int.{ℤ}
use wildfly_operator.Kube.{ApiError, Pod}
use wildfly_operator.Api.{PodStatus, WildFlyServer, is_active, recovery_investigation}
use wildfly_operator.World.{M, pure}
use wildfly_operator.World.Rules.{Runs, Runs-pure, Runs-weaken}
use wildfly_operator.Recovery.Types.{RecoveryError, requeue_now, status_not_saved_after}
use wildfly_operator.Recovery.Statuses.{find_status, put_status, with_state}
use wildfly_operator.Recovery.Statuses.Known.{find_status-name}
use wildfly_operator.Recovery.Process.{start_investigation, after_save}
use wildfly_operator.Recovery.Process.Skip.{Processed, processed, mark_clean, cleaned}

-- The names that have a status, in order.
abbrev pub status_names : List PodStatus → List String
status_names [] = []
status_names (s ∷ ss) = s.name ∷ status_names ss

pub put_status-names :
    (k : String) (t : PodStatus) (ss : List PodStatus)
    → t.name ≡ k
    → status_names (put_status k t ss) ≡ status_names ss
unfolding put_status
put_status-names k t [] e = refl
put_status-names k t (s ∷ ss) e = elim (Bool-cases (str_eq k s.name)) [
  | inl here ↦ rw here (ap (λ n. n ∷ status_names ss) (e ∙ ground (arith, eq_iff k s.name)))
  | inr other ↦ rw other (ap (λ ns. s.name ∷ ns) (put_status-names k t ss e))
]

investigated-names :
    (p : Pod) (s : PodStatus) (ss : List PodStatus) (b : Bool)
    → s.name ≡ p.name
    → status_names (if b then put_status p.name (with_state s recovery_investigation) ss else ss)
      ≡ status_names ss
investigated-names p s ss true e = put_status-names p.name _ ss e
investigated-names p s ss false e = refl

pub start_investigation-names :
    (pods : List Pod) (ss : List PodStatus) (b : Bool) (r : List PodStatus × Bool)
    → start_investigation pods ss b ≡ some r
    → status_names r.0 ≡ status_names ss
unfolding start_investigation
start_investigation-names [] ss b r e =
    let same : (ss, b) ≡ r = cc in ap (λ x. status_names x.0) (sym same)
start_investigation-names (p ∷ pods) ss b r e =
    go (start_investigation-names pods) (find_status p.name ss) refl e
  where
    go :
        ((ts : List PodStatus) (c : Bool) (r' : List PodStatus × Bool)
          → start_investigation pods ts c ≡ some r'
          → status_names r'.0 ≡ status_names ts)
        → (found : Option PodStatus) → find_status p.name ss ≡ found
        → (elim found as (λ x. Option (List PodStatus × Bool)) [
          | none ↦ none
          | some s ↦
              start_investigation pods
                (if is_active s.state
                  then put_status p.name (with_state s recovery_investigation) ss
                  else ss)
                (b || is_active s.state)
        ])
          ≡ some r
        → status_names r.0 ≡ status_names ss
    go names none f x = absurd cc
    go names (some s) f x =
        names _ _ r x ∙ investigated-names p s ss (is_active s.state) (find_status-name p.name ss f)

cleaned-names :
    (p : String) (ss : List PodStatus) (found : Option PodStatus)
    → find_status p ss ≡ found
    → status_names (cleaned p found ss) ≡ status_names ss
cleaned-names p ss none e = refl
cleaned-names p ss (some s) e = put_status-names p _ ss (find_status-name p ss e)

pub mark_clean-names :
    (n : ℕ) (pods : List Pod) (ss ts : List PodStatus)
    → mark_clean n pods ss ≡ some ts
    → status_names ts ≡ status_names ss
unfolding mark_clean
mark_clean-names zero pods ss ts e = ap status_names cc
mark_clean-names (suc n) [] ss ts e = absurd cc
mark_clean-names (suc n) (p ∷ pods) ss ts e =
    mark_clean-names n pods _ ts e ∙ cleaned-names p.name ss (find_status p.name ss) refl

-- The server with these statuses and this number of pods that scale down.
abbrev pub with_states : WildFlyServer → List PodStatus → ℤ → WildFlyServer
with_states w ss n = record w { status = record (w.status) { pods = ss; scalingdown_pods = n } }

-- Of the server, only the statuses of its pods and the number of those that scale down have
-- changed, and there is a status for the same names in the same order.
abbrev pub IsFramed : WildFlyServer → Processed → Type 0
IsFramed w q =
    (ss : List PodStatus) × (n : ℤ) × (q.server ≡ with_states w ss n)
    × (status_names ss ≡ status_names w.status.pods)

pub same_server :
    (w : WildFlyServer) (n : ℕ) (e : Option RecoveryError) → IsFramed w (processed n e w)
same_server w n e = (w.status.pods, w.status.scalingdown_pods, refl, refl)

pub pure-IsFramed :
    (w : WildFlyServer) (n : ℕ) (e : Option RecoveryError)
    → Runs (IsFramed w) (pure (processed n e w))
pure-IsFramed w n e = Runs-pure (IsFramed w) (processed n e w) (same_server w n e)

pub IsFramed-states :
    (w : WildFlyServer) (ss : List PodStatus) (d : ℤ) (q : Processed)
    → status_names ss ≡ status_names w.status.pods
    → IsFramed (with_states w ss d) q
    → IsFramed w q
IsFramed-states w ss d q same (ts, n, e, x) = (ts, n, e, x ∙ same)

pub Runs-states :
    (w : WildFlyServer) (ss : List PodStatus) (d : ℤ) (m : M Processed)
    → status_names ss ≡ status_names w.status.pods
    → Runs (IsFramed (with_states w ss d)) m
    → Runs (IsFramed w) m
Runs-states w ss d m same =
    Runs-weaken (IsFramed (with_states w ss d)) (IsFramed w) m (λ q. IsFramed-states w ss d q same)

pub after_save-IsFramed :
    (w : WildFlyServer) (n : ℕ) (e : Option RecoveryError) (a : Option ApiError)
    → IsFramed w (after_save n e w a)
after_save-IsFramed w n e none = same_server w n e
after_save-IsFramed w n e (some a) = same_server w requeue_now (some status_not_saved_after)
