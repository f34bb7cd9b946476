-- ===== src/Remote/Over/Recovered.antt =====
-- processTransactionRecoveryScaleDown of controllers/transaction_recovery.go over the operations of pkg/util/remote_ops.go.
use wildfly_operator.Prelude.{◌≡◌, ◌≤◌, subst, ◌⊎◌, inl, inr, List, String, Any, Any-weaken, length}
use wildfly_operator.Prelude.Int.{ℤ, pos_part}
use wildfly_operator.Kube.{Pod}
use wildfly_operator.Api.{WildFlyServer}
use wildfly_operator.World.{Env, History, done}
use wildfly_operator.World.Rules.{Ends, Anything, IsHonest, IsHonest-Extends, IsHonest-append}
use wildfly_operator.Recovery.Process.{process_recovery}
use wildfly_operator.Recovery.Process.Skip.{Processed}
use wildfly_operator.Recovery.Process.Total.{KnownIfAsMany, process_recovery-Runs}
use wildfly_operator.Recovery.Process.CleanOnes.{IsCleanIn, EvidenceBefore}
use wildfly_operator.Recovery.Process.Grounds.{MaySkip}
use wildfly_operator.Recovery.Process.Grounds.Whole.{process_recovery-clean}
use wildfly_operator.Remote.{RemotePod, Backend}
use wildfly_operator.Remote.Over.{over}
use wildfly_operator.Remote.Over.Clean.{Seen, Seen-Later, Evidence-Seen}

module _ (backend : History → Backend) (pods : String → RemotePod) (env : Env) where
  -- The evidence lies in an earlier part of an honest history.
  before-Seen :
      (p : Pod) (h : History)
      → IsHonest (over backend pods env) h
      → EvidenceBefore (over backend pods env) p h
      → Seen backend pods env p h
  before-Seen p h honest (h1, evidence, (new, e, answered)) =
      Seen-Later backend pods env p h1 h (new, e)
        (Evidence-Seen backend pods env p
          (IsHonest-append (over backend pods env) new h1
            (subst (IsHonest (over backend pods env)) e honest))
          evidence)

  -- Where no more pods are to be removed than there are, each pod has a status if the statuses are as
  -- many as the pods, and the history before holds what was answered: the recovery leaves a status
  -- clean only where it was clean before; where it is that of one of the pods and, by the end, either
  -- its recovery listener was read as off, or the scan was sent to it and replied to with a whole
  -- line, right after that its log since some time was read to the end with no line of the
  -- recovery's errors, then its transactions were read as none, and right after that its data
  -- directory was listed as empty; or where the recovery may be skipped.
  pub process_recovery-Seen :
      (w : WildFlyServer) (n : ℤ) (name : String) (ps : List Pod) (h h' : History) (q : Processed)
      → IsHonest (over backend pods env) h
      → pos_part n ≤ length ps
      → KnownIfAsMany w ps
      → process_recovery w n ps (over backend pods env) h ≡ (done q, h')
      → IsCleanIn q.server.status.pods name
      → IsCleanIn w.status.pods name
        ⊎ Any (λ p. (p.name ≡ name) × Seen backend pods env p h') ps
        ⊎ Any (λ p. MaySkip (over backend pods env) w p) ps
  process_recovery-Seen w n name ps h h' q honest enough known e clean_one =
      let env' = over backend pods env in
      let (u, grows) =
        subst (Ends env' Anything h) e ((process_recovery-Runs w n ps enough known).at env' h) in
      let honest' = IsHonest-Extends env' honest grows in
      elim (process_recovery-clean env' w n name ps h h' q enough known e clean_one) [
        | inl was ↦ inl was
        | inr (inl proved) ↦
            inr (inl (Any-weaken (λ (p : Pod) x. (x.0, before-Seen p h' honest' x.1)) ps proved))
        | inr (inr skips) ↦ inr (inr skips)
      ]
