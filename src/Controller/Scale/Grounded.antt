-- ===== src/Controller/Scale/Grounded.antt =====
-- On what grounds checkStatefulSet of controllers/wildflyserver_controller.go leaves a pod out, after
-- processTransactionRecoveryScaleDown of controllers/transaction_recovery.go in the same round.
use mathlib.Core.List.{reverse}
use wildfly_operator.Prelude.{
  ℕ, ◌-◌, ◌^◌, ◌≤◌, ◌<◌, ◌≡◌, refl, sym, subst, ap, ◌∙◌, ◌⊎◌, inl, inr, Bool, false, Option, none,
  some, List, StringMap, length, take, All, All-weaken, All-reverse, is_none,
}
use wildfly_operator.Prelude.Int.{ℤ, pos, pos_part}
use wildfly_operator.Kube.{Pod, StatefulSet}
use wildfly_operator.Api.{PodStatus, WildFlyServer}
use wildfly_operator.World.{Env, History, Event, done}
use wildfly_operator.World.Rules.{Ends, Anything}
use wildfly_operator.World.Emits.{Emits, Emits-weaken}
use wildfly_operator.World.Quiet.{SetWrites, SetWrites-weaken}
use wildfly_operator.Resources.Generation.{is_current_generation}
use wildfly_operator.Recovery.Process.{process_recovery}
use wildfly_operator.Recovery.Process.Skip.{Processed}
use wildfly_operator.Recovery.Process.Loops.{AllKnown}
use wildfly_operator.Recovery.Statuses.Known.{Known}
use wildfly_operator.Recovery.Process.Frame.{status_names, with_states, IsFramed}
use wildfly_operator.Recovery.Process.Total.{process_recovery-IsFramed}
use wildfly_operator.Recovery.Process.CleanOnes.{IsCleanIn}
use wildfly_operator.Recovery.Process.Grounds.Whole.{IsGrounded, process_recovery-clean}
use wildfly_operator.Controller.PodStatuses.{original_status}
use wildfly_operator.Controller.Scale.{check_stateful_set}
use wildfly_operator.Controller.Scale.Size.{HasStatus, IsCleanPod}
use wildfly_operator.Controller.Scale.Names.{
  AreDistinct, IsNamed, Known-IsNamed, original_status-some, original_status-find_status,
}
use wildfly_operator.Controller.Scale.Writes.{IsSafeSize, IsSafeWrite, check_stateful_set-safe}

-- The size is not below `k`, or leaves out only pods with grounds by then.
abbrev pub IsGroundedSize : Env → WildFlyServer → List Pod → ℕ → History → Option ℤ → Type 0
IsGroundedSize env w pods k by size =
    (n : ℕ) × (size ≡ some (pos n))
    × ((k ≤ n) ⊎ All (λ p. IsGrounded env w pods p.name by) (take (length pods - n) (reverse pods)))

-- The set is updated only to such a size, and deleted only where it is outdated.
abbrev pub IsGroundedWrite :
    Env → WildFlyServer → StatefulSet → List Pod → ℕ → History → Event → History → Type 0
IsGroundedWrite env w found pods k by =
    SetWrites (IsGroundedSize env w pods k by) (is_current_generation w found.annotations ≡ false)

some_of : {A : Type 0} (o : Option A) → is_none o ≡ false → (a : A) × (o ≡ some a)
some_of none e = absurd cc
some_of (some a) e = (a, refl)

known-HasStatus :
    (ss ts : List PodStatus)
    → status_names ts ≡ status_names ss
    → (pods : List Pod) → AllKnown ss pods
    → All (HasStatus ts) pods
known-HasStatus ss ts same pods =
    All-weaken
      (λ p known. some_of (original_status p.name ts) (
        original_status-some p.name ts
          (subst (λ ns. IsNamed ns p.name) (sym same) (Known-IsNamed p.name ss known))))
      pods

IsCleanPod-IsCleanIn :
    (ss : List PodStatus) (p : Pod)
    → AreDistinct (status_names ss)
    → IsCleanPod ss p
    → IsCleanIn ss p.name
IsCleanPod-IsCleanIn ss p distinct (s, e, c) =
    (s, sym (original_status-find_status p.name ss distinct) ∙ e, c)

current-with_states :
    (w : WildFlyServer) (ss : List PodStatus) (d : ℤ) (annotations : StringMap)
    → is_current_generation (with_states w ss d) annotations ≡ is_current_generation w annotations
unfolding is_current_generation
current-with_states w ss d annotations = refl

module _ (env : Env) (w : WildFlyServer) (n : ℤ) (pods : List Pod) (h h' : History) (q : Processed)
    (enough : pos_part n ≤ length pods) (known : AllKnown w.status.pods pods)
    (distinct : AreDistinct (status_names w.status.pods))
    (ran : process_recovery w n pods env h ≡ (done q, h')) where
  framed : IsFramed w q
  framed =
      let x : Ends env (IsFramed w) h (done q, h') =
        subst (Ends env (IsFramed w) h) ran
          ((process_recovery-IsFramed w n pods enough (λ e. known)).at env h) in
      x.0

  kept_names : status_names q.server.status.pods ≡ status_names w.status.pods
  kept_names = let (ss, d, e, same) = framed in ap (λ u. status_names u.status.pods) e ∙ same

  spec_kept : q.server.spec.replicas ≡ w.spec.replicas
  spec_kept = let (ss, d, e, same) = framed in ap (λ u. u.spec.replicas) e

  clean-IsGrounded : (p : Pod) → IsCleanPod q.server.status.pods p → IsGrounded env w pods p.name h'
  clean-IsGrounded p clean =
      process_recovery-clean env w n p.name pods h h' q enough (λ e. known) ran
        (IsCleanPod-IsCleanIn q.server.status.pods p (subst AreDistinct (sym kept_names) distinct)
          clean)

  module _ (found : StatefulSet) (k : ℕ) where
    current_kept :
        is_current_generation q.server found.annotations ≡ is_current_generation w found.annotations
    current_kept =
        let (ss, d, e, same) = framed in
        ap (λ u. is_current_generation u found.annotations) e ∙ current-with_states w ss d _

    grounded_size :
        (size : Option ℤ)
        → IsSafeSize q.server.status.pods pods k size
        → IsGroundedSize env w pods k h' size
    grounded_size size (m, e, inl x) = (m, e, inl x)
    grounded_size size (m, e, inr clean) =
        (m, e, inr (All-weaken clean-IsGrounded (take (length pods - m) (reverse pods)) clean))

    -- There are fewer than 2 ^ 31 pods and a StatefulSet with a size that is not negative, each pod
    -- has a status and no name has two, no more pods are to be removed than there are, and the wanted
    -- size is not negative. Once the recovery has ended, whatever the environment answers and at
    -- whatever later time, checkStatefulSet updates the set only to a size that is not lower, or that
    -- leaves out, at the end of the list, only pods that were clean before the recovery, of which it
    -- has had the evidence, or whose recovery may be skipped; it deletes the set only where it is
    -- outdated, and never creates or patches it.
    pub scale_after_recovery :
        (m : ℕ) (openshift : Bool)
        → found.replicas ≡ some (pos k)
        → w.spec.replicas ≡ pos m
        → length pods < 2 ^ 31
        → Emits env
            (IsGroundedWrite env w found pods k h')
            Anything
            (check_stateful_set q.server openshift found pods)
    scale_after_recovery m openshift sized wanted small =
        Emits-weaken env (IsSafeWrite q.server found pods k) (IsGroundedWrite env w found pods k h')
          Anything (check_stateful_set q.server openshift found pods)
          (SetWrites-weaken _ _ _ _ grounded_size (λ old. sym current_kept ∙ old))
          (check_stateful_set-safe env q.server found pods k sized small
            (known-HasStatus w.status.pods q.server.status.pods kept_names (reverse pods)
              (All-reverse (λ p. Known w.status.pods p.name) pods known))
            m openshift (spec_kept ∙ wanted))
