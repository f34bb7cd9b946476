-- ===== src/Recovery/Process/Loops.antt =====
-- The loops of processTransactionRecoveryScaleDown and skipRecoveryAndForceScaleDown in
-- controllers/transaction_recovery.go go through where each pod has a status.
use wildfly_operator.Prelude.{
  ℕ, zero, suc, ◌≤◌, ◌≡◌, refl, ◌∙◌, Bool, ◌||◌, some, List, [], ◌∷◌, String, arith, length, All,
  All-weaken, Bool-cases, inl, inr, if◌then◌else◌,
}
use wildfly_operator.Kube.{Pod}
use wildfly_operator.Api.{PodStatus, is_active, recovery_investigation}
use wildfly_operator.Recovery.Statuses.{find_status, put_status, with_state}
use wildfly_operator.Recovery.Statuses.Known.{Known, Known-some, find_status-name, put_status-Known}
use wildfly_operator.Recovery.Setup.{is_running}
use wildfly_operator.Recovery.Process.{last_pods, running_pods, start_investigation}
use wildfly_operator.Recovery.Process.Skip.{mark_clean}
use wildfly_operator.Recovery.Process.OnePod.Contract.{
  IsStepOf, keeps_status, becomes_clean, becomes_heuristic, recovers,
}

-- Each pod has a status.
abbrev pub AllKnown : List PodStatus → List Pod → Type 0
AllKnown statuses pods = All (λ p. Known statuses p.name) pods

-- What each name that had a status still has.
abbrev pub Keeps : List PodStatus → List PodStatus → Type 0
Keeps ss ts = (name : String) → Known ss name → Known ts name

module _ (P : Pod → Type 0) where
  pub running-All : (pods : List Pod) → All P pods → All P (running_pods pods)
  unfolding running_pods
  running-All [] a = tt
  running-All (p ∷ pods) (x, a) = elim (Bool-cases (is_running p.phase)) [
    | inl e ↦ rw e (x, running-All pods a)
    | inr e ↦ rw e (running-All pods a)
  ]

  -- With enough pods, the last ones are found.
  pub last_pods-All :
      (n : ℕ) (pods : List Pod)
      → n ≤ length pods
      → All P pods
      → (chosen : List Pod) × (last_pods n pods ≡ some chosen) × All P chosen
  unfolding last_pods
  last_pods-All zero pods h a = ([], refl, tt)
  last_pods-All (suc n) [] h a = absurd (omega arith)
  last_pods-All (suc n) (p ∷ pods) h (x, a) =
      let (chosen, e, all) = last_pods-All n pods (omega arith) a in
      rw e (p ∷ chosen, refl, (x, all))

pub mark_clean-total :
    (n : ℕ) (pods : List Pod) (ss : List PodStatus)
    → n ≤ length pods
    → (ts : List PodStatus) × (mark_clean n pods ss ≡ some ts)
unfolding mark_clean
mark_clean-total zero pods ss h = (ss, refl)
mark_clean-total (suc n) [] ss h = absurd (omega arith)
mark_clean-total (suc n) (p ∷ pods) ss h = mark_clean-total n pods _ (omega arith)

-- One step of the first loop.
investigated : Pod → PodStatus → List PodStatus → List PodStatus
investigated p s ss =
    if is_active s.state then put_status p.name (with_state s recovery_investigation) ss else ss

investigated-Keeps :
    (p : Pod) (s : PodStatus) (ss : List PodStatus)
    → s.name ≡ p.name
    → Keeps ss (investigated p s ss)
unfolding investigated
investigated-Keeps p s ss e name k = elim (Bool-cases (is_active s.state)) [
  | inl a ↦ rw a (put_status-Known p.name name _ ss e k)
  | inr a ↦ rw a k
]

start-step :
    (p : Pod) (pods : List Pod) (ss : List PodStatus) (b : Bool) {s : PodStatus}
    → find_status p.name ss ≡ some s
    → start_investigation (p ∷ pods) ss b
      ≡ start_investigation pods (investigated p s ss) (b || is_active s.state)
unfolding start_investigation investigated
start-step p pods ss b e = rw (e, start_investigation) refl

-- Where each pod has a status, the first loop goes through.
pub start-total :
    (pods : List Pod) (ss : List PodStatus) (b : Bool)
    → AllKnown ss pods
    → (r : List PodStatus × Bool) × (start_investigation pods ss b ≡ some r) × Keeps ss r.0
start-total [] ss b a = unfold start_investigation in ((ss, b), refl, λ name k. k)
start-total (p ∷ pods) ss b (k, a) =
    let (s, e) = Known-some p.name ss k in
    let keeps = investigated-Keeps p s ss (find_status-name p.name ss e) in
    let (r, e', more) =
      start-total pods (investigated p s ss) (b || is_active s.state)
        (All-weaken (λ q. keeps q.name) pods a) in
    (r, start-step p pods ss b e ∙ e', λ name x. more name (keeps name x))

pub IsStepOf-name : {s t : PodStatus} → IsStepOf s t → t.name ≡ s.name
IsStepOf-name keeps_status = refl
IsStepOf-name (becomes_clean e) = refl
IsStepOf-name (becomes_heuristic e) = refl
IsStepOf-name (recovers e) = refl
