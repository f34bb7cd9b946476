-- ===== src/Recovery/Process/CleanOnes.antt =====
-- Which pods are clean after the goroutines of processTransactionRecoveryScaleDown in
-- controllers/transaction_recovery.go.
use wildfly_operator.Prelude.{
  ◌≡◌, refl, subst, sym, ap, ◌∙◌, ◌⊎◌, inl, inr, true, false, some, List, [], ◌∷◌, String, str_eq,
  Any, Bool-cases, All-weaken, eq_iff, arith,
}
use wildfly_operator.Kube.{Pod}
use wildfly_operator.Api.{PodStatus, is_clean, WildFlyServer}
use wildfly_operator.World.{Env, History, Outcome, done, panic, continue}
use wildfly_operator.World.Rules.{Extends, Ends, Anything}
use wildfly_operator.Recovery.Statuses.{find_status, put_status}
use wildfly_operator.Recovery.Statuses.Known.{
  Known, Known-some, find_status-name, find_status-put_status, put_status-Known,
}
use wildfly_operator.Recovery.Process.{Round, add_done, recover_pods}
use wildfly_operator.Recovery.Process.OnePod.{PodDone, recover_pod}
use wildfly_operator.Recovery.Process.OnePod.Contract.{IsDoneOf, recover_pod-Runs}
use wildfly_operator.Recovery.Check.Evidence.{Evidence}
use wildfly_operator.Recovery.Process.OnePod.Evidence.{LeavesClean, recover_pod-clean}
use wildfly_operator.Recovery.Process.Loops.{AllKnown, IsStepOf-name}
use wildfly_operator.Recovery.Process.Total.{recover_pods-Runs}

-- The name has a status that is clean.
abbrev pub IsCleanIn : List PodStatus → String → Type 0
IsCleanIn ss name = (s : PodStatus) × (find_status name ss ≡ some s) × (is_clean s.state ≡ true)

-- At some time up to now there was evidence for the pod.
abbrev pub EvidenceBefore : Env → Pod → History → Type 0
EvidenceBefore env p h = (h' : History) × Evidence env p h' × Extends env h' h

-- The pod with the name is among these, and there was evidence for it.
abbrev pub IsProved : Env → List Pod → String → History → Type 0
IsProved env pods name h = Any (λ p. (p.name ≡ name) × EvidenceBefore env p h) pods

module _ (env : Env) (w : WildFlyServer) (p : Pod) (pods : List Pod) (name : String)
    (h' : History) where
  -- What one goroutine has done to the status that is found.
  one_pod :
      (ss : List PodStatus) (s : PodStatus) (d : PodDone) (h1 : History)
      → find_status p.name ss ≡ some s
      → d.status.name ≡ p.name
      → (is_clean s.state ≡ false → is_clean d.status.state ≡ true → Evidence env p h1)
      → Extends env h1 h'
      → IsCleanIn (put_status p.name d.status ss) name
      → IsCleanIn ss name ⊎ IsProved env (p ∷ pods) name h'
  one_pod ss s d h1 found same evidence later (t, e, c) =
      let known : Known ss p.name = rw found refl in
      let put = find_status-put_status p.name name d.status ss same known in
      elim (Bool-cases (str_eq name p.name)) [
        | inl here ↦
            let t_is : some d.status ≡ some t = rw here at (sym put ∙ e) in
            let is : d.status ≡ t = cc in
            let name_is : p.name ≡ name = ground (arith, eq_iff name p.name) in
            elim (Bool-cases (is_clean s.state)) [
              | inl was ↦ inl (s, ap (λ n. find_status n ss) (sym name_is) ∙ found, was)
              | inr dirty ↦ inr (
                  inl (
                    name_is,
                    (h1, evidence dirty (ap (λ (u : PodStatus). is_clean u.state) is ∙ c), later),
                  ))
            ]
        | inr other ↦
            let old : find_status name ss ≡ some t = rw other at (sym put ∙ e) in inl (t, old, c)
      ]

  -- The goroutine of the pod and then the others, of which it is known what they do.
  then_others :
      (r r' : Round) (s : PodStatus) (o : Outcome PodDone) (h h1 : History)
      → find_status p.name r.statuses ≡ some s
      → AllKnown r.statuses pods
      → Ends env (IsDoneOf s) h (o, h1)
      → (is_clean s.state ≡ false → LeavesClean (o, h1) → Evidence env p h1)
      → ((r1 : Round) (h2 : History)
          → AllKnown r1.statuses pods
          → recover_pods w pods r1 env h2 ≡ (done r', h')
          → IsCleanIn r1.statuses name ⊎ IsProved env pods name h')
      → continue o (λ d. recover_pods w pods (add_done p.name d r)) env h1 ≡ (done r', h')
      → IsCleanIn r.statuses name ⊎ IsProved env (p ∷ pods) name h'
  then_others r r' s panic h h1 found known ends evidence others e = absurd ends
  then_others r r' s (done d) h h1 found known (k, grows) evidence others e =
      let named = IsStepOf-name k.step ∙ find_status-name p.name r.statuses found in
      let kept =
        All-weaken (λ q x. put_status-Known p.name q.name d.status r.statuses named x) pods known in
      let (u, later) =
        subst (Ends env Anything h1) e
          ((recover_pods-Runs w pods (add_done p.name d r) kept).at env h1) in
      elim (others (add_done p.name d r) h1 kept e) [
        | inl c ↦ one_pod r.statuses s d h1 found named evidence later c
        | inr x ↦ inr (inr x)
      ]

recover_pods-step :
    (env : Env) (w : WildFlyServer) (p : Pod) (pods : List Pod) (r : Round) (h : History)
    {s : PodStatus}
    → find_status p.name r.statuses ≡ some s
    → recover_pods w (p ∷ pods) r env h
      ≡ continue
          (recover_pod w p s env h).0
          (λ d. recover_pods w pods (add_done p.name d r))
          env
          (recover_pod w p s env h).1
unfolding recover_pods
recover_pods-step env w p pods r h found = rw (found, recover_pods) refl

no_pods :
    (env : Env) (w : WildFlyServer) (r r' : Round) (h h' : History)
    → recover_pods w [] r env h ≡ (done r', h')
    → r ≡ r'
unfolding recover_pods
no_pods env w r r' h h' e = let f : done r ≡ done r' = ap (λ x. x.0) e in cc

-- Where each of the pods has a status: after the goroutines have come to an end, a status is clean
-- only where it was clean before, or where it is that of one of the pods and at some time there
-- was evidence for the pod; whatever the environment answers.
pub recover_pods-clean :
    (env : Env) (w : WildFlyServer) (pods : List Pod) (r r' : Round) (h h' : History)
    (name : String)
    → AllKnown r.statuses pods
    → recover_pods w pods r env h ≡ (done r', h')
    → IsCleanIn r'.statuses name
    → IsCleanIn r.statuses name ⊎ IsProved env pods name h'
recover_pods-clean env w [] r r' h h' name known e c =
    inl (subst (λ (q : Round). IsCleanIn q.statuses name) (sym (no_pods env w r r' h h' e)) c)
recover_pods-clean env w (p ∷ pods) r r' h h' name (k, known) e c =
    let (s, found) = Known-some p.name r.statuses k in
    let (o, h1) = recover_pod w p s env h in
    then_others env w p pods name h' r r' s o h h1 found known ((recover_pod-Runs w p s).at env h)
      (λ dirty x. recover_pod-clean env s dirty w p h x)
      (λ r1 h2 known1 e1. recover_pods-clean env w pods r1 r' h2 h' name known1 e1 c)
      (sym (recover_pods-step env w p pods r h found) ∙ e)
