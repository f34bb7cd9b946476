-- ===== src/Controller/Reconcile/Finish/Settled.antt =====
-- What has been found by a round of Reconcile in controllers/wildflyserver_controller.go that comes to
-- rest.
use wildfly_operator.Prelude.{
  ◌≡◌, refl, sym, ap, ◌∙◌, ◌⊎◌, inl, inr, true_is_false, Bool, true, false, ◌||◌, Option, none,
  some, not, ℕ, leb, subst, All, Any, List, [], ◌∷◌, String, arith,
}
use wildfly_operator.Prelude.Int.{pos, leb_ℤ}
use wildfly_operator.Kube.{Pod}
use wildfly_operator.Api.{PodStatus}
use wildfly_operator.Controller.PodStatuses.{get_pod_status}
use wildfly_operator.Controller.PodStatuses.Kept.{AreStatusesOf, get_pod_status_lem}
use wildfly_operator.Recovery.Types.{requeue_later}
use wildfly_operator.Controller.Reconcile.Finish.Same.{
  AllActive, eqb-eq, same_texts-eq, same_statuses-eq,
}
use wildfly_operator.Controller.Reconcile.Finish.{
  same_hosts, no_hosts, Round, new_hosts, status_changes, wants_later,
}

-- The hosts of the status are those of the route, none where the route is disabled, and whatever they
-- were where there are no routes.
abbrev pub AreHostsOf : Round → Type 0
AreHostsOf c =
    (c.openshift ≡ true
      → c.server.spec.disable_http_route ≡ true
      → (c.server.status.hosts ≡ none) ⊎ (c.server.status.hosts ≡ some []))
    × (c.openshift ≡ true
        → c.server.spec.disable_http_route ≡ false
        → c.server.status.hosts ≡ some c.hosts)

-- The facts that a round at rest has found: the status of the server is what was found, the statuses are
-- those of the pods, which are all active unless pods are to be removed and all have an address, and
-- neither the recovery nor the StatefulSet has asked for a later round.
pub record IsAtRest (c : Round) : Type 0 where
  pub scaled : c.server.status.scalingdown_pods ≡ c.to_scale_down
  pub sized : c.server.status.replicas ≡ c.set_replicas
  pub hosted : AreHostsOf c
  pub statuses : AreStatusesOf c.server.status.pods c.pods c.server.status.pods
  pub active_ones : leb_ℤ c.to_scale_down (pos 0) ≡ true → AllActive c.server.status.pods
  pub addressed : All (λ p. ¬ (p.pod_ip ≡ "")) c.pods
  pub recovered : c.recovery_requeue ≡ 0
  pub set_done : c.set_requeue ≡ 0

-- What a status that need not be written has.
pub record IsWritten (c : Round) (hosts_changed : Bool) (ss : List PodStatus) : Type 0 where
  pub hosts_same : hosts_changed ≡ false
  pub scaled : c.server.status.scalingdown_pods ≡ c.to_scale_down
  pub statuses_same : (get_pod_status c.pods ss).1 ≡ ss
  pub sized : c.server.status.replicas ≡ c.set_replicas

pub neither : (a b : Bool) → a || b ≡ false → (a ≡ false) × (b ≡ false)
neither true b e = true_is_false e
neither false b e = (refl, e)

not-false : (b : Bool) → not b ≡ false → b ≡ true
not-false true e = refl
not-false false e = true_is_false e

pub unchanged-IsWritten :
    (c : Round) (b : Bool) (ss : List PodStatus)
    → status_changes c b ss false ≡ false
    → IsWritten c b ss
unfolding status_changes
unchanged-IsWritten c b ss e =
    let (e1, size) = neither _ _ e in
    let (e2, pods_same) = neither _ _ e1 in
    let (e3, off) = neither _ _ e2 in
    let (hosts, down) = neither _ _ e3 in
    record {
      hosts_same = hosts;
      scaled = eqb-eq _ _ (not-false _ down);
      statuses_same = same_statuses-eq _ _ (not-false _ pods_same);
      sized = eqb-eq _ _ (not-false _ size);
    }

same_hosts-eq :
    (hosts : List String) (o : Option (List String)) → same_hosts hosts o ≡ true → o ≡ some hosts
same_hosts-eq hosts none e = true_is_false (sym e)
same_hosts-eq hosts (some old) e = ap some (sym (same_texts-eq hosts old e))

no_hosts-eq : (o : Option (List String)) → no_hosts o ≡ true → (o ≡ none) ⊎ (o ≡ some [])
no_hosts-eq none e = inl refl
no_hosts-eq (some []) e = inr refl
no_hosts-eq (some (t ∷ ts)) e = true_is_false (sym e)

settled-AreHostsOf : (c : Round) → (new_hosts c c.server.status.hosts).1 ≡ false → AreHostsOf c
unfolding new_hosts
settled-AreHostsOf c e = (
  λ on off. no_hosts-eq c.server.status.hosts (ground arith),
  λ on routed. same_hosts-eq c.hosts c.server.status.hosts (ground arith),
)

no_address :
    (pods : List Pod) → (Any (λ p. p.pod_ip ≡ "") pods → ⊥) → All (λ p. ¬ (p.pod_ip ≡ "")) pods
no_address [] f = tt
no_address (p ∷ ps) f = ((λ e. f (inl e)), no_address ps (λ a. f (inr a)))

later-zero : (a b : ℕ) → leb requeue_later a || leb requeue_later b ≡ false → (a ≡ 0) × (b ≡ 0)
later-zero a b e =
    let (x, y) = neither (leb requeue_later a) (leb requeue_later b) e in
    (ground arith, ground arith)

pub rest-IsAtRest :
    (c : Round)
    → IsWritten c (new_hosts c c.server.status.hosts).1 c.server.status.pods
    → (leb_ℤ c.to_scale_down (pos 0) ≡ true → AllActive c.server.status.pods)
    → (get_pod_status c.pods c.server.status.pods).0 ≡ false
    → wants_later c ≡ false
    → IsAtRest c
rest-IsAtRest c k a ip later =
    let facts = get_pod_status_lem c.pods c.server.status.pods in
    let (recovery, set) = later-zero c.recovery_requeue c.set_requeue later in
    record {
      scaled = k.scaled;
      sized = k.sized;
      hosted = settled-AreHostsOf c k.hosts_same;
      statuses = subst (AreStatusesOf c.server.status.pods c.pods) k.statuses_same facts.1;
      active_ones = a;
      addressed = no_address c.pods (λ x. true_is_false (sym (facts.0.1 x) ∙ ip));
      recovered = recovery;
      set_done = set;
    }
