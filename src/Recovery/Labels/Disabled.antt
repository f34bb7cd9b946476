-- ===== src/Recovery/Labels/Disabled.antt =====
-- setLabelAsDisabled of controllers/transaction_recovery.go: which pods it writes, and that the
-- cluster service (pkg/resources/services/service.go) no longer selects them.
use mathlib.Core.List.{reverse}
use wildfly_operator.Prelude.{
  ◌↔◌, ℕ, zero, suc, ◌≤◌, ◌≡◌, ◌≢◌, refl, ap, true_is_false, Bool, true, false, Option, none, some,
  List, [], ◌∷◌, String, StringMap, str_eq, lookup, lookup-insert, All, take, length, Bool-cases,
  inl, inr, arith, eq_iff, if◌then◌else◌,
}
use wildfly_operator.Prelude.Int.{ℤ, pos_part}
use wildfly_operator.Kube.{ApiError, Pod}
use wildfly_operator.Api.{WildFlyServer}
use wildfly_operator.World.{Env, History, Outcome, done, ok}
use wildfly_operator.Resources
use wildfly_operator.Resources.Markers.{marker_operated_by_loadbalancer, marker_service_active}
use wildfly_operator.Recovery.Types.{RecoveryError, marker_service_disabled, text_or_empty}
use wildfly_operator.Recovery.Labels.{
  with_label, label_saved, update_pod_label, count_label, labels_result, label_loop,
  set_label_as_disabled,
}
use wildfly_operator.Services.{new_cluster_service}

-- The label selector of a service: each of its pairs is among the pod's labels.
unfoldable pub selects : StringMap → Pod → Bool
selects [] p = true
selects ((k, v) ∷ m) p =
    let rest = selects m p in if str_eq (text_or_empty (lookup k p.labels)) v then rest else false

-- The pod has the label with the value.
abbrev pub HasLabel : String → String → Pod → Type 0
HasLabel name value p = lookup name p.labels ≡ some value

-- A selector that wants another value of a label does not select the pod.
selects-other :
    (m : StringMap) (k u v : String) (p : Pod)
    → lookup k m ≡ some v
    → lookup k p.labels ≡ some u
    → str_eq u v ≡ false
    → selects m p ≡ false
unfolding selects lookup
selects-other [] k u v p e f d = absurd cc
selects-other ((j, x) ∷ m) k u v p e f d =
    let rest = selects-other m k u v p in ground (arith, rest, eq_iff j k)

abbrev value_of : StringMap → String → String
value_of labels name = text_or_empty (lookup name labels)

-- Reading a value that is not empty, the key is there.
has_value :
    (o : Option String) (v : String)
    → str_eq v "" ≡ false
    → str_eq (text_or_empty o) v ≡ true
    → o ≡ some v
has_value none v h e = ground (arith, eq_iff "" v, eq_iff v "")
has_value (some u) v h e = ground (arith, eq_iff u v)

module _ (w : WildFlyServer) (name : String) where
  -- The loop's last pair is quiet.
  abbrev IsQuiet : Outcome (Bool × Option RecoveryError) → Type 0
  IsQuiet r = r ≡ done (false, none)

  quiet-state : (state : Bool × ℕ) → labels_result state ≡ (false, none) → state ≡ (false, 0)
  quiet-state (needed, zero) e = cc
  quiet-state (needed, suc errors) e = true_is_false (ap (λ q. q.0) e)

  quiet-count : (state : Bool × ℕ) → count_label (ok false) state ≡ (false, 0) → state ≡ (false, 0)
  quiet-count (true, n) e = true_is_false (ap (λ q. q.0) e)
  quiet-count (false, n) e = e

  saved-loud :
      (e : Option ApiError) (state : Bool × ℕ) → count_label (label_saved e) state ≢ (false, 0)
  saved-loud none (true, n) e = true_is_false (ap (λ q. q.0) e)
  saved-loud none (false, n) e = true_is_false (ap (λ q. q.0) e)
  saved-loud (some a) (b, n) e = absurd cc

  label_loop-quiet :
      (env : Env) (rounds : ℕ) (pods : List Pod) (state : Bool × ℕ) (h : History)
      → IsQuiet (label_loop w name rounds pods state env h).0
      → (state ≡ (false, 0))
        × (rounds ≤ length pods)
        × All (HasLabel name marker_service_disabled) (take rounds pods)
        × ((label_loop w name rounds pods state env h).1 ≡ h)
  unfolding label_loop update_pod_label Resources.patch
  label_loop-quiet env zero pods state h q = (quiet-state state (cc), omega arith, tt, refl)
  label_loop-quiet env (suc rounds) [] state h q = absurd cc
  label_loop-quiet env (suc rounds) (p ∷ pods) state h q =
      elim (Bool-cases (str_eq (value_of p.labels name) marker_service_disabled)) [
        | inl e ↦
            let (s, k, all, same) =
              label_loop-quiet env rounds pods (count_label (ok false) state) h (rw e at q) in
            (
              quiet-count state s,
              omega arith,
              (has_value (lookup name p.labels) marker_service_disabled refl e, all),
              rw e same,
            )
        | inr e ↦ absurd (saved-loud _ state (label_loop-quiet env rounds pods _ _ (rw e at q)).0)
      ]

  label_loop-labelled :
      (env : Env) (rounds : ℕ) (pods : List Pod) (h : History)
      → rounds ≤ length pods
      → All (HasLabel name marker_service_disabled) (take rounds pods)
      → label_loop w name rounds pods (false, 0) env h ≡ (done (false, none), h)
  unfolding label_loop update_pod_label
  label_loop-labelled env zero pods h k all = refl
  label_loop-labelled env (suc rounds) [] h k all = absurd (omega arith)
  label_loop-labelled env (suc rounds) (p ∷ pods) h k (e, all) =
      rw e (label_loop-labelled env rounds pods h (omega arith) all)

-- The answer "nothing changed, no error" is given exactly where the pods to remove, as many as there
-- have to be, all have the label already; then nothing was requested.
pub set_label_as_disabled-quiet :
    (env : Env) (w : WildFlyServer) (name : String) (n : ℤ) (pods : List Pod) (h : History)
    → ((set_label_as_disabled w name n pods env h).0 ≡ done (false, none)) ↔ (
        (pos_part n ≤ length (reverse pods))
        × All (HasLabel name marker_service_disabled) (take (pos_part n) (reverse pods))
        × (set_label_as_disabled w name n pods env h ≡ (done (false, none), h)))
unfolding set_label_as_disabled
set_label_as_disabled-quiet env w name n pods h = (
  λ q.
      let (s, k, all, same) =
        label_loop-quiet w name env (pos_part n) (reverse pods) (false, 0) h q in
      (k, all, label_loop-labelled w name env (pos_part n) (reverse pods) h k all),
  λ x. let (k, all, e) = x in ap (λ r. r.0) e,
)

selector_label :
    (w : WildFlyServer) (labels : StringMap)
    → lookup marker_operated_by_loadbalancer (new_cluster_service w labels).spec.selector
      ≡ some marker_service_active
unfolding new_cluster_service
selector_label w labels =
    lookup-insert marker_operated_by_loadbalancer marker_operated_by_loadbalancer
      marker_service_active labels

-- A pod that is labelled as disabled is not selected by the cluster service, whatever its other
-- labels and those of the service are.
pub cluster_service-excludes :
    (w : WildFlyServer) (labels : StringMap) (p : Pod)
    → selects
        (new_cluster_service w labels).spec.selector
        (with_label marker_operated_by_loadbalancer marker_service_disabled p)
      ≡ false
cluster_service-excludes w labels p =
    selects-other (new_cluster_service w labels).spec.selector marker_operated_by_loadbalancer
      marker_service_disabled marker_service_active
      (with_label marker_operated_by_loadbalancer marker_service_disabled p)
      (selector_label w labels)
      (lookup-insert marker_operated_by_loadbalancer marker_operated_by_loadbalancer
        marker_service_disabled p.labels)
      refl
