-- ===== src/Controller/PodStatuses/Kept.antt =====
-- What getPodStatus and cleanUpPodStatus of controllers/wildflyserver_controller.go keep of the pods'
-- statuses.
use wildfly_operator.Prelude.{
  true_is_false, ℕ, ◌++◌, ◌⊎◌, none, some, true, String, str_eq, All, ◌-◌, ◌≤◌, ◌<◌, ◌^◌, ◌≡◌, refl,
  ap, ◌∙◌, ◌↔◌, inl, inr, List, [], ◌∷◌, map, length, Any, Bool-cases, arith, eq_iff, sym,
}
use wildfly_operator.Prelude.Int.{pos, ◌-ℤ◌, int32_of_IsInt32}
use wildfly_operator.Kube.{Pod}
use wildfly_operator.Api.{
  PodState, active, recovery_investigation, recovery_processing, recovery_heuristic,
  scaling_down_clean, is_clean, PodStatus,
}
use wildfly_operator.Controller.PodStatuses.{
  original_status, state_or_active, counter_or_zero, is_listed, status_of, get_pod_status, stays,
  kept_statuses, lowered, max_int,
}

-- The statuses are those of the pods, in their order.
pub get_pod_status-map :
    (pods : List Pod) (original : List PodStatus)
    → (get_pod_status pods original).1 ≡ map (status_of original) pods
unfolding get_pod_status
get_pod_status-map [] original = refl
get_pod_status-map (p ∷ ps) original =
    ap (λ ss. status_of original p ∷ ss) (get_pod_status-map ps original)

requeue-Any :
    (pods : List Pod) (original : List PodStatus)
    → ((get_pod_status pods original).0 ≡ true) ↔ Any (λ p. p.pod_ip ≡ "") pods
unfolding get_pod_status
requeue-Any [] original = (λ h. absurd cc, λ h. absurd h)
requeue-Any (p ∷ ps) original =
    let rest = requeue-Any ps original in ground (arith, rest, eq_iff p.pod_ip "")

-- The last status of the name in the list is this one.
abbrev pub IsLastOf : String → PodStatus → List PodStatus → Type 0
IsLastOf name t ss =
    (before : List PodStatus) × (after : List PodStatus) × (ss ≡ before ++ (t ∷ after))
    × (t.name ≡ name)
    × All (λ u. ¬ (u.name ≡ name)) after

-- The status of the pod, with the state and the counter of the last status of its name, and as an active
-- one with no recovery behind it where the name has none.
pub record IsStatusOf (original : List PodStatus) (p : Pod) (s : PodStatus) : Type 0 where
  pub named : s.name ≡ p.name
  pub addressed : s.pod_ip ≡ p.pod_ip
  pub old :
      (t : PodStatus)
      → IsLastOf p.name t original
      → (s.state ≡ t.state) × (s.recovery_counter ≡ t.recovery_counter)
  pub new :
      All (λ u. ¬ (u.name ≡ p.name)) original → (s.state ≡ active) × (s.recovery_counter ≡ pos 0)

-- One status for each pod, in their order.
abbrev pub AreStatusesOf : List PodStatus → List Pod → List PodStatus → Type 0
AreStatusesOf original [] [] = Unit
AreStatusesOf original (p ∷ ps) (s ∷ ss) = IsStatusOf original p s × AreStatusesOf original ps ss
AreStatusesOf original _ _ = ⊥

unnamed-none :
    (name : String) (ss : List PodStatus)
    → All (λ u. ¬ (u.name ≡ name)) ss
    → original_status name ss ≡ none
unfolding original_status
unnamed-none name [] a = refl
unnamed-none name (s ∷ ss) (x, a) =
    rw (unnamed-none name ss a) (elim (Bool-cases (str_eq s.name name)) [
      | inl same ↦ absurd (x ((eq_iff s.name name).0 same))
      | inr other ↦ rw other refl
    ])

last-some :
    (name : String) (t : PodStatus) (before after : List PodStatus)
    → t.name ≡ name
    → All (λ u. ¬ (u.name ≡ name)) after
    → original_status name (before ++ (t ∷ after)) ≡ some t
unfolding original_status
last-some name t [] after e a = rw (unnamed-none name after a, (eq_iff t.name name).1 e) refl
last-some name t (s ∷ before) after e a = rw (last-some name t before after e a) refl

IsLastOf-some :
    (name : String) (t : PodStatus) (ss : List PodStatus)
    → IsLastOf name t ss
    → original_status name ss ≡ some t
IsLastOf-some name t ss (before, after, e, named, a) =
    ap (original_status name) e ∙ last-some name t before after named a

status_of-IsStatusOf :
    (original : List PodStatus) (p : Pod) → IsStatusOf original p (status_of original p)
status_of-IsStatusOf original p = record {
  named = refl;
  addressed = refl;
  old = λ t last.
      let e = IsLastOf-some p.name t original last in (ap state_or_active e, ap counter_or_zero e);
  new = λ a. let e = unnamed-none p.name original a in (ap state_or_active e, ap counter_or_zero e);
}

statuses-AreStatusesOf :
    (pods : List Pod) (original : List PodStatus)
    → AreStatusesOf original pods (get_pod_status pods original).1
unfolding get_pod_status
statuses-AreStatusesOf [] original = tt
statuses-AreStatusesOf (p ∷ ps) original =
    (status_of-IsStatusOf original p, statuses-AreStatusesOf ps original)

-- A later round is asked for exactly where some pod has no address yet. There is one status for each
-- pod, in the pods' order, with the pod's name and address; it has the state and the counter of the last
-- status of its name before, and is active with the counter 0 where there was none.
pub get_pod_status_lem :
    (pods : List Pod) (original : List PodStatus)
    → (((get_pod_status pods original).0 ≡ true) ↔ Any (λ p. p.pod_ip ≡ "") pods)
      × AreStatusesOf original pods (get_pod_status pods original).1
get_pod_status_lem pods original = (requeue-Any pods original, statuses-AreStatusesOf pods original)

kept_length : (pods : List Pod) (ss : List PodStatus) → length (kept_statuses pods ss) ≤ length ss
unfolding kept_statuses
kept_length pods [] = omega arith
kept_length pods (s ∷ ss) = ground (arith, kept_length pods ss)

-- A pod of the name is listed, or the status is not clean.
abbrev pub IsNeeded : List Pod → PodStatus → Type 0
IsNeeded pods s = Any (λ p. p.name ≡ s.name) pods ⊎ ¬ (s.state ≡ scaling_down_clean)

is_listed-Any :
    (name : String) (pods : List Pod) → (is_listed name pods ≡ true) ↔ Any (λ p. p.name ≡ name) pods
unfolding is_listed
is_listed-Any name [] = (λ h. absurd cc, λ h. absurd h)
is_listed-Any name (p ∷ ps) =
    let rest = is_listed-Any name ps in ground (arith, rest, eq_iff p.name name)

is_clean-state : (t : PodState) → (is_clean t ≡ true) ↔ (t ≡ scaling_down_clean)
is_clean-state active = (λ h. true_is_false (sym h), λ h. absurd cc)
is_clean-state recovery_investigation = (λ h. true_is_false (sym h), λ h. absurd cc)
is_clean-state recovery_processing = (λ h. true_is_false (sym h), λ h. absurd cc)
is_clean-state recovery_heuristic = (λ h. true_is_false (sym h), λ h. absurd cc)
is_clean-state scaling_down_clean = (λ h. refl, λ h. refl)

stays-IsNeeded : (pods : List Pod) (s : PodStatus) → (stays pods s ≡ true) ↔ IsNeeded pods s
stays-IsNeeded pods s =
    let (listed, back) = is_listed-Any s.name pods in
    let (cleans, cleaned) = is_clean-state s.state in
    elim (Bool-cases (is_clean s.state)) [
      | inl c ↦ rw c (
        (λ h. inl (listed h)),
        (λ h. elim h [ inl a ↦ back a | inr dirty ↦ absurd (dirty (cleans c)) ]),
      )
      | inr c ↦ rw c ((λ h. inr (λ e. true_is_false (sym (cleaned e) ∙ c))), (λ h. refl))
    ]

-- A status is kept exactly where its pod is still listed, or it is not clean: whatever holds of some
-- kept status holds of some status before that is so, and the other way round.
pub kept_statuses-Any :
    (P : PodStatus → Type 0) (pods : List Pod) (ss : List PodStatus)
    → Any P (kept_statuses pods ss) ↔ Any (λ s. P s × IsNeeded pods s) ss
unfolding kept_statuses
kept_statuses-Any P pods [] = (λ h. h, λ h. h)
kept_statuses-Any P pods (s ∷ ss) =
    let (to, from) = kept_statuses-Any P pods ss in
    let (needed, stay) = stays-IsNeeded pods s in
    elim (Bool-cases (stays pods s)) [
      | inl e ↦ rw e (
        (λ h. elim h [ inl x ↦ inl (x, needed e) | inr a ↦ inr (to a) ]),
        (λ h. elim h [ inl x ↦ inl x.0 | inr a ↦ inr (from a) ]),
      )
      | inr e ↦ rw e (
        (λ h. inr (to h)),
        (λ h. elim h [ inl x ↦ true_is_false (sym (stay x.1) ∙ e) | inr a ↦ from a ]),
      )
    ]

-- A number of replicas that is not negative is lowered by the statuses that were dropped, down to
-- 0 at most, where both are below 2 ^ 31.
pub lowered-eq :
    (n delta : ℕ) → n < 2 ^ 31 → delta < 2 ^ 31 → lowered (pos n) delta ≡ pos (n - delta)
lowered-eq n delta h k =
    ap (λ z. max_int z (pos 0)) (int32_of_IsInt32 (pos n -ℤ pos delta) (ground arith))
    ∙ ground arith
