-- ===== src/Recovery/Process/Skip/Marked.antt =====
-- What skipRecoveryAndForceScaleDown of controllers/transaction_recovery.go leaves in the status.
use mathlib.Core.List.{reverse}
use wildfly_operator.Prelude.{
  ℕ, zero, suc, ◌≤◌, ◌≡◌, refl, sym, ap, ◌∙◌, subst, Bool, true, false, ◌||◌, Option, none, some,
  List, [], ◌∷◌, map, String, str_eq, is_none, length, length-reverse, take, Bool-cases, inl, inr,
  if◌then◌else◌, arith, eq_iff, Option-cases,
}
use wildfly_operator.Prelude.Int.{ℤ, int32, pos_part}
use wildfly_operator.Kube.{Pod}
use wildfly_operator.Api.{PodStatus, scaling_down_clean, WildFlyServer}
use wildfly_operator.World.{Env, History, Outcome, done, panic}
use wildfly_operator.Resources
use wildfly_operator.Recovery.Types.{requeue_off}
use wildfly_operator.Recovery.Statuses.{find_status, put_status, with_pods, with_state}
use wildfly_operator.Recovery.Statuses.Known.{find_status-name, find_status-put_status}
use wildfly_operator.Recovery.Process.{contains_in_list}
use wildfly_operator.Recovery.Process.Loops.{mark_clean-total}
use wildfly_operator.Recovery.Process.Skip.{
  Processed, cleaned, mark_clean, save_skipped, skip_recovery, scaling_down,
}

-- The status, made clean.
abbrev pub made_clean : Option PodStatus → Option PodStatus
made_clean none = none
made_clean (some s) = some (with_state s scaling_down_clean)

made_clean-twice : (o : Option PodStatus) → made_clean (made_clean o) ≡ made_clean o
made_clean-twice none = refl
made_clean-twice (some s) = refl

-- What is found under a name after one pod was made clean.
cleaned-find :
    (k j : String) (ss : List PodStatus)
    → find_status j (cleaned k (find_status k ss) ss)
      ≡ (if str_eq k j then made_clean (find_status j ss) else find_status j ss)
cleaned-find k j ss = elim (Option-cases (find_status k ss)) [
  | inl e ↦ rw e (unknown e)
  | inr (s, e) ↦ rw e (known s e)
]
  where
    unknown :
        find_status k ss ≡ none
        → find_status j ss
          ≡ (if str_eq k j then made_clean (find_status j ss) else find_status j ss)
    unknown e = elim (Bool-cases (str_eq k j)) [
      | inl same ↦
          let k_is : k ≡ j = ground (arith, eq_iff k j) in
          let f : find_status j ss ≡ none = subst (λ x. find_status x ss ≡ none) k_is e in
          rw (same, f) refl
      | inr other ↦ rw other refl
    ]

    known :
        (s : PodStatus)
        → find_status k ss ≡ some s
        → find_status j (put_status k (with_state s scaling_down_clean) ss)
          ≡ (if str_eq k j then made_clean (find_status j ss) else find_status j ss)
    known s e =
        find_status-put_status k j (with_state s scaling_down_clean) ss (find_status-name k ss e)
          (rw e refl)
        ∙ (elim (Bool-cases (str_eq k j)) [
          | inl same ↦
              let k_is : k ≡ j = ground (arith, eq_iff k j) in
              let f : find_status j ss ≡ some s = subst (λ x. find_status x ss ≡ some s) k_is e in
              let g : str_eq j k ≡ true = ground (arith, eq_iff j k) in rw (same, g, f) refl
          | inr other ↦
              let g : str_eq j k ≡ false = ground (arith, eq_iff j k, eq_iff k j) in
              rw (other, g) refl
        ])

-- The names of the first pods.
abbrev pub names : ℕ → List Pod → List String
names n pods = map (λ p. p.name) (take n pods)

combine :
    (a b : Bool) (o : Option PodStatus)
    → (if b then made_clean (if a then made_clean o else o) else (if a then made_clean o else o))
      ≡ (if a || b then made_clean o else o)
combine true true o = made_clean-twice o
combine true false o = refl
combine false b o = refl

mark_clean-find :
    (n : ℕ) (pods : List Pod) (ss ts : List PodStatus) (j : String)
    → mark_clean n pods ss ≡ some ts
    → find_status j ts ≡ (
        if contains_in_list (names n pods) j
        then made_clean (find_status j ss)
        else find_status j ss)
unfolding mark_clean contains_in_list
mark_clean-find zero pods ss ts j e = let f : ss ≡ ts = cc in ap (find_status j) (sym f)
mark_clean-find (suc n) [] ss ts j e = absurd cc
mark_clean-find (suc n) (p ∷ pods) ss ts j e =
    mark_clean-find n pods (cleaned p.name (find_status p.name ss) ss) ts j e
    ∙ ap (λ o. if contains_in_list (names n pods) j then made_clean o else o)
        (cleaned-find p.name j ss)
    ∙ combine (str_eq p.name j) (contains_in_list (names n pods) j) (find_status j ss)

-- The run goes through, and in the status that it leaves the name has this.
abbrev pub Leaves : ℤ → String → Option PodStatus → Outcome Processed × History → Type 0
Leaves n j o (done r, h) =
    (r.must_reconcile ≡ requeue_off)
    × (is_none r.error ≡ true)
    × (r.server.status.scalingdown_pods ≡ int32 n)
    × (find_status j r.server.status.pods ≡ o)
Leaves n j o (panic, h) = ⊥

saved-Leaves :
    (env : Env) (w : WildFlyServer) (n : ℤ) (ts : List PodStatus) (j : String)
    (o : Option PodStatus) (h : History)
    → find_status j ts ≡ o
    → Leaves n j o (save_skipped (scaling_down (with_pods w ts) n) env h)
unfolding save_skipped Resources.update_status
saved-Leaves env w n ts j o h e = (refl, refl, refl, e)

-- Where no more pods are to be removed than there are: without recovery, exactly the pods to
-- remove are made clean, of those that have a status; every other status stays, the number of the
-- pods is written, and no further round is asked for, also where the status could not be saved.
pub skip_recovery-Leaves :
    (env : Env) (w : WildFlyServer) (n : ℤ) (pods : List Pod) (j : String) (h : History)
    → pos_part n ≤ length pods
    → Leaves n j
        (if contains_in_list (names (pos_part n) (reverse pods)) j
          then made_clean (find_status j w.status.pods)
          else find_status j w.status.pods)
        (skip_recovery w n pods env h)
unfolding skip_recovery
skip_recovery-Leaves env w n pods j h enough =
    let fits : pos_part n ≤ length (reverse pods) =
      subst (λ k. pos_part n ≤ k) (sym (length-reverse pods)) enough in
    let (ts, e) = mark_clean-total (pos_part n) (reverse pods) w.status.pods fits in
    rw (e, skip_recovery)
      (saved-Leaves env w n ts j _ h
        (mark_clean-find (pos_part n) (reverse pods) w.status.pods ts j e))
