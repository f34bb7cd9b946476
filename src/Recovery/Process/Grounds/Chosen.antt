-- ===== src/Recovery/Process/Grounds/Chosen.antt =====
-- The pods that processTransactionRecoveryScaleDown of controllers/transaction_recovery.go chooses
-- are pods of the list, and its first loop makes none of them clean.
use mathlib.Core.List.{reverse, reverse-append}
use wildfly_operator.Prelude.{
  ℕ, zero, suc, ◌≡◌, refl, sym, ap, subst, ◌∙◌, ◌⊎◌, inl, inr, Bool, none, some, List, [], ◌∷◌,
  ◌++◌, String, str_eq, Any, Bool-cases, Option-cases, if◌then◌else◌, true_is_false,
}
use wildfly_operator.Kube.{Pod}
use wildfly_operator.Api.{PodStatus, is_active, is_clean, recovery_investigation}
use wildfly_operator.Recovery.Setup.{is_running}
use wildfly_operator.Recovery.Statuses.{find_status, put_status, with_state}
use wildfly_operator.Recovery.Statuses.Known.{find_status-name, find_status-put_status}
use wildfly_operator.Recovery.Process.{last_pods, running_pods, start_investigation}
use wildfly_operator.Recovery.Process.CleanOnes.{IsCleanIn}

module _ (P : Pod → Type 0) where
  Any-append : (xs ys : List Pod) → Any P (xs ++ ys) → Any P xs ⊎ Any P ys
  Any-append [] ys a = inr a
  Any-append (x ∷ xs) ys (inl p) = inl (inl p)
  Any-append (x ∷ xs) ys (inr a) = elim (Any-append xs ys a) [ inl b ↦ inl (inr b) | inr b ↦ inr b ]

  Any-cons : (x : Pod) (xs ys : List Pod) → (Any P xs → Any P ys) → Any P (x ∷ xs) → Any P (x ∷ ys)
  Any-cons x xs ys f (inl p) = inl p
  Any-cons x xs ys f (inr a) = inr (f a)

  Any-reverse : (xs : List Pod) → Any P (reverse xs) → Any P xs
  Any-reverse [] a = a
  Any-reverse (x ∷ xs) a =
      elim (Any-append (reverse xs) (x ∷ []) (rw (reverse-append (x ∷ []) xs) at a)) [
        | inl b ↦ inr (Any-reverse xs b)
        | inr b ↦ Any-cons x [] xs (λ c. absurd c) b
      ]

  Any-running_pods : (xs : List Pod) → Any P (running_pods xs) → Any P xs
  unfolding running_pods
  Any-running_pods [] a = a
  Any-running_pods (x ∷ xs) a = elim (Bool-cases (is_running x.phase)) [
    | inl on ↦ Any-cons x (running_pods xs) xs (Any-running_pods xs) (rw on at a)
    | inr off ↦ inr (Any-running_pods xs (rw off at a))
  ]

  Any-last_pods :
      (n : ℕ) (xs chosen : List Pod) → last_pods n xs ≡ some chosen → Any P chosen → Any P xs
  unfolding last_pods
  Any-last_pods zero xs chosen e a =
      let none_there : [] ≡ chosen = cc in absurd (subst (Any P) (sym none_there) a)
  Any-last_pods (suc n) [] chosen e a = absurd (none_is_some e)
    where
      none_is_some : none ≡ some chosen → ⊥
      none_is_some h = cc
  Any-last_pods (suc n) (x ∷ xs) chosen e a = elim (Option-cases (last_pods n xs)) [
    | inl none_left ↦ absurd (none_is_some (rw none_left at e))
    | inr (rest, found) ↦
        let is : x ∷ rest ≡ chosen = some_is (rw found at e) in
        Any-cons x rest xs (Any-last_pods n xs rest found) (subst (Any P) (sym is) a)
  ]
    where
      none_is_some : none ≡ some chosen → ⊥
      none_is_some h = cc

      some_is : {ys : List Pod} → some ys ≡ some chosen → ys ≡ chosen
      some_is h = cc

  -- The last pods that run are pods of the list.
  pub Any-chosen :
      (n : ℕ) (pods chosen : List Pod)
      → last_pods n (reverse pods) ≡ some chosen
      → Any P (running_pods chosen)
      → Any P pods
  Any-chosen n pods chosen e a =
      Any-reverse pods (Any-last_pods n (reverse pods) chosen e (Any-running_pods chosen a))

-- A status that is set to the investigation is not clean.
investigating-clean :
    (name : String) (p : Pod) (s : PodStatus) (ss : List PodStatus)
    → find_status p.name ss ≡ some s
    → IsCleanIn (put_status p.name (with_state s recovery_investigation) ss) name
    → IsCleanIn ss name
investigating-clean name p s ss found (t, e, c) =
    let put =
      find_status-put_status p.name name (with_state s recovery_investigation) ss
        (find_status-name p.name ss found) (rw found refl) in
    elim (Bool-cases (str_eq name p.name)) [
      | inl here ↦
          let e' : some (with_state s recovery_investigation) ≡ some t = rw here at (sym put ∙ e) in
          let same : with_state s recovery_investigation ≡ t = cc in
          true_is_false (sym c ∙ sym (ap (λ (u : PodStatus). is_clean u.state) same))
      | inr other ↦ (t, rw other at (sym put ∙ e), c)
    ]

one_step-clean :
    (name : String) (p : Pod) (s : PodStatus) (ss : List PodStatus)
    → find_status p.name ss ≡ some s
    → IsCleanIn
        (if is_active s.state
          then put_status p.name (with_state s recovery_investigation) ss
          else ss)
        name
    → IsCleanIn ss name
one_step-clean name p s ss found c = elim (Bool-cases (is_active s.state)) [
  | inl a ↦ investigating-clean name p s ss found (rw a at c)
  | inr a ↦ rw a at c
]

-- The first loop makes no status clean.
pub start_investigation-clean :
    (name : String) (pods : List Pod) (ss : List PodStatus) (b : Bool) {r : List PodStatus × Bool}
    → start_investigation pods ss b ≡ some r
    → IsCleanIn r.0 name
    → IsCleanIn ss name
unfolding start_investigation
start_investigation-clean name [] ss b {r} e c =
    let same : (ss, b) ≡ r = cc in
    subst (λ (q : List PodStatus × Bool). IsCleanIn q.0 name) (sym same) c
start_investigation-clean name (p ∷ pods) ss b {r} e c =
    elim (Option-cases (find_status p.name ss)) [
      | inl missing ↦ absurd (none_is_some (rw (missing, start_investigation) at e))
      | inr (s, found) ↦
          one_step-clean name p s ss found
            (start_investigation-clean name pods _ _ (rw (found, start_investigation) at e) c)
    ]
  where
    none_is_some : none ≡ some r → ⊥
    none_is_some h = cc
