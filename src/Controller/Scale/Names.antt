-- ===== src/Controller/Scale/Names.antt =====
-- The two look-ups of a pod's status in controllers/wildflyserver_controller.go and
-- controllers/transaction_recovery.go agree where no name has two statuses.
use wildfly_operator.Prelude.{
  ◌≡◌, refl, sym, subst, true, false, Bool-cases, inl, inr, none, List, [], ◌∷◌, String, str_eq,
  arith, eq_iff, All, Any, is_none,
}
use wildfly_operator.Api.{PodStatus}
use wildfly_operator.Recovery.Statuses.{find_status}
use wildfly_operator.Recovery.Statuses.Known.{Known}
use wildfly_operator.Recovery.Process.Frame.{status_names}
use wildfly_operator.Controller.PodStatuses.{original_status}

-- No name stands twice.
abbrev pub AreDistinct : List String → Type 0
AreDistinct [] = Unit
AreDistinct (n ∷ ns) = All (λ m. str_eq m n ≡ false) ns × AreDistinct ns

-- The name is one of these.
abbrev pub IsNamed : List String → String → Type 0
IsNamed ns name = Any (λ m. str_eq m name ≡ true) ns

pub Known-IsNamed :
    (name : String) (ss : List PodStatus) → Known ss name → IsNamed (status_names ss) name
unfolding find_status
Known-IsNamed name [] h = absurd cc
Known-IsNamed name (s ∷ ss) h = elim (Bool-cases (str_eq s.name name)) [
  | inl here ↦ inl here
  | inr other ↦ inr (Known-IsNamed name ss (ground (arith, eq_iff s.name name, eq_iff name s.name)))
]

-- A name among those of the statuses has one.
pub original_status-some :
    (name : String) (ss : List PodStatus)
    → IsNamed (status_names ss) name
    → is_none (original_status name ss) ≡ false
unfolding original_status
original_status-some name [] h = absurd h
original_status-some name (s ∷ ss) (inl here) = ground arith
original_status-some name (s ∷ ss) (inr later) = ground (arith, original_status-some name ss later)

original_status-none :
    (name : String) (ss : List PodStatus)
    → All (λ m. str_eq m name ≡ false) (status_names ss)
    → original_status name ss ≡ none
unfolding original_status
original_status-none name [] a = refl
original_status-none name (s ∷ ss) (x, a) = ground (arith, original_status-none name ss a)

pub original_status-find_status :
    (name : String) (ss : List PodStatus)
    → AreDistinct (status_names ss)
    → original_status name ss ≡ find_status name ss
unfolding original_status find_status
original_status-find_status name [] d = refl
original_status-find_status name (s ∷ ss) (x, d) = elim (Bool-cases (str_eq name s.name)) [
  | inl here ↦
      let same : name ≡ s.name = ground (arith, eq_iff name s.name) in
      let absent =
        original_status-none name ss
          (subst (λ n. All (λ m. str_eq m n ≡ false) (status_names ss)) (sym same) x) in
      ground (arith, absent, eq_iff s.name name)
  | inr other ↦
      ground (arith, original_status-find_status name ss d, eq_iff s.name name, eq_iff name s.name)
]
