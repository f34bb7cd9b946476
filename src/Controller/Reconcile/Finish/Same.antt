-- ===== src/Controller/Reconcile/Finish/Same.antt =====
-- What the comparisons of Reconcile in controllers/wildflyserver_controller.go say of what they compare.
use wildfly_operator.Prelude.{
  ◌≡◌, refl, ap, sym, true, false, true_is_false, Bool, ◌&&◌, List, [], ◌∷◌, String, All, arith,
  eq_iff,
}
use wildfly_operator.Prelude.Int.{ℤ, pos, negsuc, eqb_ℤ}
use wildfly_operator.Api.{
  PodState, active, recovery_investigation, recovery_processing, recovery_heuristic,
  scaling_down_clean, is_active, PodStatus,
}
use wildfly_operator.Util.Maps.{same_texts}
use wildfly_operator.Controller.PodStatuses.{same_state, same_statuses}

-- Every status is active.
abbrev pub AllActive : List PodStatus → Type 0
AllActive ss = All (λ s. s.state ≡ active) ss

pub is_active-state : (t : PodState) → is_active t ≡ true → t ≡ active
is_active-state active h = refl
is_active-state recovery_investigation h = true_is_false (sym h)
is_active-state recovery_processing h = true_is_false (sym h)
is_active-state recovery_heuristic h = true_is_false (sym h)
is_active-state scaling_down_clean h = true_is_false (sym h)

pub both : (a b : Bool) → a && b ≡ true → (a ≡ true) × (b ≡ true)
both true b h = (refl, h)
both false b h = true_is_false (sym h)

pub eqb-eq : (a b : ℤ) → eqb_ℤ a b ≡ true → a ≡ b
eqb-eq (pos a) (pos b) h = ap pos (ground arith)
eqb-eq (pos a) (negsuc b) h = absurd (ground arith)
eqb-eq (negsuc a) (pos b) h = absurd (ground arith)
eqb-eq (negsuc a) (negsuc b) h = ap negsuc (ground arith)

same_state-eq : (s t : PodState) → same_state s t ≡ true → s ≡ t
same_state-eq active active h = refl
same_state-eq recovery_investigation recovery_investigation h = refl
same_state-eq recovery_processing recovery_processing h = refl
same_state-eq recovery_heuristic recovery_heuristic h = refl
same_state-eq scaling_down_clean scaling_down_clean h = refl
same_state-eq s t h = true_is_false (sym h)

pub same_texts-eq : (ss ts : List String) → same_texts ss ts ≡ true → ss ≡ ts
unfolding same_texts
same_texts-eq [] [] h = refl
same_texts-eq [] (t ∷ ts) h = true_is_false (sym h)
same_texts-eq (s ∷ ss) [] h = true_is_false (sym h)
same_texts-eq (s ∷ ss) (t ∷ ts) h =
    let (x, y) = both _ _ h in let e = (eq_iff s t).0 x in let es = same_texts-eq ss ts y in cc

made : String → String → PodState → ℤ → PodStatus
made name ip state counter = record {
  name = name;
  pod_ip = ip;
  state = state;
  recovery_counter = counter;
}

made-eq :
    {a b c d : String} {s t : PodState} {m n : ℤ}
    → a ≡ b
    → c ≡ d
    → s ≡ t
    → m ≡ n
    → made a c s m ≡ made b d t n
made-eq e f g h = cc

pub same_statuses-eq : (ss ts : List PodStatus) → same_statuses ss ts ≡ true → ss ≡ ts
unfolding same_statuses made
same_statuses-eq [] [] h = refl
same_statuses-eq [] (t ∷ ts) h = true_is_false (sym h)
same_statuses-eq (s ∷ ss) [] h = true_is_false (sym h)
same_statuses-eq (s ∷ ss) (t ∷ ts) h =
    let (x, y) = both _ _ h in
    let es = same_statuses-eq ss ts y in
    let (x', counters) = both _ _ x in
    let (x'', states) = both _ _ x' in
    let (names, ips) = both _ _ x'' in
    let e : s ≡ t =
      made-eq ((eq_iff s.name t.name).0 names) ((eq_iff s.pod_ip t.pod_ip).0 ips)
        (same_state-eq s.state t.state states)
        (eqb-eq s.recovery_counter t.recovery_counter counters) in
    cc
