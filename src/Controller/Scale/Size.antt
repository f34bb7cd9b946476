-- ===== src/Controller/Scale/Size.antt =====
-- The size that checkStatefulSet of controllers/wildflyserver_controller.go decides on.
use mathlib.Core.List.{reverse}
use wildfly_operator.Prelude.{
  ℕ, zero, suc, ◌-◌, ◌≤◌, ◌<◌, ◌≡◌, refl, inl, inr, true, false, some, Bool-cases, List, [], ◌∷◌,
  arith, ap, ◌∙◌, ◌^◌, length, length-reverse, take, All,
}
use wildfly_operator.Prelude.Int.{ℤ, pos, ◌<ℤ◌, ◌-ℤ◌, int32_of_IsInt32}
use wildfly_operator.Kube.{Pod}
use wildfly_operator.Api.{PodStatus, is_clean}
use wildfly_operator.Recovery.Types.{requeue_off}
use wildfly_operator.Controller.PodStatuses.{original_status}
use wildfly_operator.Controller.Scale.{plan_scale, plan_down, pods_to_shutdown, calculated_size}

-- The pod has a status, and it is clean.
abbrev pub IsCleanPod : List PodStatus → Pod → Type 0
IsCleanPod statuses p =
    (s : PodStatus) × (original_status p.name statuses ≡ some s) × (is_clean s.state ≡ true)

-- The pod has a status.
abbrev pub HasStatus : List PodStatus → Pod → Type 0
HasStatus statuses p = (s : PodStatus) × (original_status p.name statuses ≡ some s)

pub pods_to_shutdown-le :
    (statuses : List PodStatus) (ps : List Pod) → pods_to_shutdown statuses ps ≤ length ps
unfolding pods_to_shutdown
pods_to_shutdown-le statuses [] = omega arith
pods_to_shutdown-le statuses (p ∷ ps) = ground (arith, pods_to_shutdown-le statuses ps)

module _ (statuses : List PodStatus) (p : Pod) (ps : List Pod) {s : PodStatus}
    (e : original_status p.name statuses ≡ some s) where
  shutdown-clean :
      is_clean s.state ≡ true
      → pods_to_shutdown statuses (p ∷ ps) ≡ suc (pods_to_shutdown statuses ps)
  unfolding pods_to_shutdown
  shutdown-clean c = ground arith

  shutdown_stop : is_clean s.state ≡ false → pods_to_shutdown statuses (p ∷ ps) ≡ 0
  unfolding pods_to_shutdown
  shutdown_stop c = ground arith

-- Where each pod has a status, the pods that are counted are clean.
pub pods_to_shutdown-clean :
    (statuses : List PodStatus) (ps : List Pod)
    → All (HasStatus statuses) ps
    → All (IsCleanPod statuses) (take (pods_to_shutdown statuses ps) ps)
unfolding pods_to_shutdown
pods_to_shutdown-clean statuses [] h = tt
pods_to_shutdown-clean statuses (p ∷ ps) ((s, e), h) = elim (Bool-cases (is_clean s.state)) [
  | inl c ↦ rw (shutdown-clean statuses p ps e c) ((s, e, c), pods_to_shutdown-clean statuses ps h)
  | inr c ↦ rw (shutdown_stop statuses p ps e c) tt
]

-- The first `k` pods are clean, and the next one, if any, has a status that is not.
abbrev pub CleanUpTo : List PodStatus → ℕ → List Pod → Type 0
CleanUpTo statuses zero [] = Unit
CleanUpTo statuses zero (p ∷ ps) =
    (s : PodStatus) × (original_status p.name statuses ≡ some s) × (is_clean s.state ≡ false)
CleanUpTo statuses (suc k) [] = ⊥
CleanUpTo statuses (suc k) (p ∷ ps) = IsCleanPod statuses p × CleanUpTo statuses k ps

-- The count is the length of the run of clean pods at the end of the list.
pub pods_to_shutdown-eq :
    (statuses : List PodStatus) (k : ℕ) (ps : List Pod)
    → CleanUpTo statuses k ps
    → pods_to_shutdown statuses ps ≡ k
unfolding pods_to_shutdown
pods_to_shutdown-eq statuses zero [] h = refl
pods_to_shutdown-eq statuses zero (p ∷ ps) (s, e, c) = shutdown_stop statuses p ps e c
pods_to_shutdown-eq statuses (suc k) [] h = absurd h
pods_to_shutdown-eq statuses (suc k) (p ∷ ps) ((s, e, c), h) =
    shutdown-clean statuses p ps e c ∙ ap suc (pods_to_shutdown-eq statuses k ps h)

abbrev pub shutdown_count : List PodStatus → List Pod → ℕ
shutdown_count statuses pods = pods_to_shutdown statuses (reverse pods)

-- With fewer than 2 ^ 31 pods the computed size is the number of pods that are left.
pub calculated_size-eq :
    (statuses : List PodStatus) (pods : List Pod)
    → length pods < 2 ^ 31
    → calculated_size statuses pods ≡ pos (length pods - shutdown_count statuses pods)
unfolding calculated_size
calculated_size-eq statuses pods h =
    let bound = pods_to_shutdown-le statuses (reverse pods) in
    let n = length-reverse pods in
    int32_of_IsInt32 (pos (length pods) -ℤ pos (shutdown_count statuses pods))
      (ground (arith, bound, n))
    ∙ ground (arith, bound, n)

plan_scale-down :
    (wanted current : ℤ) (statuses : List PodStatus) (pods : List Pod)
    → wanted <ℤ current
    → plan_scale wanted current statuses pods
      ≡ plan_down wanted current (calculated_size statuses pods)
unfolding plan_scale
plan_scale-down wanted current statuses pods h = ground arith

plan_scale-up :
    (wanted current : ℤ) (statuses : List PodStatus) (pods : List Pod)
    → current <ℤ wanted
    → plan_scale wanted current statuses pods
      ≡ record { size = wanted; update = true; requeue = requeue_off }
unfolding plan_scale
plan_scale-up wanted current statuses pods h = ground arith

module _ (wanted current : ℤ) (statuses : List PodStatus) (pods : List Pod)
    (small : length pods < 2 ^ 31) (down : wanted <ℤ current) where
  pub plan_scale-count :
      plan_scale wanted current statuses pods
      ≡ plan_down wanted current (pos (length pods - shutdown_count statuses pods))
  plan_scale-count =
      plan_scale-down wanted current statuses pods down
      ∙ ap (plan_down wanted current) (calculated_size-eq statuses pods small)
