-- ===== src/Recovery/Race.antt =====
-- `mustReconcile` in processTransactionRecoveryScaleDown of controllers/transaction_recovery.go: the
-- goroutines compare it with their own answer and then write it, with no lock between the two.
pub mod Levels
use wildfly_operator.Prelude.{
  ℕ, ◌<◌, ◌≡◌, refl, List, [], ◌∷◌, ◌++◌, ltb, arith, All, Any, inl, inr, true, false, Bool-cases,
  Bool, ◌∙◌, subst, lt→ltb, ltb→lt, ◌⊎◌,
}
use wildfly_operator.Recovery.Types.{requeue_off}

-- Where a goroutine is, with its needsReconcile: before the comparison, between the comparison and
-- the write, and after.
pub data Place : Type 0 where
  compares : ℕ → Place
  writes : ℕ → Place
  passed : ℕ → Place

abbrev pub needs_of : Place → ℕ
needs_of (compares n) = n
needs_of (writes n) = n
needs_of (passed n) = n

-- The shared variable and the goroutines.
pub record Shared : Type 0 where
  pub must : ℕ
  pub places : List Place

abbrev pub after_test : Bool → ℕ → Place
after_test true n = writes n
after_test false n = passed n

-- The comparison `needsReconcile > mustReconcile`.
abbrev pub compare_with : ℕ → ℕ → Place
compare_with must n = after_test (ltb must n) n

-- One goroutine makes one step, at any place of the list.
pub data Step : Shared → Shared → Type 0 where
  reads :
      (must n : ℕ) (before after : List Place)
      → Step
          (record { must = must; places = before ++ (compares n ∷ after) })
          (record { must = must; places = before ++ (compare_with must n ∷ after) })
  stores :
      (must n : ℕ) (before after : List Place)
      → Step
          (record { must = must; places = before ++ (writes n ∷ after) })
          (record { must = n; places = before ++ (passed n ∷ after) })

pub data Steps (s : Shared) : Shared → Type 0 where
  start : Steps s s
  more : {t u : Shared} → Steps s t → Step t u → Steps s u

abbrev pub HasPassed : Place → Type 0
HasPassed (passed n) = Unit
HasPassed _ = ⊥

abbrev pub started : List ℕ → List Place
started [] = []
started (n ∷ ns) = compares n ∷ started ns

-- Before the goroutines start.
abbrev pub initial : List ℕ → Shared
initial ns = record { must = requeue_off; places = started ns }

-- Each goroutine has passed.
abbrev pub AllPassed : Shared → Type 0
AllPassed s = All HasPassed s.places
