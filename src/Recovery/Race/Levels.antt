-- ===== src/Recovery/Race/Levels.antt =====
-- Which level `mustReconcile` holds at the end of processTransactionRecoveryScaleDown in
-- controllers/transaction_recovery.go, in any order of the goroutines' steps.
use wildfly_operator.Prelude.{
  ℕ, ◌<◌, ◌≡◌, refl, List, [], ◌∷◌, ◌++◌, ltb, arith, All, Any, inl, inr, Bool-cases, ◌∙◌, subst,
  lt→ltb, ltb→lt, ◌⊎◌,
}
use wildfly_operator.Recovery.Types.{requeue_off}
use wildfly_operator.Recovery.Race.{
  Place, compares, writes, passed, needs_of, Shared, compare_with, Step, reads, stores, Steps,
  start, more, HasPassed, started, initial, AllPassed,
}

-- A goroutine between its comparison and its write needs more than nothing, and one that has passed
-- needs nothing, or the variable is set.
abbrev Fine : ℕ → Place → Type 0
Fine must (compares n) = Unit
Fine must (writes n) = requeue_off < n
Fine must (passed n) = requeue_off < n → requeue_off < must

-- The needs of the goroutines, which do not change.
abbrev needs : List Place → List ℕ
needs [] = []
needs (p ∷ ps) = needs_of p ∷ needs ps

-- The variable holds nothing or what one of the goroutines needs.
abbrev Source : ℕ → List Place → Type 0
Source must ps = (requeue_off < must) → Any (λ p. needs_of p ≡ must) ps

record Good (s : Shared) : Type 0 where
  fine : All (Fine s.must) s.places
  source : Source s.must s.places

module _ (P : Place → Type 0) where
  -- Replacing one place by another keeps what holds of all.
  All-replace :
      (before : List Place) (p q : Place) (after : List Place)
      → (P p → P q)
      → All P (before ++ (p ∷ after))
      → All P (before ++ (q ∷ after))
  All-replace [] p q after f (x, a) = (f x, a)
  All-replace (b ∷ before) p q after f (x, a) = (x, All-replace before p q after f a)

  Any-replace :
      (before : List Place) (p q : Place) (after : List Place)
      → (P p → P q)
      → Any P (before ++ (p ∷ after))
      → Any P (before ++ (q ∷ after))
  Any-replace [] p q after f (inl x) = inl (f x)
  Any-replace [] p q after f (inr a) = inr a
  Any-replace (b ∷ before) p q after f (inl x) = inl x
  Any-replace (b ∷ before) p q after f (inr a) = inr (Any-replace before p q after f a)

  Any-here :
      (before : List Place) (q : Place) (after : List Place) → P q → Any P (before ++ (q ∷ after))
  Any-here [] q after x = inl x
  Any-here (b ∷ before) q after x = inr (Any-here before q after x)

  All-at :
      (before : List Place) (p : Place) (after : List Place) → All P (before ++ (p ∷ after)) → P p
  All-at [] p after (x, a) = x
  All-at (b ∷ before) p after (x, a) = All-at before p after a

module _ (P Q : Place → Type 0) (f : (p : Place) → P p → Q p) where
  All-map : (ps : List Place) → All P ps → All Q ps
  All-map [] a = tt
  All-map (p ∷ ps) (x, a) = (f p x, All-map ps a)

  Any-map : (ps : List Place) → Any P ps → Any Q ps
  Any-map (p ∷ ps) (inl x) = inl (f p x)
  Any-map (p ∷ ps) (inr a) = inr (Any-map ps a)
  Any-map [] a = absurd a

-- What is fine with any variable is fine with one that is set.
Fine-set : (must n : ℕ) → requeue_off < n → (p : Place) → Fine must p → Fine n p
Fine-set must n h (compares k) x = tt
Fine-set must n h (writes k) x = x
Fine-set must n h (passed k) x = λ k. h

after_reads : (must n : ℕ) → Fine must (compare_with must n)
after_reads must n = elim (Bool-cases (ltb must n)) [
  | inl e ↦ rw e (ground arith)
  | inr e ↦ rw e (ground arith)
]

needs_of-compare : (must n : ℕ) → needs_of (compare_with must n) ≡ n
needs_of-compare must n = elim (Bool-cases (ltb must n)) [ inl e ↦ rw e refl | inr e ↦ rw e refl ]

Step-Good : {s t : Shared} → Step s t → Good s → Good t
Step-Good (reads must n before after) g = record {
  fine =
      All-replace (Fine must) before (compares n) (compare_with must n) after
        (λ x. after_reads must n) g.fine;
  source = λ h.
      Any-replace (λ p. needs_of p ≡ must) before (compares n) (compare_with must n) after
        (λ e. needs_of-compare must n ∙ e) (g.source h);
}
Step-Good (stores must n before after) g =
    let h = All-at (Fine must) before (writes n) after g.fine in
    record {
      fine =
          All-replace (Fine n) before (writes n) (passed n) after (λ x k. h)
            (All-map (Fine must) (Fine n) (Fine-set must n h) _ g.fine);
      source = λ k. Any-here (λ p. needs_of p ≡ n) before (passed n) after refl;
    }

Steps-Good : {s t : Shared} → Good s → Steps s t → Good t
Steps-Good g start = g
Steps-Good g (more ss step) = Step-Good step (Steps-Good g ss)

started-Fine : (ns : List ℕ) → All (Fine requeue_off) (started ns)
started-Fine [] = tt
started-Fine (n ∷ ns) = (tt, started-Fine ns)

initial-Good : (ns : List ℕ) → Good (initial ns)
initial-Good ns = record { fine = started-Fine ns; source = λ h. absurd (omega arith) }

none_needs :
    (ps : List Place) (must : ℕ)
    → must ≡ requeue_off
    → All HasPassed ps
    → All (Fine must) ps
    → All (λ p. needs_of p ≡ requeue_off) ps
none_needs [] must e a f = tt
none_needs (passed n ∷ ps) must e (h, a) (x, f) = (ground arith, none_needs ps must e a f)
none_needs (compares n ∷ ps) must e (h, a) (x, f) = absurd h
none_needs (writes n ∷ ps) must e (h, a) (x, f) = absurd h

-- In any order of the goroutines' steps, when all have passed, either the variable is off and no
-- goroutine needs another round, or it holds a level that one of them needs.
pub race_sound :
    (ns : List ℕ) (s : Shared)
    → Steps (initial ns) s
    → AllPassed s
    → ((s.must ≡ requeue_off) × All (λ p. needs_of p ≡ requeue_off) s.places)
      ⊎ ((requeue_off < s.must) × Any (λ p. needs_of p ≡ s.must) s.places)
race_sound ns s steps all =
    let g = Steps-Good (initial-Good ns) steps in
    elim (Bool-cases (ltb requeue_off s.must)) [
      | inl e ↦ let h = ltb→lt _ _ e in inr (h, g.source h)
      | inr e ↦
          let off : s.must ≡ requeue_off = ground arith in
          inl (off, none_needs s.places s.must off all g.fine)
    ]

test_passes : (must n : ℕ) → must < n → compare_with must n ≡ writes n
test_passes must n h = rw (lt→ltb must n h) refl

-- Of two goroutines that both need another round, the first at a higher level than the second, in
-- some order of the steps the need of the first is lost: all have passed, and the variable holds
-- the lower level.
pub race_loses :
    (a b : ℕ)
    → requeue_off < b
    → b < a
    → (s : Shared) × Steps (initial (a ∷ b ∷ [])) s × AllPassed s × (s.must ≡ b)
race_loses a b h k =
    let first =
      subst
        (λ p.
          Steps (initial (a ∷ b ∷ []))
            (record { must = requeue_off; places = p ∷ compares b ∷ [] }))
        (test_passes requeue_off a (omega arith))
        (more start (reads requeue_off a [] (compares b ∷ []))) in
    let second =
      subst
        (λ p.
          Steps (initial (a ∷ b ∷ [])) (record { must = requeue_off; places = writes a ∷ p ∷ [] }))
        (test_passes requeue_off b h) (more first (reads requeue_off b (writes a ∷ []) [])) in
    (
      record { must = b; places = passed a ∷ passed b ∷ [] },
      more (more second (stores requeue_off a [] (writes b ∷ []))) (stores a b (passed a ∷ []) []),
      (tt, (tt, tt)),
      refl,
    )
