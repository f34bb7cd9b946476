-- ===== src/Remote/Patterns/Meaning.antt =====
-- What the regular expression of the recovery's log search in controllers/transaction_recovery.go
-- finds.
use wildfly_operator.Prelude.{
  ℕ, ◌≡◌, refl, sym, ap, ◌↔◌, ◌⊎◌, inl, inr, Bool, true, false, not, List, [], ◌∷◌, ◌++◌, String,
  codes, All, arith, ◌==◌, ◌&&◌, ◌||◌, true_is_false,
}
use wildfly_operator.Remote.Patterns.{
  starts_with, after_dots, matches_here, finds, is_recovery_error,
}

abbrev pub IsNotNewline : ℕ → Type 0
IsNotNewline c = (c == 10) ≡ false

-- The text holds the first one and later the second one, with no newline between them.
abbrev pub Holds : List ℕ → List ℕ → List ℕ → Type 0
Holds first second s =
    (before : List ℕ) × (between : List ℕ) × (after : List ℕ) × (s
      ≡ before ++ (first ++ (between ++ (second ++ after))))
    × All IsNotNewline between

abbrev HoldsHere : List ℕ → List ℕ → List ℕ → Type 0
HoldsHere first second s =
    (between : List ℕ) × (after : List ℕ) × (s ≡ first ++ (between ++ (second ++ after)))
    × All IsNotNewline between

starts_with-append : (a s : List ℕ) → starts_with a (a ++ s) ≡ true
unfolding starts_with
starts_with-append [] s = refl
starts_with-append (c ∷ a) s = ground (arith, starts_with-append a s)

and_true : (x y : Bool) → (x && y) ≡ true → (x ≡ true) × (y ≡ true)
and_true true y h = (refl, h)
and_true false y h = true_is_false (sym h)

or_true : (x y : Bool) → (x || y) ≡ true → (x ≡ true) ⊎ (y ≡ true)
or_true true y h = inl refl
or_true false y h = inr h

starts_with-splits : (a s : List ℕ) → starts_with a s ≡ true → (after : List ℕ) × (s ≡ a ++ after)
unfolding starts_with
starts_with-splits [] s h = (s, refl)
starts_with-splits (c ∷ a) [] h = true_is_false (sym h)
starts_with-splits (c ∷ a) (d ∷ s) h =
    let (e, f) = and_true (c == d) (starts_with a s) h in
    let (after, g) = starts_with-splits a s f in let same : c ≡ d = ground arith in (after, cc)

after_dots-splits :
    (a s : List ℕ)
    → after_dots a s ≡ true
    → (between : List ℕ) × (after : List ℕ) × (s ≡ between ++ (a ++ after))
      × All IsNotNewline between
unfolding after_dots
after_dots-splits a [] h = let (after, e) = starts_with-splits a [] h in ([], after, e, tt)
after_dots-splits a (c ∷ s) h =
    elim (or_true (starts_with a (c ∷ s)) (not (c == 10) && after_dots a s) h) [
      | inl now ↦ let (after, e) = starts_with-splits a (c ∷ s) now in ([], after, e, tt)
      | inr later ↦
          let (other, more) = and_true (not (c == 10)) (after_dots a s) later in
          let (between, after, e, all) = after_dots-splits a s more in
          (c ∷ between, after, ap (λ (t : List ℕ). c ∷ t) e, (ground arith, all))
    ]

matches_here-splits :
    (first second s : List ℕ) → matches_here first second s ≡ true → HoldsHere first second s
unfolding matches_here
matches_here-splits [] second s h = after_dots-splits second s h
matches_here-splits (a ∷ first) second [] h = true_is_false (sym h)
matches_here-splits (a ∷ first) second (c ∷ s) h =
    let (e, f) = and_true (a == c) (matches_here first second s) h in
    let (between, after, g, all) = matches_here-splits first second s f in
    let same : a ≡ c = ground arith in (between, after, cc, all)

finds-splits : (first second s : List ℕ) → finds first second s ≡ true → Holds first second s
unfolding finds
finds-splits first second [] h =
    let (between, after, e, all) = matches_here-splits first second [] h in
    ([], between, after, e, all)
finds-splits first second (c ∷ s) h =
    elim (or_true (matches_here first second (c ∷ s)) (finds first second s) h) [
      | inl now ↦
          let (between, after, e, all) = matches_here-splits first second (c ∷ s) now in
          ([], between, after, e, all)
      | inr later ↦
          let (before, between, after, e, all) = finds-splits first second s later in
          (c ∷ before, between, after, ap (λ (t : List ℕ). c ∷ t) e, all)
    ]

after_dots_of_start : (a s : List ℕ) → starts_with a s ≡ true → after_dots a s ≡ true
unfolding after_dots
after_dots_of_start a [] h = h
after_dots_of_start a (c ∷ s) h = rw h refl

after_dots_skip :
    (a : List ℕ) (c : ℕ) (s : List ℕ)
    → IsNotNewline c
    → after_dots a s ≡ true
    → after_dots a (c ∷ s) ≡ true
unfolding after_dots
after_dots_skip a c s x h = ground arith

after_dots-append :
    (a between after : List ℕ)
    → All IsNotNewline between
    → after_dots a (between ++ (a ++ after)) ≡ true
after_dots-append a [] after all = after_dots_of_start a (a ++ after) (starts_with-append a after)
after_dots-append a (c ∷ between) after (x, all) =
    after_dots_skip a c (between ++ (a ++ after)) x (after_dots-append a between after all)

matches_here-append :
    (first second s : List ℕ)
    → after_dots second s ≡ true
    → matches_here first second (first ++ s) ≡ true
unfolding matches_here
matches_here-append [] second s h = h
matches_here-append (a ∷ first) second s h = ground (arith, matches_here-append first second s h)

finds_of_here :
    (first second s : List ℕ) → matches_here first second s ≡ true → finds first second s ≡ true
unfolding finds
finds_of_here first second [] h = h
finds_of_here first second (c ∷ s) h = rw h refl

finds-append :
    (first second before s : List ℕ)
    → finds first second s ≡ true
    → finds first second (before ++ s) ≡ true
unfolding finds
finds-append first second [] s h = h
finds-append first second (c ∷ before) s h = ground (arith, finds-append first second before s h)

finds_iff : (first second s : List ℕ) → (finds first second s ≡ true) ↔ Holds first second s
finds_iff first second s = (finds-splits first second s, back)
  where
    back : Holds first second s → finds first second s ≡ true
    back (before, between, after, e, all) = rw e (
        finds-append first second before _ (
          finds_of_here first second _
            (matches_here-append first second _ (after_dots-append second between after all))))

-- A log line counts as an error of the recovery exactly when it holds "ERROR" and later, with no
-- newline between them, "Periodic Recovery".
pub is_recovery_error_iff :
    (line : String)
    → (is_recovery_error line ≡ true)
      ↔ Holds (codes "ERROR") (codes "Periodic Recovery") (codes line)
unfolding is_recovery_error
is_recovery_error_iff line = finds_iff (codes "ERROR") (codes "Periodic Recovery") (codes line)
