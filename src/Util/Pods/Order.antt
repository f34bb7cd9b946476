-- ===== src/Util/Pods/Order.antt =====
-- SortPodListByName of pkg/util/go_utilities.go gives the same pods in order.
use mathlib.Core.List.{reverse, Perm, reverse-reverse, reverse-append, reverse-cons, append_assoc}
use mathlib.Core.List.Perm
use wildfly_operator.Util.Numbers.{is_digit, parse_int, format_int, parse_int-format_int}
use wildfly_operator.Util.Numbers.Digits.{AllDigits, format_int-AllDigits}
use wildfly_operator.Prelude.{
  ℕ, ◌++◌, ◌≤◌, ◌<◌, ◌^◌, codes, All-reverse, ◌≡◌, refl, sym, ap, ◌∙◌, true_is_false, Bool, true,
  false, Option, none, some, List, [], ◌∷◌, All, Bool-cases, inl, inr, arith, if◌then◌else◌,
  All-weaken,
}
use wildfly_operator.Prelude.Int.{ℤ, pos, ltb_ℤ}
use wildfly_operator.Kube.{Pod}
use wildfly_operator.Util.Pods.{
  leading_digits, trailing_number, before, less, insert_pod, sort_pods_by_name,
}

-- The pods of which `test` holds, in their order.
unfoldable pub filtered : (Pod → Bool) → List Pod → List Pod
filtered test [] = []
filtered test (p ∷ ps) = let rest = filtered test ps in if test p then p ∷ rest else rest

-- The name ends in a dash and the number, as a StatefulSet names its pods, and Atoi reads the number.
abbrev pub HasOrdinal : Pod → ℕ → Type 0
HasOrdinal p n =
    (stem : List ℕ) × (codes p.name ≡ stem ++ (b'-' ∷ codes (format_int (pos n)))) × (n < 2 ^ 63)

-- A number that is read off the end of the name.
abbrev IsNumbered : Pod → Type 0
IsNumbered p = (n : ℤ) × (trailing_number p.name ≡ some n)

-- No pod of the list is less than one in front of it.
abbrev Ordered : List Pod → Type 0
Ordered [] = Unit
Ordered (p ∷ ps) = All (λ q. less q p ≡ false) ps × Ordered ps

-- The ordinals do not go down.
abbrev pub InOrder : List Pod → Type 0
InOrder [] = Unit
InOrder (p ∷ ps) = All (λ q. (a b : ℕ) → HasOrdinal p a → HasOrdinal q b → a ≤ b) ps × InOrder ps

leading-all : (ds rest : List ℕ) → AllDigits ds → leading_digits (ds ++ (b'-' ∷ rest)) ≡ ds
unfolding leading_digits
leading-all [] rest a = refl
leading-all (d ∷ ds) rest (x, a) = rw (x, leading-all ds rest a) refl

-- The number at the end of a pod's name is its ordinal.
HasOrdinal-number : (p : Pod) (n : ℕ) → HasOrdinal p n → trailing_number p.name ≡ some (pos n)
unfolding trailing_number
HasOrdinal-number p n (stem, e, small) =
    let ds = codes (format_int (pos n)) in
    let turned : reverse (codes p.name) ≡ reverse ds ++ (b'-' ∷ reverse stem) =
      ap reverse e
      ∙ reverse-append stem (b'-' ∷ ds)
      ∙ ap (λ r. r ++ reverse stem) (reverse-cons b'-' ds)
      ∙ append_assoc (reverse ds) (b'-' ∷ []) (reverse stem) in
    ap (λ cs. parse_int 64 (reverse (leading_digits cs))) turned
    ∙ ap (λ cs. parse_int 64 (reverse cs))
        (leading-all (reverse ds) (reverse stem)
          (All-reverse (λ c. is_digit c ≡ true) ds (format_int-AllDigits n)))
    ∙ ap (parse_int 64) (reverse-reverse ds)
    ∙ parse_int-format_int 64 (pos n) small

before_asym : (a b : Option ℤ) → before a b ≡ true → before b a ≡ false
before_asym none b h = true_is_false (sym h)
before_asym (some a) none h = refl
before_asym (some a) (some b) h = ground arith

before_trans :
    (a : Option ℤ) (n : ℤ) (c : Option ℤ)
    → before (some n) c ≡ false
    → before a (some n) ≡ false
    → before a c ≡ false
before_trans none n c h k = refl
before_trans (some a) n none h k = refl
before_trans (some a) n (some c) h k = ground arith

insert_pod-All :
    (P : Pod → Type 0) (p : Pod) (qs : List Pod) → P p → All P qs → All P (insert_pod p qs)
unfolding insert_pod
insert_pod-All P p [] x a = (x, tt)
insert_pod-All P p (q ∷ qs) x (y, a) = elim (Bool-cases (less q p)) [
  | inl e ↦ rw e (y, insert_pod-All P p qs x a)
  | inr e ↦ rw e (x, (y, a))
]

sort-All : (P : Pod → Type 0) (ps : List Pod) → All P ps → All P (sort_pods_by_name ps)
unfolding sort_pods_by_name
sort-All P [] a = tt
sort-All P (p ∷ ps) (x, a) = insert_pod-All P p (sort_pods_by_name ps) x (sort-All P ps a)

less_trans : (p q r : Pod) → IsNumbered q → less q p ≡ false → less r q ≡ false → less r p ≡ false
unfolding less
less_trans p q r (n, e) h k =
    before_trans (trailing_number r.name) n (trailing_number p.name) (rw e at h) (rw e at k)

less_asym : (p q : Pod) → less q p ≡ true → less p q ≡ false
unfolding less
less_asym p q h = before_asym (trailing_number q.name) (trailing_number p.name) h

insert_pod-Ordered :
    (p : Pod) (qs : List Pod) → All IsNumbered qs → Ordered qs → Ordered (insert_pod p qs)
unfolding insert_pod
insert_pod-Ordered p [] a o = (tt, tt)
insert_pod-Ordered p (q ∷ qs) (x, a) (b, o) = elim (Bool-cases (less q p)) [
  | inl e ↦ rw e (insert_pod-All _ p qs (less_asym p q e) b, insert_pod-Ordered p qs a o)
  | inr e ↦ rw e ((e, All-weaken (λ r f. less_trans p q r x e f) qs b), (b, o))
]

sort-Ordered : (ps : List Pod) → All IsNumbered ps → Ordered (sort_pods_by_name ps)
unfolding sort_pods_by_name
sort-Ordered [] a = tt
sort-Ordered (p ∷ ps) (x, a) =
    insert_pod-Ordered p (sort_pods_by_name ps) (sort-All IsNumbered ps a) (sort-Ordered ps a)

-- Pods that a test lets through all have one number.
abbrev AreAlike : (Pod → Bool) → ℤ → List Pod → Type 0
AreAlike test n ps = All (λ p. test p ≡ true → trailing_number p.name ≡ some n) ps

alike-less :
    (test : Pod → Bool) (n : ℤ) (p q : Pod)
    → (test p ≡ true → trailing_number p.name ≡ some n)
    → (test q ≡ true → trailing_number q.name ≡ some n)
    → test p ≡ true
    → test q ≡ true
    → less q p ≡ false
unfolding less
alike-less test n p q f g x y = rw (f x, g y) (ground arith)

-- Inserting in front of what is not less keeps the order of alike pods.
insert_pod-filtered :
    (test : Pod → Bool) (n : ℤ) (p : Pod) (qs : List Pod)
    → AreAlike test n (p ∷ qs)
    → filtered test (insert_pod p qs) ≡ filtered test (p ∷ qs)
unfolding filtered insert_pod
insert_pod-filtered test n p [] a = refl
insert_pod-filtered test n p (q ∷ qs) (f, (g, a)) = elim (Bool-cases (less q p)) [
  | inr e ↦ rw e refl
  | inl e ↦
      rw (e, insert_pod-filtered test n p qs (f, a))
        (elim (Bool-cases (test p)) [
          | inr x ↦ rw x refl
          | inl x ↦ elim (Bool-cases (test q)) [
            | inr y ↦ rw y refl
            | inl y ↦ true_is_false (sym e ∙ alike-less test n p q f g x y)
          ]
        ])
]

sort-filtered :
    (test : Pod → Bool) (n : ℤ) (ps : List Pod)
    → AreAlike test n ps
    → filtered test (sort_pods_by_name ps) ≡ filtered test ps
unfolding sort_pods_by_name filtered
sort-filtered test n [] a = refl
sort-filtered test n (p ∷ ps) (f, a) =
    insert_pod-filtered test n p (sort_pods_by_name ps)
      (f, sort-All (λ q. test q ≡ true → trailing_number q.name ≡ some n) ps a)
    ∙ ap (λ rest. if test p then p ∷ rest else rest) (sort-filtered test n ps a)

insert_pod-Perm : (p : Pod) (qs : List Pod) → Perm (insert_pod p qs) (p ∷ qs)
unfolding insert_pod
insert_pod-Perm p [] = Perm.refl (p ∷ [])
insert_pod-Perm p (q ∷ qs) = elim (Bool-cases (less q p)) [
  | inl e ↦ rw e (Perm.trans (Perm.cons q (insert_pod-Perm p qs)) (Perm.swap p q qs))
  | inr e ↦ rw e (Perm.refl (p ∷ q ∷ qs))
]

sort-Perm : (ps : List Pod) → Perm (sort_pods_by_name ps) ps
unfolding sort_pods_by_name
sort-Perm [] = Perm.refl []
sort-Perm (p ∷ ps) =
    Perm.trans (insert_pod-Perm p (sort_pods_by_name ps)) (Perm.cons p (sort-Perm ps))

not_less-le : (p q : Pod) (a b : ℕ) → less q p ≡ false → HasOrdinal p a → HasOrdinal q b → a ≤ b
unfolding less
not_less-le p q a b e x y =
    let f = HasOrdinal-number p a x in
    let g = HasOrdinal-number q b y in
    let h : ltb_ℤ (pos b) (pos a) ≡ false = rw (f, g) at e in ground arith

Ordered-InOrder : (ps : List Pod) → Ordered ps → InOrder ps
Ordered-InOrder [] o = tt
Ordered-InOrder (p ∷ ps) (a, o) =
    (All-weaken (λ q e a b x y. not_less-le p q a b e x y) ps a, Ordered-InOrder ps o)

-- Where each pod is named by a dash and an ordinal that Atoi reads: the sorted list has the same pods,
-- their ordinals do not go down, and the sort is stable: of the pods that a test lets through, which
-- all have one ordinal, it keeps the order.
pub sort_pods_by_name_lem :
    (ps : List Pod) (test : Pod → Bool) (k : ℕ)
    → All (λ p. (n : ℕ) × HasOrdinal p n) ps
    → All (λ p. test p ≡ true → HasOrdinal p k) ps
    → Perm (sort_pods_by_name ps) ps
      × InOrder (sort_pods_by_name ps)
      × (filtered test (sort_pods_by_name ps) ≡ filtered test ps)
sort_pods_by_name_lem ps test k named alike =
    let numbered : All IsNumbered ps =
      All-weaken (λ p x. (pos x.0, HasOrdinal-number p x.0 x.1)) ps named in
    let same : AreAlike test (pos k) ps =
      All-weaken (λ p f x. HasOrdinal-number p k (f x)) ps alike in
    (
      sort-Perm ps,
      Ordered-InOrder (sort_pods_by_name ps) (sort-Ordered ps numbered),
      sort-filtered test (pos k) ps same,
    )
