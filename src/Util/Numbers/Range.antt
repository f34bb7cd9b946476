-- ===== src/Util/Numbers/Range.antt =====
-- The range of what strconv.ParseInt gives, as pkg/util/go_utilities.go uses it.
use wildfly_operator.Prelude.{
  ℕ, zero, suc, ◌-◌, ◌^◌, ◌≤◌, ◌<◌, ◌≡◌, Option, none, some, List, [], ◌∷◌, Bool-cases, inl, inr,
  ltb, leb, ◌==◌, ltb→lt, leb→le, subst,
}
use wildfly_operator.Prelude.Int.{ℤ, pos}
use wildfly_operator.Util.Numbers.{fit_pos, fit_neg, negate, unsigned, parse_int, Fits}

fit_pos-Fits : (bits : ℕ) (o : Option ℕ) {z : ℤ} → fit_pos bits o ≡ some z → Fits bits z
fit_pos-Fits bits none e = absurd cc
fit_pos-Fits bits (some n) {z} e = elim (Bool-cases (ltb n (2 ^ (bits - 1)))) [
  | inl small ↦
      let f : some (pos n) ≡ some z = rw small at e in
      let g : pos n ≡ z = cc in subst (Fits bits) g (ltb→lt _ _ small)
  | inr large ↦ let f : none ≡ some z = rw large at e in absurd cc
]

negate-Fits : (bits n : ℕ) → n ≤ 2 ^ (bits - 1) → (0 < 2 ^ (bits - 1)) → Fits bits (negate n)
negate-Fits bits zero h k = k
negate-Fits bits (suc n) h k = h

fit_neg-Fits :
    (bits : ℕ) (o : Option ℕ) {z : ℤ} → 0 < 2 ^ (bits - 1) → fit_neg bits o ≡ some z → Fits bits z
fit_neg-Fits bits none k e = absurd cc
fit_neg-Fits bits (some n) {z} k e = elim (Bool-cases (leb n (2 ^ (bits - 1)))) [
  | inl small ↦
      let f : some (negate n) ≡ some z = rw small at e in
      let g : negate n ≡ z = cc in subst (Fits bits) g (negate-Fits bits n (leb→le _ _ small) k)
  | inr large ↦ let f : none ≡ some z = rw large at e in absurd cc
]

-- What ParseInt gives is in range.
pub parse_int-Fits :
    (bits : ℕ) (s : List ℕ) {z : ℤ} → 0 < 2 ^ (bits - 1) → parse_int bits s ≡ some z → Fits bits z
unfolding parse_int
parse_int-Fits bits [] k e = absurd cc
parse_int-Fits bits (c ∷ s) k e = elim (Bool-cases (c == b'+')) [
  | inl plus ↦ fit_pos-Fits bits (unsigned s) (rw plus at e)
  | inr f ↦ elim (Bool-cases (c == b'-')) [
    | inl minus ↦ fit_neg-Fits bits (unsigned s) k (rw (f, minus) at e)
    | inr g ↦ fit_pos-Fits bits (unsigned (c ∷ s)) (rw (f, g) at e)
  ]
]
