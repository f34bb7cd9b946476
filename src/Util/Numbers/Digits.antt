-- ===== src/Util/Numbers/Digits.antt =====
-- Itoa and FormatInt print a number that is not negative as digits alone.
use wildfly_operator.Prelude.{
  ℕ, zero, suc, ◌%◌, ◌/◌, ◌≡◌, true, List, String, codes, All, Bool-cases, inl, inr, ltb, arith,
}
use wildfly_operator.Prelude.Int.{pos}
use wildfly_operator.Util.Numbers.{is_digit, digit, digit-code, digits_onto, format_nat, format_int}

abbrev pub AllDigits : List ℕ → Type 0
AllDigits cs = All (λ c. is_digit c ≡ true) cs

digits_onto-AllDigits :
    (fuel n : ℕ) (s : String) → AllDigits (codes s) → AllDigits (codes (digits_onto fuel n s))
unfolding digits_onto
digits_onto-AllDigits zero n s a = ((digit-code (n % 10) (omega arith)).0, a)
digits_onto-AllDigits (suc fuel) n s a =
    let first = (digit-code (n % 10) (omega arith)).0 in
    elim (Bool-cases (ltb n 10)) [
      | inl small ↦ rw small (first, a)
      | inr large ↦
          rw large (digits_onto-AllDigits fuel (n / 10) (String.◌∷◌ (digit (n % 10)) s) (first, a))
    ]

pub format_int-AllDigits : (n : ℕ) → AllDigits (codes (format_int (pos n)))
unfolding format_int format_nat
format_int-AllDigits n = digits_onto-AllDigits n n "" tt
