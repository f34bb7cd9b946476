-- ===== src/Util/Numbers.antt =====
-- strconv as pkg/util/go_utilities.go and pkg/resources/generation.go use it: ParseInt in base 10,
-- Itoa and FormatInt.
pub mod Range
pub mod Digits
use Prim.Native.Char.{Char, code}
use wildfly_operator.Prelude.{
  ℕ, zero, suc, ◌+◌, ◌-◌, ◌*◌, ◌/◌, ◌%◌, ◌^◌, ◌≤◌, ◌<◌, ◌≡◌, refl, ap, Bool, true, ◌&&◌, Option,
  none, some, List, [], ◌∷◌, String, arith, ltb, leb, lt→ltb, le→leb, ◌==◌, if◌then◌else◌, codes,
  sym, ◌∙◌, inl, inr, Bool-cases,
}
use wildfly_operator.Prelude.Int.{ℤ, pos, negsuc}

abbrev pub is_digit : ℕ → Bool
is_digit c = leb b'0' c && leb c b'9'

-- The number that a run of digits stands for; `none` at any other byte.
digits_value : ℕ → List ℕ → Option ℕ
digits_value acc [] = some acc
digits_value acc (c ∷ s) =
    let rest = digits_value (acc * 10 + (c - b'0')) s in if is_digit c then rest else none

unsigned : List ℕ → Option ℕ
unfolding digits_value
unsigned [] = none
unsigned (c ∷ s) = digits_value 0 (c ∷ s)

-- In range of a signed integer of `bits` bits.
abbrev fit_pos : ℕ → Option ℕ → Option ℤ
fit_pos bits none = none
fit_pos bits (some n) = if ltb n (2 ^ (bits - 1)) then some (pos n) else none

abbrev pub negate : ℕ → ℤ
negate zero = pos 0
negate (suc n) = negsuc n

abbrev fit_neg : ℕ → Option ℕ → Option ℤ
fit_neg bits none = none
fit_neg bits (some n) = if leb n (2 ^ (bits - 1)) then some (negate n) else none

-- strconv.ParseInt(s, 10, bits), with `none` for its error; strconv.Atoi is `parse_int 64`.
unfoldable pub parse_int : ℕ → List ℕ → Option ℤ
unfolding unsigned
parse_int bits [] = none
parse_int bits (c ∷ s) =
    if c == b'+'
    then fit_pos bits (unsigned s)
    else if c == b'-'
    then fit_neg bits (unsigned s)
    else fit_pos bits (unsigned (c ∷ s))

abbrev digit : ℕ → Char
digit zero = "0"
digit (suc zero) = "1"
digit (suc (suc zero)) = "2"
digit (suc (suc (suc zero))) = "3"
digit (suc (suc (suc (suc zero)))) = "4"
digit (suc (suc (suc (suc (suc zero))))) = "5"
digit (suc (suc (suc (suc (suc (suc zero)))))) = "6"
digit (suc (suc (suc (suc (suc (suc (suc zero))))))) = "7"
digit (suc (suc (suc (suc (suc (suc (suc (suc zero)))))))) = "8"
digit (suc (suc (suc (suc (suc (suc (suc (suc (suc n))))))))) = "9"

-- The digits of a number in front of a text, the last digit first; the fuel is at least the number.
digits_onto : ℕ → ℕ → String → String
digits_onto zero n s = String.◌∷◌ (digit (n % 10)) s
digits_onto (suc fuel) n s =
    let t = String.◌∷◌ (digit (n % 10)) s in
    let more = digits_onto fuel (n / 10) t in if ltb n 10 then t else more

unfoldable pub format_nat : ℕ → String
unfolding digits_onto
format_nat n = digits_onto n n ""

-- strconv.Itoa and strconv.FormatInt(z, 10).
unfoldable pub format_int : ℤ → String
unfolding format_nat
format_int (pos n) = format_nat n
format_int (negsuc n) = String.◌∷◌ "-" (format_nat (suc n))

-- A digit is written as it is read.
digit-code : (d : ℕ) → d < 10 → (is_digit (code (digit d)) ≡ true) × (code (digit d) - b'0' ≡ d)
digit-code zero h = (refl, refl)
digit-code (suc zero) h = (refl, refl)
digit-code (suc (suc zero)) h = (refl, refl)
digit-code (suc (suc (suc zero))) h = (refl, refl)
digit-code (suc (suc (suc (suc zero)))) h = (refl, refl)
digit-code (suc (suc (suc (suc (suc zero))))) h = (refl, refl)
digit-code (suc (suc (suc (suc (suc (suc zero)))))) h = (refl, refl)
digit-code (suc (suc (suc (suc (suc (suc (suc zero))))))) h = (refl, refl)
digit-code (suc (suc (suc (suc (suc (suc (suc (suc zero)))))))) h = (refl, refl)
digit-code (suc (suc (suc (suc (suc (suc (suc (suc (suc zero))))))))) h = (refl, refl)
digit-code (suc (suc (suc (suc (suc (suc (suc (suc (suc (suc n)))))))))) h = absurd (omega arith)

-- Reading what was printed in front of a text: the value so far, ten times for each digit.
shift : ℕ → ℕ → ℕ → ℕ
shift zero n acc = acc * 10 + n % 10
shift (suc fuel) n acc =
    let more = shift fuel (n / 10) acc in if ltb n 10 then acc * 10 + n % 10 else more * 10 + n % 10

shift_zero : (fuel n : ℕ) → n ≤ fuel → shift fuel n 0 ≡ n
unfolding shift
shift_zero zero n h = omega arith
shift_zero (suc fuel) n h = ground (arith, shift_zero fuel (n / 10))

one_digit :
    (n acc : ℕ) (s : String)
    → digits_value acc (codes (String.◌∷◌ (digit (n % 10)) s))
      ≡ digits_value (acc * 10 + n % 10) (codes s)
unfolding digits_value
one_digit n acc s = let d = digit-code (n % 10) (omega arith) in rw d.0 (rw d.1)

digits_value_onto :
    (fuel n acc : ℕ) (s : String)
    → digits_value acc (codes (digits_onto fuel n s)) ≡ digits_value (shift fuel n acc) (codes s)
unfolding digits_onto shift
digits_value_onto zero n acc s = one_digit n acc s
digits_value_onto (suc fuel) n acc s = elim (Bool-cases (ltb n 10)) [
  | inl small ↦ rw small (one_digit n acc s)
  | inr large ↦ rw large (
      digits_value_onto fuel (n / 10) acc (String.◌∷◌ (digit (n % 10)) s)
      ∙ one_digit n (shift fuel (n / 10) acc) s)
]

-- What is printed begins with a digit.
digits_onto_head :
    (fuel n : ℕ) (s : String)
    → (c : ℕ) × (t : List ℕ) × (codes (digits_onto fuel n s) ≡ c ∷ t) × (is_digit c ≡ true)
unfolding digits_onto
digits_onto_head zero n s =
    (code (digit (n % 10)), codes s, refl, (digit-code (n % 10) (omega arith)).0)
digits_onto_head (suc fuel) n s = elim (Bool-cases (ltb n 10)) [
  | inl small ↦
      rw small (code (digit (n % 10)), codes s, refl, (digit-code (n % 10) (omega arith)).0)
  | inr large ↦ rw large (digits_onto_head fuel (n / 10) (String.◌∷◌ (digit (n % 10)) s))
]

unsigned-cons : (c : ℕ) (t : List ℕ) → unsigned (c ∷ t) ≡ digits_value 0 (c ∷ t)
unfolding unsigned
unsigned-cons c t = refl

unsigned-format_nat : (n : ℕ) → unsigned (codes (format_nat n)) ≡ some n
unfolding format_nat digits_value
unsigned-format_nat n =
    let (c, t, e, d) = digits_onto_head n n "" in
    rw e (
      unsigned-cons c t
      ∙ ap (digits_value 0) (sym e)
      ∙ digits_value_onto n n 0 ""
      ∙ ap some (shift_zero n n (omega arith)))

parse_int-digit :
    (bits c : ℕ) (t : List ℕ)
    → is_digit c ≡ true
    → parse_int bits (c ∷ t) ≡ fit_pos bits (unsigned (c ∷ t))
unfolding parse_int
parse_int-digit bits c t h = ground arith

parse_int-minus : (bits : ℕ) (t : List ℕ) → parse_int bits (b'-' ∷ t) ≡ fit_neg bits (unsigned t)
unfolding parse_int
parse_int-minus bits t = refl

-- In range of a signed integer of `bits` bits.
abbrev pub Fits : ℕ → ℤ → Type 0
Fits bits (pos n) = n < 2 ^ (bits - 1)
Fits bits (negsuc n) = suc n ≤ 2 ^ (bits - 1)

-- ParseInt reads back what FormatInt printed, at every integer in range.
pub parse_int-format_int :
    (bits : ℕ) (z : ℤ) → Fits bits z → parse_int bits (codes (format_int z)) ≡ some z
unfolding format_int
parse_int-format_int bits (pos n) h =
    let (c, t, e, d) = digits_onto_head n n "" in
    let e' : codes (format_nat n) ≡ c ∷ t = unfold format_nat in e in
    rw e' (
      parse_int-digit bits c t d
      ∙ ap (fit_pos bits) (ap unsigned (sym e') ∙ unsigned-format_nat n)
      ∙ rw (lt→ltb _ _ h))
parse_int-format_int bits (negsuc n) h =
    parse_int-minus bits _ ∙ ap (fit_neg bits) (unsigned-format_nat (suc n)) ∙ rw (le→leb _ _ h)
