-- ===== src/Util/Convert/Bounds.antt =====
-- The numbers that ConvertToInt of pkg/util/go_utilities.go gives.
use wildfly_operator.Prelude.{
  ◌≡◌, refl, sym, ap, subst, ◌∙◌, Option, none, some, [], ◌∷◌, String, codes, arith,
}
use wildfly_operator.Prelude.Int.{ℤ, pos, negsuc, IsInt32, int32-IsInt32}
use wildfly_operator.Json.{
  Value, null, int32_value, int_value, int64_value, float64_value, float32_value, text, bool, texts,
  array, object,
}
use wildfly_operator.World.{Result, ok}
use wildfly_operator.Util.Numbers.{parse_int, format_int, Fits, parse_int-format_int}
use wildfly_operator.Util.Numbers.Range.{parse_int-Fits}
use wildfly_operator.Util.Convert.{
  ConvertError, convert_to_int, convert_to_string, string_to_int32, or_not_a_number,
}

-- An int32 value holds one.
abbrev pub IsTyped : Value → Type 0
IsTyped (int32_value n) = IsInt32 n
IsTyped _ = Unit

Fits-IsInt32 : (z : ℤ) → Fits 32 z → IsInt32 z
Fits-IsInt32 (pos n) h = omega arith
Fits-IsInt32 (negsuc n) h = omega arith

IsInt32-Fits : (z : ℤ) → IsInt32 z → Fits 32 z
IsInt32-Fits (pos n) h = omega arith
IsInt32-Fits (negsuc n) h = omega arith

abbrev number : ℤ → Result ConvertError ℤ
number n = ok n

converted : (n m : ℤ) → number n ≡ ok m → IsInt32 n → IsInt32 m
converted n m e h = let f : n ≡ m = cc in subst IsInt32 f h

text-IsInt32 : (s : String) {n : ℤ} → string_to_int32 s ≡ ok n → IsInt32 n
unfolding string_to_int32
text-IsInt32 s {n} e =
    go (parse_int 32 (codes s))
      (λ z f. Fits-IsInt32 z (parse_int-Fits 32 (codes s) (omega arith) f)) e
  where
    go : (o : Option ℤ) → ((z : ℤ) → o ≡ some z → IsInt32 z) → or_not_a_number o ≡ ok n → IsInt32 n
    go none k e = absurd cc
    go (some z) k e = converted z n e (k z refl)

-- Every number that is given fits into an int32, whatever the value is of the types that it is
-- converted from.
pub convert_to_int-IsInt32 : (v : Value) (n : ℤ) → IsTyped v → convert_to_int v ≡ ok n → IsInt32 n
unfolding convert_to_int
convert_to_int-IsInt32 (int32_value m) n t e = converted m n e t
convert_to_int-IsInt32 (int_value m) n t e = converted _ n e (int32-IsInt32 m)
convert_to_int-IsInt32 (float64_value m) n t e = converted _ n e (int32-IsInt32 _)
convert_to_int-IsInt32 (float32_value m) n t e = converted _ n e (int32-IsInt32 _)
convert_to_int-IsInt32 (text s) n t e = text-IsInt32 s e
convert_to_int-IsInt32 (texts []) n t e = converted (pos 0) n e (omega arith, omega arith)
convert_to_int-IsInt32 (texts (s ∷ [])) n t e = text-IsInt32 s e
convert_to_int-IsInt32 (texts (s ∷ u ∷ rest)) n t e = absurd cc
convert_to_int-IsInt32 null n t e = absurd cc
convert_to_int-IsInt32 (int64_value m) n t e = absurd cc
convert_to_int-IsInt32 (bool b) n t e = absurd cc
convert_to_int-IsInt32 (array a) n t e = absurd cc
convert_to_int-IsInt32 (object m) n t e = absurd cc

-- The text of an int32 value, as ConvertToString prints it, is converted back to the value.
pub convert_to_int-text :
    (n : ℤ) (s : String)
    → IsInt32 n
    → convert_to_string (int32_value n) ≡ ok s
    → convert_to_int (text s) ≡ ok n
unfolding convert_to_int convert_to_string string_to_int32
convert_to_int-text n s h e =
    let same : format_int n ≡ s = cc in
    ap (λ t. or_not_a_number (parse_int 32 (codes t))) (sym same)
    ∙ ap or_not_a_number (parse_int-format_int 32 n (IsInt32-Fits n h))
