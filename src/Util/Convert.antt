-- ===== src/Util/Convert.antt =====
-- The conversions of interface{} values in pkg/util/go_utilities.go.
pub mod Bounds
use Prim.Native.String.{◌++◌ as append}
use wildfly_operator.Prelude.{
  ℕ, zero, suc, ◌/◌, ◌%◌, Bool, true, false, Option, none, some, List, [], ◌∷◌, String, codes,
}
use wildfly_operator.Prelude.Int.{ℤ, pos, negsuc, int32}
use wildfly_operator.Json.{
  Value, null, int32_value, int_value, int64_value, float64_value, float32_value, text, bool, texts,
  array, object, Items, end, item,
}
use wildfly_operator.World.{Result, ok, err}
use wildfly_operator.Util.Numbers.{parse_int, format_int, format_nat, negate}

-- Why a conversion fails.
pub data ConvertError : Type 0 where
  not_a_number too_many_texts is_nil unexpected_type : ConvertError

-- int(v) at a float: towards zero.
abbrev truncate : ℤ → ℤ
truncate (pos n) = pos (n / 1000000)
truncate (negsuc n) = negate (suc n / 1000000)

abbrev or_not_a_number : Option ℤ → Result ConvertError ℤ
or_not_a_number none = err not_a_number
or_not_a_number (some n) = ok n

string_to_int32 : String → Result ConvertError ℤ
string_to_int32 s = or_not_a_number (parse_int 32 (codes s))

unfoldable pub convert_to_int : Value → Result ConvertError ℤ
unfolding string_to_int32
convert_to_int (int32_value v) = ok v
convert_to_int (int_value v) = ok (int32 v)
convert_to_int (float64_value v) = ok (int32 (truncate v))
convert_to_int (float32_value v) = ok (int32 (truncate v))
convert_to_int (text v) = string_to_int32 v
convert_to_int (texts []) = ok (pos 0)
convert_to_int (texts (s ∷ [])) = string_to_int32 s
convert_to_int (texts (s ∷ t ∷ rest)) = err too_many_texts
convert_to_int null = err is_nil
convert_to_int _ = err unexpected_type

-- The six decimals of `%f`.
six_digits : ℕ → ℕ → String → String
six_digits zero n s = s
six_digits (suc k) n s = six_digits k (n / 10) (append (format_nat (n % 10)) s)

abbrev format_millionths : ℕ → String
format_millionths n = append (format_nat (n / 1000000)) (append "." (six_digits 6 n ""))

unfoldable pub format_float : ℤ → String
unfolding six_digits
format_float (pos n) = format_millionths n
format_float (negsuc n) = append "-" (format_millionths (suc n))

abbrev format_bool : Bool → String
format_bool true = "true"
format_bool false = "false"

unfoldable pub join : String → List String → String
join sep [] = ""
join sep (s ∷ []) = s
join sep (s ∷ t ∷ rest) = append s (append sep (join sep (t ∷ rest)))

unfoldable pub convert_to_string : Value → Result ConvertError String
convert_to_string (text v) = ok v
convert_to_string (int_value v) = ok (format_int v)
convert_to_string (int32_value v) = ok (format_int v)
convert_to_string (int64_value v) = ok (format_int v)
convert_to_string (float64_value v) = ok (format_float v)
convert_to_string (float32_value v) = ok (format_float v)
convert_to_string (bool v) = ok (format_bool v)
convert_to_string (texts v) = ok (join "," v)
convert_to_string null = err is_nil
convert_to_string (array v) = err unexpected_type
convert_to_string (object v) = err unexpected_type

-- `ConvertToString` with its error dropped, as the callers write `s, _ := ...`.
abbrev pub string_or_empty : Result ConvertError String → String
string_or_empty (ok s) = s
string_or_empty (err e) = ""

-- The elements of an []interface{}, each by `print`, which stands for fmt.Sprint.
items_to_strings : (Value → String) → Items → List String
items_to_strings print end = []
items_to_strings print (item v vs) = print v ∷ items_to_strings print vs

-- fmt.Sprint at a text is the text; at other values its layout is left to `sprint`.
abbrev print_item : (Value → String) → Value → String
print_item sprint (text s) = s
print_item sprint v = sprint v

unfoldable pub convert_to_array_string :
    (Value → String) → Value → Result ConvertError (List String)
unfolding items_to_strings
convert_to_array_string sprint (text v) = ok (v ∷ [])
convert_to_array_string sprint (int_value v) = ok (format_int v ∷ [])
convert_to_array_string sprint (int32_value v) = ok (format_int v ∷ [])
convert_to_array_string sprint (int64_value v) = ok (format_int v ∷ [])
convert_to_array_string sprint (float64_value v) = ok (format_float v ∷ [])
convert_to_array_string sprint (float32_value v) = ok (format_float v ∷ [])
convert_to_array_string sprint (bool v) = ok (format_bool v ∷ [])
convert_to_array_string sprint (texts v) = ok v
convert_to_array_string sprint (array v) = ok (items_to_strings (print_item sprint) v)
convert_to_array_string sprint null = err is_nil
convert_to_array_string sprint (object v) = err unexpected_type
