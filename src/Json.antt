-- ===== src/Json.antt =====
-- Go's `interface{}` values as far as the type switches of pkg/util/go_utilities.go tell them
-- apart. A float holds its value in millionths, the precision that `%f` prints.
use wildfly_operator.Prelude.{String, Bool, true, false, List, str_eq, if◌then◌else◌}
use wildfly_operator.Prelude.Int.{ℤ}

mutual
  pub data Value : Type 0 where
    null : Value
    int32_value : ℤ → Value
    int_value : ℤ → Value
    int64_value : ℤ → Value
    float64_value : ℤ → Value
    float32_value : ℤ → Value
    text : String → Value
    bool : Bool → Value
    texts : List String → Value
    array : Items → Value
    object : Fields → Value

  pub data Items : Type 0 where
    end : Items
    item : Value → Items → Items

  pub data Fields : Type 0 where
    nil : Fields
    field : String → Value → Fields → Fields

-- Reading a missing key of a Go map gives the zero value, here the nil interface.
unfoldable pub get_field : String → Fields → Value
get_field k nil = null
get_field k (field j v m) = if str_eq j k then v else get_field k m

abbrev pub no_fields : Fields → Bool
no_fields nil = true
no_fields (field j v m) = false

abbrev pub no_items : Items → Bool
no_items end = true
no_items (item v m) = false
