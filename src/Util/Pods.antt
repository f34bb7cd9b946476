-- ===== src/Util/Pods.antt =====
-- SortPodListByName of pkg/util/go_utilities.go: a stable sort by the number at the end of the name.
pub mod Order
use mathlib.Core.List.{reverse}
use wildfly_operator.Prelude.{
  ℕ, Bool, true, false, Option, none, some, List, [], ◌∷◌, String, codes, if◌then◌else◌,
}
use wildfly_operator.Prelude.Int.{ℤ, ltb_ℤ}
use wildfly_operator.Kube.{Pod}
use wildfly_operator.Util.Numbers.{parse_int, is_digit}

-- The digits in front, of a name that is read from its end.
unfoldable pub leading_digits : List ℕ → List ℕ
leading_digits [] = []
leading_digits (c ∷ s) = let rest = leading_digits s in if is_digit c then c ∷ rest else []

-- The match of [0-9]+$ as a number; `none` where there is none, or where Atoi fails.
unfoldable pub trailing_number : String → Option ℤ
unfolding leading_digits
trailing_number name = parse_int 64 (reverse (leading_digits (reverse (codes name))))

abbrev before : Option ℤ → Option ℤ → Bool
before none b = false
before (some a) none = false
before (some a) (some b) = ltb_ℤ a b

-- The comparison of the sort.
unfoldable pub less : Pod → Pod → Bool
unfolding trailing_number
less p q = before (trailing_number p.name) (trailing_number q.name)

-- sort.SliceStable as a stable insertion: an item goes in front of the first one that is not less.
-- Where each name ends in a number, as in a StatefulSet, the comparison is an order and the stable
-- sorted list is the only one.
unfoldable pub insert_pod : Pod → List Pod → List Pod
insert_pod p [] = p ∷ []
insert_pod p (q ∷ qs) = let rest = insert_pod p qs in if less q p then q ∷ rest else p ∷ q ∷ qs

unfoldable pub sort_pods_by_name : List Pod → List Pod
unfolding insert_pod
sort_pods_by_name [] = []
sort_pods_by_name (p ∷ ps) = insert_pod p (sort_pods_by_name ps)
