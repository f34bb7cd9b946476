-- ===== src/Util/Lists.antt =====
-- RemoveFromList of pkg/util/go_utilities.go: `range` reads the elements of the first slice while the
-- loop moves them in the array that both slices share.
use wildfly_operator.Prelude.{
  ℕ, zero, suc, ◌+◌, ◌-◌, ◌≡◌, refl, Bool, false, Option, none, some, List, [], ◌∷◌, ◌++◌, String,
  str_eq, length, get_elem?, take, drop, leb, if◌then◌else◌,
}
use wildfly_operator.World.{Outcome, done, panic}

-- The array, and how much of it the shorter slice still has.
pub record Slice : Type 0 where
  pub array : List String
  pub len : ℕ

-- append(list[:i], list[i+1:]...) moves the elements behind i one place forward and leaves the last one
-- where it was; a bound past the slice's length is a panic.
unfoldable pub cut_at : ℕ → Slice → Option Slice
cut_at i l =
    if leb (i + 1) l.len
    then some (record {
      array = take i l.array ++ (drop (i + 1) (take l.len l.array) ++ drop (l.len - 1) l.array);
      len = l.len - 1;
    })
    else none

abbrev equals_at : ℕ → String → List String → Bool
equals_at i s array = elim (get_elem? array i) [ none ↦ false | some v ↦ str_eq v s ]

abbrev after_cut : Option Slice → (Slice → Outcome (List String)) → Outcome (List String)
after_cut none next = panic
after_cut (some l) next = next l

-- The rounds that are left, and the index of the next one.
unfoldable pub remove_loop : ℕ → ℕ → String → Slice → Outcome (List String)
remove_loop zero i s l = done (take l.len l.array)
remove_loop (suc rounds) i s l =
    let cut = after_cut (cut_at i l) (λ l'. remove_loop rounds (i + 1) s l') in
    let kept = remove_loop rounds (i + 1) s l in if equals_at i s l.array then cut else kept

unfoldable pub remove_from_list : List String → String → Outcome (List String)
remove_from_list list s = remove_loop (length list) 0 s (record { array = list; len = length list })

-- A text that stands alone is removed.
removes_one : remove_from_list ("a" ∷ "s" ∷ "b" ∷ []) "s" ≡ done ("a" ∷ "b" ∷ [])
unfolding remove_from_list remove_loop cut_at
removes_one = refl

-- The second of two in a row is passed over.
passes_over : remove_from_list ("s" ∷ "s" ∷ "a" ∷ []) "s" ≡ done ("s" ∷ "a" ∷ [])
unfolding remove_from_list remove_loop cut_at
passes_over = refl

-- The last element is seen twice, which ends in a panic.
panics : remove_from_list ("s" ∷ "a" ∷ "s" ∷ []) "s" ≡ panic
unfolding remove_from_list remove_loop cut_at
panics = refl
