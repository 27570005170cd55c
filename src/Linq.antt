-- ===== src/Linq.antt =====
-- pkg/linq/slices.go. A slice is none if it is nil, and a map is a function from keys to slices.
pub mod Reference
mod Tests
use devkit_go.Prelude.{
  Bool, true, false, not, List, [], ◌∷◌, ◌++◌, Option, none, some, if◌then◌else◌,
}

abbrev pub Slice : Type 0 → Type 0
Slice T = Option (List T)

module _ {T : Type 0} where
  -- The elements; a nil slice has none.
  abbrev pub elements : Slice T → List T
  elements none = []
  elements (some xs) = xs

  -- `append(s, x)`
  abbrev pub append : Slice T → T → Slice T
  append s x = some (elements s ++ x ∷ [])

  unfoldable pub filter_loop : (T → Bool) → Slice T → List T → Slice T
  filter_loop fn result [] = result
  filter_loop fn result (x ∷ xs) = filter_loop fn (if fn x then append result x else result) xs

  unfoldable pub filter : Slice T → (T → Bool) → Slice T
  filter none fn = none
  filter (some xs) fn = filter_loop fn none xs

  unfoldable pub find_loop : T → (T → Bool) → List T → T
  find_loop empty fn [] = empty
  find_loop empty fn (x ∷ xs) = let later = find_loop empty fn xs in if fn x then x else later

  -- `empty` is the zero value of the type.
  unfoldable pub find : T → Slice T → (T → Bool) → T
  find empty none fn = empty
  find empty (some xs) fn = find_loop empty fn xs

  unfoldable pub remove_loop : (T → Bool) → Slice T → List T → Slice T
  remove_loop fn result [] = result
  remove_loop fn result (x ∷ xs) =
      remove_loop fn (if not (fn x) then append result x else result) xs

  unfoldable pub remove : Slice T → (T → Bool) → Slice T
  remove none fn = none
  remove (some xs) fn = remove_loop fn none xs

module _ {I O : Type 0} where
  -- The loop fills a slice of the length of the items, place by place.
  unfoldable pub map_loop : (I → O) → List I → List O
  map_loop fn [] = []
  map_loop fn (x ∷ xs) = fn x ∷ map_loop fn xs

  unfoldable pub map_items : Slice I → (I → O) → Slice O
  map_items none fn = none
  map_items (some xs) fn = some (map_loop fn xs)

-- `==` on the keys is a parameter.
module _ {T K : Type 0} (same : K → K → Bool) where
  abbrev pub add_to : (K → Slice T) → K → T → K → Slice T
  add_to grouped key x k = if same k key then append (grouped key) x else grouped k

  unfoldable pub group_loop : (T → K) → (K → Slice T) → List T → K → Slice T
  group_loop fn grouped [] = grouped
  group_loop fn grouped (x ∷ xs) = group_loop fn (add_to grouped (fn x) x) xs

  unfoldable pub group_by : Slice T → (T → K) → K → Slice T
  group_by none fn = λ k. none
  group_by (some xs) fn = group_loop fn (λ k. none) xs

-- float64 with its addition is a parameter.
module _ {T F : Type 0} (zero_value : F) (plus : F → F → F) where
  unfoldable pub sum_loop : (T → F) → F → List T → F
  sum_loop fn sum [] = sum
  sum_loop fn sum (x ∷ xs) = sum_loop fn (plus sum (fn x)) xs

  unfoldable pub sum : Slice T → (T → F) → F
  sum none fn = zero_value
  sum (some xs) fn = sum_loop fn zero_value xs
