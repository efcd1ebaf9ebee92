-- ===== src/TimeoutList.antt =====
-- The lists of transactions that wait for a timeout height. The contract
-- (internal/executor/contracts/transaction_manager.go) and the executor (internal/executor/handle.go)
-- keep such a list as a text, the ids joined by commas, and both remove an id by the same loop over a
-- slice that the loop itself shortens.
-- A text is modelled by its fields, what strings.Split gives at ",": ids contain no comma.
pub mod Removal
use model_lib.Base.{
  ℕ, zero, suc, ◌+◌, ◌-◌, Bool, true, false, String, List, [], ◌∷◌, ◌++◌, Option, none, some, leb,
  str_eq, length, get_elem?, take, drop,
}

-- The fields of strings.Join(list, ","): the empty text has one empty field.
unfoldable pub join_fields : List String → List String
join_fields [] = "" ∷ []
join_fields (x ∷ xs) = x ∷ xs

-- append(list[:i], list[i+1:]...) in place: the backing array afterwards. The slice is the first
-- `len` elements of the array, and the slots behind the moved elements keep what they held.
unfoldable pub shift_left : List String → ℕ → ℕ → List String
shift_left array len i = take i array ++ (drop (suc i) (take len array) ++ drop (len - 1) array)

-- for index, value := range list { if value == id { list = append(list[:index], list[index+1:]...) } }
-- The range keeps the length and the array of the first list; none is a panic, slice bounds out of
-- range. `rounds` counts the indices left, `i` is the index and `len` the length of `list`.
unfoldable pub remove_loop : String → ℕ → ℕ → List String → ℕ → Option (List String)
unfolding shift_left
remove_loop id zero i array len = some (take len array)
remove_loop id (suc rounds) i array len = elim (get_elem? array i) [
  | none ↦ none
  | some value ↦ elim (str_eq value id) [
    | false ↦ remove_loop id rounds (suc i) array len
    | true ↦ elim (leb (suc i) len) [
      | true ↦ remove_loop id rounds (suc i) (shift_left array len i) (len - 1)
      | false ↦ none
    ]
  ]
]

-- strings.Split, the loop, strings.Join
unfoldable pub remove_id : String → List String → Option (List String)
unfolding remove_loop join_fields
remove_id id fields = elim (remove_loop id (length fields) 0 fields (length fields)) [
  | none ↦ none
  | some left ↦ some (join_fields left)
]
