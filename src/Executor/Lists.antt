-- ===== src/Executor/Lists.antt =====
-- How the contract and the executor write the timeout lists, and what the executor then reads
-- (addToTimeoutList of internal/executor/contracts/transaction_manager.go; addTimeoutList and
-- getTimeoutList of internal/executor/handle.go).
use text.Mathlib.TextPositions.{eq_refl}
use model_lib.Base.{ℕ, ◌≡◌, false, String, List, [], ◌∷◌, ◌++◌, some, arith, str_eq, ==_iff}
use model_lib.Transactions.State.{Store}
use model_lib.Transactions.Begin.{add_to_timeout_list, remove_from_timeout_list}
use model_lib.TimeoutList.{join_fields}
use model_lib.TimeoutList.Removal.{remove_id_lem}
use model_lib.Executor.Timeouts.{get_timeout_list, write_to_str, add_timeout_list, set_timeout}

-- The text of a height is well formed: its first field is empty only where the whole text is.
abbrev pub IsWellFormed : List String → Type 0
IsWellFormed [] = Unit
IsWellFormed (x ∷ []) = Unit
IsWellFormed (x ∷ y ∷ ys) = str_eq x "" ≡ false

-- The executor's own additions, whose first id is not empty, are read back at the end of the list of a
-- height whose text is stored and has an empty first field only where it is the empty text, so also
-- where the list was emptied before.
pub get_timeout_list-add :
    (height : ℕ) (id : String) (ids fields : List String) (s : Store)
    → str_eq id "" ≡ false
    → s.timeout height ≡ some fields
    → IsWellFormed fields
    → get_timeout_list height (set_timeout height (add_timeout_list height (id ∷ ids) s) s)
      ≡ get_timeout_list height s ++ id ∷ ids
unfolding get_timeout_list set_timeout add_timeout_list write_to_str
get_timeout_list-add height id ids [] s n e w = ground (arith, ==_iff height height)
get_timeout_list-add height id ids (x ∷ []) s n e w = ground (arith, ==_iff height height)
get_timeout_list-add height id ids (x ∷ y ∷ ys) s n e w = ground (arith, ==_iff height height)

-- Where a list holds one id and this id leaves it, the contract's next addition to the list is lost to
-- the executor, which then reads no ids at that height.
pub add_to_timeout_list_lost :
    (height : ℕ) (left joined : String) (s s' : Store)
    → s.timeout height ≡ some (left ∷ [])
    → remove_from_timeout_list height left s ≡ some s'
    → get_timeout_list height (add_to_timeout_list height joined s') ≡ []
unfolding remove_from_timeout_list get_timeout_list add_to_timeout_list join_fields
add_to_timeout_list_lost height left joined s s' e r =
    ground (arith, ==_iff height height, (remove_id_lem left [] [] tt tt).0, eq_refl "")
