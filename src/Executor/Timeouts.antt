-- ===== src/Executor/Timeouts.antt =====
-- setTimeoutRollback, getTimeoutList and the texts of the timeout lists, of
-- internal/executor/handle.go. They read and write the store of the transaction contract.
use Prim.Native.Char.{code}
use model_lib.Base.{
  ℕ, Bool, true, false, not, ◌&&◌, String, List, [], ◌∷◌, ◌++◌, Option, none, some, ◌==◌,
  if◌then◌else◌, str_eq, put, fill,
}
use model_lib.TimeoutList.{remove_id}
use model_lib.Transactions.Status.{TransactionStatus, begin_rollback}
use model_lib.Transactions.State.{TransactionRecord, Store}

-- getTimeoutList: no ids where the first field is empty
unfoldable pub get_timeout_list : ℕ → Store → List String
get_timeout_list height s = elim (s.timeout height) [
  | none ↦ []
  | some fields ↦ elim fields [ [] ↦ [] | x ∷ xs ↦ if str_eq x "" then [] else x ∷ xs ]
]

-- isGlobalID: !strings.Contains(id, "-")
unfoldable pub is_global_id : String → Bool
is_global_id String.[] = true
is_global_id (String.◌∷◌ c s) = not (code c == b'-') && is_global_id s

-- setTxRecord
unfoldable pub set_tx_record : String → TransactionRecord → Store → Store
set_tx_record id r s = record s { tx_info = put s.tx_info id r }

-- setGlobalTxStatus, over getTxInfoByGlobalID; none for its error
unfoldable pub set_global_tx_status : String → TransactionStatus → Store → Option Store
unfolding fill
set_global_tx_status id status s = elim (s.global_tx_info id) [
  | none ↦ none
  | some info ↦ some (record s {
    global_tx_info =
        put s.global_tx_info id
          (record info { global_state = status; child_tx_info = fill status info.child_tx_info });
  })
]

-- The body of setTimeoutRollback's loop; none for its error
unfoldable pub rollback_one : ℕ → String → Store → Option Store
unfolding is_global_id set_tx_record set_global_tx_status
rollback_one height id s =
    if is_global_id id
    then set_global_tx_status id begin_rollback s
    else some (set_tx_record id (record { status = begin_rollback; height = height }) s)

-- setTimeoutRollback: the loop stops at the first error, and what it has written stays
unfoldable pub rollback_list : ℕ → List String → Store → Store × Bool
unfolding rollback_one
rollback_list height [] s = (s, true)
rollback_list height (id ∷ ids) s = elim (rollback_one height id s) [
  | none ↦ (s, false)
  | some s' ↦ rollback_list height ids s'
]

unfoldable pub set_timeout_rollback : ℕ → Store → Store × Bool
unfolding rollback_list get_timeout_list
set_timeout_rollback height s = rollback_list height (get_timeout_list height s) s

-- Whether fields are those of the empty text.
unfoldable pub is_empty_text : List String → Bool
is_empty_text [] = true
is_empty_text (x ∷ []) = str_eq x ""
is_empty_text (x ∷ y ∷ ys) = false

-- writeToStr; the text that is added may hold several ids
unfoldable pub write_to_str : List String → List String → List String
unfolding is_empty_text
write_to_str fields ids = if is_empty_text fields then ids else fields ++ ids

-- addTimeoutList: the text to store for the height
unfoldable pub add_timeout_list : ℕ → List String → Store → List String
unfolding write_to_str
add_timeout_list height ids s = elim (s.timeout height) [
  | none ↦ write_to_str ("" ∷ []) ids
  | some fields ↦ write_to_str fields ids
]

-- The loop of removeTimeoutList over removeFromStr; none where that panics
unfoldable pub remove_ids : List String → List String → Option (List String)
unfolding remove_id
remove_ids [] fields = some fields
remove_ids (id ∷ ids) fields = elim (remove_id id fields) [
  | none ↦ none
  | some left ↦ remove_ids ids left
]

-- removeTimeoutList
unfoldable pub remove_timeout_list : ℕ → List String → Store → Option (List String)
unfolding remove_ids
remove_timeout_list height ids s = elim (s.timeout height) [
  | none ↦ remove_ids ids ("" ∷ [])
  | some fields ↦ remove_ids ids fields
]

-- The write of one height's text.
unfoldable pub set_timeout : ℕ → List String → Store → Store
set_timeout height fields s = record s {
  timeout = λ h. if height == h then some fields else s.timeout h;
}
