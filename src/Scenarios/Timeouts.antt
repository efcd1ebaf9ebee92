-- ===== src/Scenarios/Timeouts.antt =====
-- Runs of the timeouts.
use model_lib.Base.{
  ◌≡◌, refl, false, List, some, [], ◌∷◌, arith, All, String, lookup, put, split_text,
}
use model_lib.TimeoutList.{remove_id}
use model_lib.Transactions.Status.{receipt_failure, begin, success}
use model_lib.Transactions.State.{TransactionInfo, Store}
use model_lib.Transactions.Begin.{add_to_timeout_list, remove_from_timeout_list}
use model_lib.Transactions.Consistency.{AllConsistent}
use model_lib.Executor.Timeouts.{get_timeout_list, set_timeout, set_timeout_rollback}
use model_lib.Executor.Rollback.{RolledBack, set_timeout_rollback-RolledBack}
use model_lib.Executor.Lists.{add_to_timeout_list_lost}
use model_lib.Executor.Histories.{
  Happening, begins, begins_multi, reports, rolls_back, history, history-AllConsistent,
}
use model_lib.Interchain.Notices.{ids_of}
use model_lib.Executor.Timeouts.{is_global_id}
use model_lib.Executor.Notices.{
  noted, IdsOfChains, Notifier, notify_chain, parsed_chain, get_timeout_ibtps_map,
}
use model_lib.Executor.Told.{
  notices, notices_of_info, notices_of_children, ids_for, get_timeout_ibtps_map_lem,
}
use model_lib.Scenarios.Data.{
  machine, library, context, empty_store, first_id, second_id, split_colon,
}

-- Two transactions wait for the height 110.
abbrev waiting : Store
waiting = set_timeout 110 ("a-b-1" ∷ "a-b-2" ∷ []) empty_store

set_timeout_rollback-RolledBack_example :
    All (RolledBack 110 (set_timeout_rollback 110 waiting).0) (get_timeout_list 110 waiting)
unfolding set_timeout_rollback set_timeout
set_timeout_rollback-RolledBack_example = set_timeout_rollback-RolledBack 110 waiting refl

empty_store-AllConsistent : AllConsistent empty_store
empty_store-AllConsistent g info e = absurd (ground arith)

-- A group begins, one of its children fails, and the block of its timeout ends.
abbrev calls : List Happening
calls =
    begins context "a-b-1" 10 false
    ∷ begins_multi context "group" "a-c-1" 10 false 2
    ∷ reports context "a-c-1" receipt_failure
    ∷ rolls_back 110
    ∷ []

history-AllConsistent_example : AllConsistent (history machine library calls empty_store)
history-AllConsistent_example =
    history-AllConsistent machine library calls empty_store empty_store-AllConsistent

-- The list of the height is the empty text.
abbrev emptied : Store
emptied = set_timeout 110 ("" ∷ []) empty_store

abbrev alone : Store
alone = set_timeout 110 ("group" ∷ []) empty_store

abbrev left : Store
left = set_timeout 110 ("" ∷ []) alone

the_last_leaves : remove_from_timeout_list 110 "group" alone ≡ some left
unfolding remove_from_timeout_list set_timeout remove_id
the_last_leaves = refl

add_to_timeout_list_lost_example : get_timeout_list 110 (add_to_timeout_list 110 "other" left) ≡ []
unfolding set_timeout
add_to_timeout_list_lost_example =
    add_to_timeout_list_lost 110 "group" "other" alone left refl the_last_leaves

-- A group whose first child has succeeded times out.
abbrev half_done : TransactionInfo
half_done = record {
  global_state = begin;
  height = 10;
  child_tx_info = (first_id, success) ∷ (second_id, begin) ∷ [];
  child_tx_count = 2;
}

abbrev group_waiting : Store
group_waiting = record (set_timeout 110 ("group" ∷ []) empty_store) {
  global_tx_info = put empty_store.global_tx_info "group" half_done;
}

abbrev notifier : Notifier
notifier = record { protocol = library; bitxhub_id = "1356"; notify_src = 0; notify_dest = 1 }

get_timeout_ibtps_map_lem_example :
    (m : IdsOfChains) × (get_timeout_ibtps_map notifier 110 group_waiting ≡ noted m)
    × ((c : String)
        → ids_of (lookup c m)
          ≡ ids_for notifier c
              (notices notifier group_waiting (get_timeout_list 110 group_waiting)))
unfolding get_timeout_list set_timeout notices notices_of_info notices_of_children is_global_id
    notify_chain parsed_chain split_colon split_text
get_timeout_ibtps_map_lem_example =
    get_timeout_ibtps_map_lem notifier 110 group_waiting (λ e. (half_done, refl), tt)
      (("chain_a", refl), (("chain_b", refl), (("chain_a", refl), tt)))
