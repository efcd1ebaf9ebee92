-- ===== src/Mempool/Commits.antt =====
-- Transactions that are committed: processCommitTransactions of pkg/order/mempool/mempool_impl.go. The five
-- goroutines of an account write different parts of the pool.
use model_lib.Base.{
  ℕ, ◌+◌, ◌%◌, ltb, ◌&&◌, String, List, [], ◌∷◌, Option, none, some, if◌then◌else◌, length,
  uint64_mod, put, delete, insert, lookup, has_key,
}
use model_lib.Mempool.State.{IndexKey, same_key, Trees, SortedMap, TxStore, Mempool}
use model_lib.Mempool.Nonces.{get_commit_nonce, update_committed_nonce}
use model_lib.Mempool.Times.{remove_by_ttl_key}
use model_lib.Mempool.Indices.{
  TxMap, remove_by_sorted_nonce_key, remove_by_ordered_queue_key, remove_by_timeout_key,
}
use model_lib.Mempool.Accounts.{forward}
use model_lib.Mempool.Insert.{update_earliest_timestamp}

-- delete(batchedTxs, key)
unfoldable pub delete_batched : IndexKey → List IndexKey → List IndexKey
delete_batched k [] = []
delete_batched k (j ∷ js) = if same_key j k then delete_batched k js else j ∷ delete_batched k js

-- The variables of the first loop: the nonces to update, the dirty accounts and the store
pub record Committing : Type 0 where
  pub updates : List (String × ℕ)
  pub dirty : List String
  pub store : TxStore

unfoldable pub value_or_zero : Option ℕ → ℕ
value_or_zero none = 0
value_or_zero (some n) = n

unfoldable pub add_account : String → List String → List String
unfolding has_key
add_account account accounts = if has_key account accounts then accounts else account ∷ accounts

-- One hash that the pool knows
unfoldable pub commit_pointer : (String → ℕ) → String → IndexKey → Committing → Committing
unfolding get_commit_nonce lookup insert value_or_zero delete_batched add_account
commit_pointer ledger hash pointer s =
    let read = get_commit_nonce ledger pointer.account s.store.nonce_cache in
    let new_commit_nonce = (pointer.nonce + 1) % uint64_mod in
    record {
      updates =
          if ltb (value_or_zero (lookup pointer.account s.updates)) new_commit_nonce
            && ltb read.0 new_commit_nonce
          then insert pointer.account new_commit_nonce s.updates
          else s.updates;
      dirty = add_account pointer.account s.dirty;
      store = record s.store {
        nonce_cache = read.1;
        tx_hash_map = delete s.store.tx_hash_map hash;
        batched_txs = delete_batched pointer s.store.batched_txs;
      };
    }

unfoldable pub commit_hash : (String → ℕ) → String → Committing → Committing
unfolding commit_pointer
commit_hash ledger hash s = elim (s.store.tx_hash_map hash) [
  | none ↦ s
  | some pointer ↦ commit_pointer ledger hash pointer s
]

unfoldable pub commit_hashes : (String → ℕ) → List String → Committing → Committing
unfolding commit_hash
commit_hashes ledger [] s = s
commit_hashes ledger (hash ∷ hashes) s = commit_hashes ledger hashes (commit_hash ledger hash s)

-- The loop over the hashes, and the commit nonces that it leads to
unfoldable pub commit_nonces_of : (String → ℕ) → List String → TxStore → Committing
unfolding commit_hashes update_committed_nonce
commit_nonces_of ledger hashes store =
    let s = commit_hashes ledger hashes (record { updates = []; dirty = []; store = store }) in
    record s {
      store = record s.store { nonce_cache = update_committed_nonce s.updates s.store.nonce_cache };
    }

-- priorityNonBatchSize becomes min(nonBatchedTxs, readyNum)
unfoldable pub cap_non_batch_size : TxStore → TxStore
cap_non_batch_size store = record store {
  priority_non_batch_size =
      if ltb (length store.priority_index) store.priority_non_batch_size
      then length store.priority_index
      else store.priority_non_batch_size;
}

module _ (trees : Trees) where
  -- The removed transactions of an account leave the indices, and its own, list.
  unfoldable pub remove_committed : String → TxMap → SortedMap → TxStore → TxStore
  unfolding remove_by_sorted_nonce_key remove_by_ordered_queue_key remove_by_timeout_key
      remove_by_ttl_key update_earliest_timestamp
  remove_committed account removed list store = update_earliest_timestamp (record store {
    all_txs =
        put store.all_txs account
          (record list { index = remove_by_sorted_nonce_key trees removed list.index });
    priority_index = remove_by_timeout_key trees removed store.priority_index;
    ttl_index = remove_by_ttl_key trees.timeouts removed store.ttl_index;
    remove_timeout_index = remove_by_ttl_key trees.timeouts removed store.remove_timeout_index;
    parking_lot_index = remove_by_ordered_queue_key trees removed store.parking_lot_index;
  })

  -- One dirty account; none where forward panics
  unfoldable pub clean_account : (String → ℕ) → String → TxStore → Option TxStore
  unfolding get_commit_nonce forward remove_committed
  clean_account ledger account store =
      let read = get_commit_nonce ledger account store.nonce_cache in
      let store1 = record store { nonce_cache = read.1 } in
      elim (store.all_txs account) [
        | none ↦ some store1
        | some list ↦ elim (forward read.0 list) [
          | none ↦ none
          | some (removed, left) ↦ some (remove_committed account removed left store1)
        ]
      ]

  unfoldable pub clean_accounts : (String → ℕ) → List String → TxStore → Option TxStore
  unfolding clean_account
  clean_accounts ledger [] store = some store
  clean_accounts ledger (account ∷ accounts) store = elim (clean_account ledger account store) [
    | none ↦ none
    | some store1 ↦ clean_accounts ledger accounts store1
  ]

  -- processCommitTransactions; none where forward panics
  unfoldable pub process_commit_transactions : (String → ℕ) → List String → Mempool → Option Mempool
  unfolding commit_nonces_of clean_accounts cap_non_batch_size
  process_commit_transactions ledger hashes m =
      let s = commit_nonces_of ledger hashes m.tx_store in
      elim (clean_accounts ledger s.dirty s.store) [
        | none ↦ none
        | some store ↦ some (record m { tx_store = cap_non_batch_size store })
      ]
