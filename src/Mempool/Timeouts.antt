-- ===== src/Mempool/Timeouts.antt =====
-- Transactions that stay in the pool for long: GetTimeoutTransactions, shardTxList and RemoveAliveTimeoutTxs of
-- pkg/order/mempool/mempool_impl.go. Times and durations are not negative.
use Prim.Native.Nat.{◌/◌}
use model_lib.Base.{
  ℕ, zero, suc, ◌+◌, ◌%◌, ltb, ◌==◌, String, Bool, true, false, List, [], ◌∷◌, Option, none, some,
  if◌then◌else◌, length, put, delete,
}
use model_lib.Mempool.State.{
  Tx, IndexKey, TimeoutKey, same_key, same_timeout, has, Trees, TxItem, TxStore, Mempool,
}
use model_lib.Mempool.Times.{update_by_ttl_key, remove_by_ttl_key}
use model_lib.Mempool.Indices.{
  TxMap, append_tx, make_ordered_index_key, make_timeout_key, remove_by_sorted_nonce_key,
  remove_by_ordered_queue_key, remove_by_timeout_key,
}
use model_lib.Mempool.Batches.{index_key}
use model_lib.Mempool.Insert.{max_int64}

-- now < t + d, where the sum is an int64, which becomes negative
unfoldable pub not_yet : ℕ → ℕ → ℕ → Bool
unfolding max_int64
not_yet now t d = elim (ltb max_int64 (t + d)) [ true ↦ false | false ↦ ltb now (t + d) ]

-- The keys whose transactions are broadcast again
unfoldable pub timeout_items : ℕ → ℕ → TxStore → List TimeoutKey → List TimeoutKey
unfolding max_int64 not_yet
timeout_items now duration store [] = []
timeout_items now duration store (item ∷ items) =
    let rest = timeout_items now duration store items in
    if ltb max_int64 item.timestamp then rest else (elim (store.all_txs item.account) [
      | none ↦ []
      | some list ↦ if not_yet now item.timestamp duration then [] else item ∷ rest
    ])

-- The transaction at a key; none where there is no account or no item, and the code panics
unfoldable pub read_tx : TxStore → TimeoutKey → Option Tx
read_tx store key = elim (store.all_txs key.account) [
  | none ↦ none
  | some list ↦ elim (list.items key.nonce) [ none ↦ none | some item ↦ some item.tx ]
]

-- One list of at most so many transactions, and the keys that are left
unfoldable pub shard_list : ℕ → TxStore → List TimeoutKey → Option (List Tx × List TimeoutKey)
unfolding read_tx
shard_list zero store items = some ([], items)
shard_list (suc n) store [] = some ([], [])
shard_list (suc n) store (item ∷ items) = elim (read_tx store item) [
  | none ↦ none
  | some tx ↦ elim (shard_list n store items) [
    | none ↦ none
    | some (txs, rest) ↦ some (tx ∷ txs, rest)
  ]
]

-- The outer loop, over the keys from begin on
unfoldable pub shard_lists : ℕ → ℕ → TxStore → List TimeoutKey → Option (List (List Tx))
unfolding shard_list
shard_lists zero batch_len store items = some []
shard_lists (suc n) batch_len store items = elim (shard_list batch_len store items) [
  | none ↦ none
  | some (txs, rest) ↦ elim (shard_lists n batch_len store rest) [
    | none ↦ none
    | some lists ↦ some (txs ∷ lists)
  ]
]

unfoldable pub batch_nums : ℕ → ℕ → ℕ
batch_nums total batch_len =
    if total % batch_len == 0 then total / batch_len else suc (total / batch_len)

-- shardTxList; none where it panics, as the division by 0 does
unfoldable pub shard_tx_list : TxStore → List TimeoutKey → ℕ → Option (List (List Tx))
unfolding shard_lists batch_nums
shard_tx_list store items batch_len = elim (batch_len == 0) [
  | true ↦ none
  | false ↦ shard_lists (batch_nums (length items) batch_len) batch_len store items
]

-- getPoolTxByTxnPointer
unfoldable pub get_pool_tx_by_txn_pointer : String → ℕ → TxStore → Option TxItem
get_pool_tx_by_txn_pointer account nonce store = elim (store.all_txs account) [
  | none ↦ none
  | some list ↦ list.items nonce
]

-- The variables of the first loop of RemoveAliveTimeoutTxs
pub record Removing : Type 0 where
  pub removed_txs : TxMap
  pub remove_cnt : ℕ
  pub hashes : String → Option IndexKey

-- An item that is old enough
unfoldable pub remove_item : TxStore → TimeoutKey → TxItem → Removing → Removing
unfolding has append_tx
remove_item store key item s =
    if has same_key (index_key key) store.batched_txs
    then s
    else if has same_timeout (make_timeout_key item.account item.tx) store.priority_index
    then s
    else if has same_key (make_ordered_index_key item.account item.tx) store.parking_lot_index
    then record {
      removed_txs = append_tx item.account item.tx s.removed_txs;
      remove_cnt = s.remove_cnt + 1;
      hashes = delete s.hashes item.tx.hash;
    }
    else s

unfoldable pub remove_aged : ℕ → ℕ → TxStore → List TimeoutKey → Removing → Removing
unfolding get_pool_tx_by_txn_pointer remove_item
remove_aged now duration store [] s = s
remove_aged now duration store (key ∷ keys) s =
    elim (get_pool_tx_by_txn_pointer key.account key.nonce store) [
      | none ↦ remove_aged now duration store keys s
      | some item ↦ elim (ltb (key.timestamp + duration) now) [
        | true ↦ remove_aged now duration store keys (remove_item store key item s)
        | false ↦ s
      ]
    ]

unfoldable pub delete_items : List Tx → (ℕ → Option TxItem) → ℕ → Option TxItem
delete_items [] items = items
delete_items (tx ∷ txs) items = delete_items txs (λ n. if tx.nonce == n then none else items n)

module _ (trees : Trees) where
  unfoldable pub update_live_times : ℕ → List TimeoutKey → TxStore → TxStore
  unfolding update_by_ttl_key
  update_live_times now [] store = store
  update_live_times now (item ∷ items) store =
      update_live_times now items
        (record store { ttl_index = update_by_ttl_key trees.timeouts item now store.ttl_index })

  -- GetTimeoutTransactions: the pool, and the lists of transactions, or none where shardTxList panics
  unfoldable pub get_timeout_transactions : ℕ → ℕ → Mempool → Mempool × Option (List (List Tx))
  unfolding not_yet timeout_items update_live_times shard_tx_list
  get_timeout_transactions now duration m =
      let store = m.tx_store in
      elim (not_yet now store.earliest_timestamp duration) [
        | true ↦ (m, some [])
        | false ↦
            let items = timeout_items now duration store store.ttl_index.index in
            let store1 = update_live_times now items store in
            (record m { tx_store = store1 }, shard_tx_list store1 items m.tx_slice_size)
      ]

  -- One account of the second loop of RemoveAliveTimeoutTxs: all the removed transactions leave the indices.
  unfoldable pub remove_account : TxMap → String → List Tx → TxStore → TxStore
  unfolding remove_by_sorted_nonce_key remove_by_ordered_queue_key remove_by_timeout_key
      remove_by_ttl_key delete_items
  remove_account removed account txs store = elim (store.all_txs account) [
    | none ↦ store
    | some list ↦ record store {
      all_txs = put store.all_txs account (record {
        items = delete_items txs list.items;
        index = remove_by_sorted_nonce_key trees removed list.index;
      });
      priority_index = remove_by_timeout_key trees removed store.priority_index;
      parking_lot_index = remove_by_ordered_queue_key trees removed store.parking_lot_index;
      ttl_index = remove_by_ttl_key trees.timeouts removed store.ttl_index;
      remove_timeout_index = remove_by_ttl_key trees.timeouts removed store.remove_timeout_index;
    }
  ]

  unfoldable pub remove_accounts : TxMap → TxMap → TxStore → TxStore
  unfolding remove_account
  remove_accounts removed [] store = store
  remove_accounts removed ((account, txs) ∷ m) store =
      remove_accounts removed m (remove_account removed account txs store)

  -- RemoveAliveTimeoutTxs: the number of removed transactions and the pool
  unfoldable pub remove_alive_timeout_txs : ℕ → ℕ → Mempool → ℕ × Mempool
  unfolding remove_aged remove_accounts
  remove_alive_timeout_txs now duration m =
      let store = m.tx_store in
      let s =
        remove_aged now duration store store.remove_timeout_index.index
          (record { removed_txs = []; remove_cnt = 0; hashes = store.tx_hash_map }) in
      (
        s.remove_cnt,
        record m {
          tx_store =
              remove_accounts s.removed_txs s.removed_txs (record store { tx_hash_map = s.hashes });
        },
      )
