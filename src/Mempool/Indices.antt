-- ===== src/Mempool/Indices.antt =====
-- The indices of the pool: pkg/order/mempool/btree_index.go. A map of transactions is a list of accounts with
-- theirs.
use model_lib.Base.{ℕ, String, List, [], ◌∷◌, ◌++◌, none, some, lookup, insert}
use model_lib.Mempool.State.{Tx, IndexKey, TimeoutKey, Trees}

abbrev pub TxMap : Type 0
TxMap = List (String × List Tx)

-- txs[account] = append(txs[account], tx)
unfoldable pub append_tx : String → Tx → TxMap → TxMap
unfolding lookup insert
append_tx account tx m =
    insert account (elim (lookup account m) [ none ↦ tx ∷ [] | some txs ↦ txs ++ tx ∷ [] ]) m

-- makeOrderedIndexKey
abbrev pub make_ordered_index_key : String → Tx → IndexKey
make_ordered_index_key account tx = record { account = account; nonce = tx.nonce }

-- makeTimeoutKey
abbrev pub make_timeout_key : String → Tx → TimeoutKey
make_timeout_key account tx = record {
  account = account;
  nonce = tx.nonce;
  timestamp = tx.timestamp;
}

module _ (trees : Trees) where
  unfoldable pub remove_nonces : List Tx → List ℕ → List ℕ
  remove_nonces [] index = index
  remove_nonces (tx ∷ txs) index = remove_nonces txs (trees.nonces.delete tx.nonce index)

  -- removeBySortedNonceKey
  unfoldable pub remove_by_sorted_nonce_key : TxMap → List ℕ → List ℕ
  unfolding remove_nonces
  remove_by_sorted_nonce_key [] index = index
  remove_by_sorted_nonce_key ((account, txs) ∷ m) index =
      remove_by_sorted_nonce_key m (remove_nonces txs index)

  unfoldable pub remove_keys : String → List Tx → List IndexKey → List IndexKey
  remove_keys account [] index = index
  remove_keys account (tx ∷ txs) index =
      remove_keys account txs (trees.keys.delete (make_ordered_index_key account tx) index)

  -- removeByOrderedQueueKey
  unfoldable pub remove_by_ordered_queue_key : TxMap → List IndexKey → List IndexKey
  unfolding remove_keys
  remove_by_ordered_queue_key [] index = index
  remove_by_ordered_queue_key ((account, txs) ∷ m) index =
      remove_by_ordered_queue_key m (remove_keys account txs index)

  unfoldable pub remove_timeouts : String → List Tx → List TimeoutKey → List TimeoutKey
  remove_timeouts account [] index = index
  remove_timeouts account (tx ∷ txs) index =
      remove_timeouts account txs (trees.timeouts.delete (make_timeout_key account tx) index)

  -- removeByTimeoutKey
  unfoldable pub remove_by_timeout_key : TxMap → List TimeoutKey → List TimeoutKey
  unfolding remove_timeouts
  remove_by_timeout_key [] index = index
  remove_by_timeout_key ((account, txs) ∷ m) index =
      remove_by_timeout_key m (remove_timeouts account txs index)
