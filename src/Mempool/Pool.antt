-- ===== src/Mempool/Pool.antt =====
-- The smaller operations of the pool, in pkg/order/mempool/mempool_impl.go and mempool.go, and the cache in front of
-- it, tx_cache.go.
use model_lib.Base.{
  ℕ, ltb, leb, ◌==◌, String, Bool, true, false, List, [], ◌∷◌, ◌++◌, Option, none, some,
  if◌then◌else◌, length,
}
use model_lib.Mempool.State.{Tx, LiveTimes, NonceCache, TxStore, Mempool}
use model_lib.Mempool.Nonces.{get_pending_nonce}
use model_lib.Mempool.Batches.{get_tx_by_order_key}

-- Config, as far as the pool is made by it
pub record Config : Type 0 where
  pub batch_size : ℕ
  pub pool_size : ℕ
  pub is_timed : Bool
  pub tx_slice_size : ℕ
  pub chain_height : ℕ

unfoldable pub default_pool_size : ℕ
default_pool_size = 50000

unfoldable pub default_batch_size : ℕ
default_batch_size = 500

unfoldable pub default_tx_set_size : ℕ
default_tx_set_size = 10

abbrev pub no_times : LiveTimes
no_times = record { items = λ k. none; index = [] }

-- newNonceCache
unfoldable pub new_nonce_cache : NonceCache
new_nonce_cache = record { commit_nonces = λ a. none; pending_nonces = λ a. none }

-- newTransactionStore
unfoldable pub new_transaction_store : TxStore
unfolding new_nonce_cache
new_transaction_store = record {
  tx_hash_map = λ h. none;
  all_txs = λ a. none;
  nonce_cache = new_nonce_cache;
  earliest_timestamp = 0;
  ttl_index = no_times;
  remove_timeout_index = no_times;
  parking_lot_index = [];
  priority_index = [];
  batched_txs = [];
  priority_non_batch_size = 0;
}

-- newMempoolImpl
unfoldable pub new_mempool_impl : Config → Mempool
unfolding new_transaction_store default_pool_size default_batch_size default_tx_set_size
new_mempool_impl config = record {
  batch_size = if config.batch_size == 0 then default_batch_size else config.batch_size;
  tx_slice_size = if config.tx_slice_size == 0 then default_tx_set_size else config.tx_slice_size;
  batch_seq_no = config.chain_height;
  pool_size = if config.pool_size == 0 then default_pool_size else config.pool_size;
  is_timed = config.is_timed;
  tx_store = new_transaction_store;
}

-- HasPendingRequest
unfoldable pub has_pending_request : Mempool → Bool
has_pending_request m = ltb 0 m.tx_store.priority_non_batch_size

-- SetBatchSeqNo
unfoldable pub set_batch_seq_no : ℕ → Mempool → Mempool
set_batch_seq_no batch_seq m = record m { batch_seq_no = batch_seq }

-- GetPendingNonceByAccount
unfoldable pub get_pending_nonce_by_account : (String → ℕ) → String → Mempool → ℕ × Mempool
unfolding get_pending_nonce
get_pending_nonce_by_account ledger account m =
    let (nonce, cache) = get_pending_nonce ledger account m.tx_store.nonce_cache in
    (nonce, record m { tx_store = record m.tx_store { nonce_cache = cache } })

-- GetTransaction
unfoldable pub get_transaction : String → Mempool → Option Tx
unfolding get_tx_by_order_key
get_transaction hash m = elim (m.tx_store.tx_hash_map hash) [
  | none ↦ none
  | some key ↦ get_tx_by_order_key m.tx_store key
]

-- TxCache: the set that is gathered, and whether its timer runs
pub record TxCache : Type 0 where
  pub tx_set_size : ℕ
  pub tx_set : List Tx
  pub timer : Bool

-- postTxSet: the set that is sent
unfoldable pub post_tx_set : TxCache → TxCache × List Tx
post_tx_set c = (record c { tx_set = [] }, c.tx_set)

-- appendTx, for a transaction that may be nil, with the set that is sent where one is
unfoldable pub append_tx_set : Option Tx → TxCache → TxCache × Option (List Tx)
unfolding post_tx_set
append_tx_set none c = (c, none)
append_tx_set (some tx) c =
    let c1 = record c {
      tx_set = c.tx_set ++ tx ∷ [];
      timer = if length c.tx_set == 0 then true else c.timer;
    } in
    elim (leb c.tx_set_size (length c1.tx_set)) [
      | false ↦ (c1, none)
      | true ↦ let (c2, set) = post_tx_set (record c1 { timer = false }) in (c2, some set)
    ]
