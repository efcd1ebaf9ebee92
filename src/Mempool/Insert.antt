-- ===== src/Mempool/Insert.antt =====
-- Transactions that arrive: ProcessTransactions and processDirtyAccount of pkg/order/mempool/mempool_impl.go,
-- insertTxs and updateEarliestTimestamp of tx_store.go. A map that is made here is iterated over in the order in which its
-- keys came; the time is an argument.
use model_lib.Base.{
  ℕ, ◌+◌, ◌%◌, ltb, leb, ◌==◌, ◌&&◌, not, String, Bool, true, false, List, [], ◌∷◌, ◌++◌, Option,
  none, some, if◌then◌else◌, length, uint64_mod, put, keys,
}
use model_lib.Mempool.State.{
  Tx, IndexKey, TimeoutKey, same_key, same_timeout, has, Trees, SortedMap, NonceCache, TxStore,
  Mempool, RequestBatch,
}
use model_lib.Mempool.Nonces.{get_pending_nonce, update_pending_nonce}
use model_lib.Mempool.Times.{insert_or_update_by_ttl_key}
use model_lib.Mempool.Indices.{TxMap, append_tx, make_ordered_index_key, make_timeout_key}
use model_lib.Mempool.Accounts.{Filtered, filter_ready}
use model_lib.Mempool.Batches.{generate_block}

-- The variables of the first loop of ProcessTransactions
pub record Screened : Type 0 where
  pub valid_txs : TxMap
  pub valid_tx_list : List Tx
  pub pointers : List IndexKey
  pub nonces : NonceCache

-- A transaction that is not too old and whose nonce did not come yet
unfoldable pub screen_hash : (String → Option IndexKey) → Tx → Screened → Screened
unfolding append_tx
screen_hash hashes tx s = elim (hashes tx.hash) [
  | some pointer ↦ record s { pointers = make_ordered_index_key tx.from tx ∷ s.pointers }
  | none ↦ record s {
    pointers = make_ordered_index_key tx.from tx ∷ s.pointers;
    valid_txs = append_tx tx.from tx s.valid_txs;
    valid_tx_list = s.valid_tx_list ++ tx ∷ [];
  }
]

unfoldable pub screen_tx : (String → ℕ) → (String → Option IndexKey) → Tx → Screened → Screened
unfolding get_pending_nonce has screen_hash
screen_tx ledger hashes tx s =
    let read = get_pending_nonce ledger tx.from s.nonces in
    elim (ltb tx.nonce read.0) [
      | true ↦ record s { nonces = read.1 }
      | false ↦ elim (has same_key (make_ordered_index_key tx.from tx) s.pointers) [
        | true ↦ record s { nonces = read.1 }
        | false ↦ screen_hash hashes tx (record s { nonces = read.1 })
      ]
    ]

unfoldable pub screen_txs :
    (String → ℕ) → (String → Option IndexKey) → List Tx → Screened → Screened
unfolding screen_tx
screen_txs ledger hashes [] s = s
screen_txs ledger hashes (tx ∷ txs) s = screen_txs ledger hashes txs (screen_tx ledger hashes tx s)

unfoldable pub empty_map : SortedMap
empty_map = record { items = λ n. none; index = [] }

unfoldable pub account_map : String → TxStore → SortedMap
unfolding empty_map
account_map account store = elim (store.all_txs account) [ none ↦ empty_map | some list ↦ list ]

unfoldable pub max_int64 : ℕ
max_int64 = 9223372036854775807

-- updateEarliestTimestamp
unfoldable pub update_earliest_timestamp : TxStore → TxStore
unfolding max_int64
update_earliest_timestamp store = record store {
  earliest_timestamp = elim store.ttl_index.index [ [] ↦ max_int64 | key ∷ rest ↦ key.timestamp ];
}

-- The batch that the leader makes at the end of ProcessTransactions
unfoldable pub batch_if_full : (String → ℕ) → Bool → Mempool → Mempool × Option RequestBatch
unfolding generate_block
batch_if_full ledger is_leader m =
    elim (is_leader && (leb m.batch_size m.tx_store.priority_non_batch_size && not m.is_timed)) [
      | true ↦ generate_block ledger m
      | false ↦ (m, none)
    ]

module _ (trees : Trees) where
  -- One transaction in the loops of insertTxs
  unfoldable pub insert_tx : ℕ → Bool → String → Tx → TxStore → TxStore
  unfolding account_map insert_or_update_by_ttl_key
  insert_tx now is_local account tx store =
      let list = account_map account store in
      record store {
        tx_hash_map = put store.tx_hash_map tx.hash (make_ordered_index_key account tx);
        all_txs = put store.all_txs account (record {
          items = λ n.
              if tx.nonce == n
              then some (record { account = account; tx = tx; local = is_local })
              else list.items n;
          index = trees.nonces.insert tx.nonce list.index;
        });
        ttl_index =
            if is_local
            then insert_or_update_by_ttl_key trees.timeouts account tx.nonce tx.timestamp
                store.ttl_index
            else store.ttl_index;
        remove_timeout_index =
            insert_or_update_by_ttl_key trees.timeouts account tx.nonce now
              store.remove_timeout_index;
      }

  unfoldable pub insert_account_txs : ℕ → Bool → String → List Tx → TxStore → TxStore
  unfolding insert_tx
  insert_account_txs now is_local account [] store = store
  insert_account_txs now is_local account (tx ∷ txs) store =
      insert_account_txs now is_local account txs (insert_tx now is_local account tx store)

  -- insertTxs; the dirty accounts are the keys of the map.
  unfoldable pub insert_txs : ℕ → Bool → TxMap → TxStore → TxStore
  unfolding insert_account_txs
  insert_txs now is_local [] store = store
  insert_txs now is_local ((account, txs) ∷ m) store =
      insert_txs now is_local m (insert_account_txs now is_local account txs store)

  unfoldable pub insert_ready : String → List Tx → List TimeoutKey → List TimeoutKey
  unfolding has
  insert_ready account [] index = index
  insert_ready account (tx ∷ txs) index = insert_ready account txs (
      if has same_timeout (make_timeout_key account tx) index
      then index
      else trees.timeouts.insert (make_timeout_key account tx) index)

  unfoldable pub insert_non_ready : String → List Tx → List IndexKey → List IndexKey
  insert_non_ready account [] index = index
  insert_non_ready account (tx ∷ txs) index =
      insert_non_ready account txs (trees.keys.insert (make_ordered_index_key account tx) index)

  -- What processDirtyAccount does with the transactions that filterReady found
  unfoldable pub place_txs : String → Filtered → TxStore → TxStore
  unfolding insert_ready insert_non_ready update_earliest_timestamp
  place_txs account f store =
      let store1 =
        update_earliest_timestamp
          (record store { priority_index = insert_ready account f.ready store.priority_index }) in
      record store1 {
        priority_non_batch_size = (store1.priority_non_batch_size + length f.ready) % uint64_mod;
        parking_lot_index = insert_non_ready account f.non_ready store1.parking_lot_index;
      }

  -- One account of processDirtyAccount, with the nonces to update; none where filterReady panics
  unfoldable pub process_account :
      (String → ℕ) → String → List (String × ℕ) × TxStore → Option (List (String × ℕ) × TxStore)
  unfolding get_pending_nonce filter_ready place_txs
  process_account ledger account (updates, store) = elim (store.all_txs account) [
    | none ↦ some (updates, store)
    | some list ↦
        let read = get_pending_nonce ledger account store.nonce_cache in
        elim (filter_ready list read.0) [
          | none ↦ none
          | some f ↦ some (
            updates ++ (account, f.demand) ∷ [],
            place_txs account f (record store { nonce_cache = read.1 }),
          )
        ]
  ]

  unfoldable pub process_accounts :
      (String → ℕ)
      → List String
      → List (String × ℕ) × TxStore
      → Option (List (String × ℕ) × TxStore)
  unfolding process_account
  process_accounts ledger [] s = some s
  process_accounts ledger (account ∷ accounts) s = elim (process_account ledger account s) [
    | none ↦ none
    | some s1 ↦ process_accounts ledger accounts s1
  ]

  -- processDirtyAccount
  unfoldable pub process_dirty_account : (String → ℕ) → List String → TxStore → Option TxStore
  unfolding process_accounts update_pending_nonce
  process_dirty_account ledger accounts store =
      elim (process_accounts ledger accounts ([], store)) [
        | none ↦ none
        | some (updates, store1) ↦
            some (record store1 { nonce_cache = update_pending_nonce updates store1.nonce_cache })
      ]

  -- ProcessTransactions: the transactions that are posted, the pool, and the batch if there is one; none
  -- where filterReady panics
  unfoldable pub process_transactions :
      (String → ℕ)
      → ℕ
      → List Tx
      → Bool
      → Bool
      → Mempool
      → Option (List Tx × Mempool × Option RequestBatch)
  unfolding screen_txs insert_txs process_dirty_account batch_if_full
  process_transactions ledger now txs is_leader is_local m =
      let store = m.tx_store in
      let s = screen_txs ledger store.tx_hash_map txs (record {
        valid_txs = [];
        valid_tx_list = [];
        pointers = [];
        nonces = store.nonce_cache;
      }) in
      elim (process_dirty_account ledger (keys s.valid_txs)
        (insert_txs now is_local s.valid_txs (record store { nonce_cache = s.nonces }))) [
          | none ↦ none
          | some store1 ↦
              let (pool, batch) = batch_if_full ledger is_leader (record m { tx_store = store1 }) in
              some (s.valid_tx_list, pool, batch)
        ]
