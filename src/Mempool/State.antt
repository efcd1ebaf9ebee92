-- ===== src/Mempool/State.antt =====
-- The data of pkg/order/mempool: types.go, tx_store.go, btree_index.go and mempool_impl.go. Times are
-- nanoseconds since 1970.
use model_lib.Base.{
  ℕ, ◌==◌, ◌≡◌, ◌||◌, ◌&&◌, not, String, Bool, false, List, [], ◌∷◌, Option, str_eq, All, ◌<◌,
}

-- pb.Transaction, as far as the pool reads it
pub record Tx : Type 0 where
  pub from : String
  pub nonce : ℕ
  pub hash : String
  pub timestamp : ℕ

-- orderedIndexKey, and txnPointer
pub record IndexKey : Type 0 where
  pub account : String
  pub nonce : ℕ

-- orderedTimeoutKey
pub record TimeoutKey : Type 0 where
  pub account : String
  pub nonce : ℕ
  pub timestamp : ℕ

abbrev pub same_key : IndexKey → IndexKey → Bool
same_key a b = str_eq a.account b.account && (a.nonce == b.nonce)

abbrev pub same_timeout : TimeoutKey → TimeoutKey → Bool
same_timeout a b =
    str_eq a.account b.account && ((a.nonce == b.nonce) && (a.timestamp == b.timestamp))

unfoldable pub has {ℓ} : {K : Type ℓ} → (K → K → Bool) → K → List K → Bool
has same k [] = false
has same k (x ∷ xs) = same x k || has same k xs

-- What the pool uses of a tree of google/btree, whose state is the list of its keys as Ascend visits them:
-- ReplaceOrInsert and Delete, and which keys are there afterwards.
pub record Btree (K : Type 0) (same : K → K → Bool) : Type 0 where
  pub insert : K → List K → List K
  pub delete : K → List K → List K
  pub has-insert : (k j : K) (t : List K) → has same j (insert k t) ≡ (same k j || has same j t)
  pub has-delete :
      (k j : K) (t : List K) → has same j (delete k t) ≡ (not (same k j) && has same j t)

-- Keys in ascending order.
abbrev Above : ℕ → List ℕ → Type 0
Above x ys = All (λ y. x < y) ys

unfoldable pub Ascending : List ℕ → Type 0
Ascending [] = Unit
Ascending (x ∷ xs) = Above x xs × Ascending xs

-- The three kinds of trees. Ascend visits nonces in their order.
pub record Trees : Type 0 where
  pub nonces : Btree ℕ ◌==◌
  pub keys : Btree IndexKey same_key
  pub timeouts : Btree TimeoutKey same_timeout
  pub insert-Ascending : (n : ℕ) (t : List ℕ) → Ascending t → Ascending (nonces.insert n t)
  pub delete-Ascending : (n : ℕ) (t : List ℕ) → Ascending t → Ascending (nonces.delete n t)

-- txItem
pub record TxItem : Type 0 where
  pub account : String
  pub tx : Tx
  pub local : Bool

-- txSortedMap
pub record SortedMap : Type 0 where
  pub items : ℕ → Option TxItem
  pub index : List ℕ

-- txLiveTimeMap and txArrivedTimeMap; the map is keyed by account and nonce as one text
pub record LiveTimes : Type 0 where
  pub items : String → Option ℕ
  pub index : List TimeoutKey

-- nonceCache
pub record NonceCache : Type 0 where
  pub commit_nonces : String → Option ℕ
  pub pending_nonces : String → Option ℕ

-- transactionStore
pub record TxStore : Type 0 where
  pub tx_hash_map : String → Option IndexKey
  pub all_txs : String → Option SortedMap
  pub nonce_cache : NonceCache
  pub earliest_timestamp : ℕ
  pub ttl_index : LiveTimes
  pub remove_timeout_index : LiveTimes
  pub parking_lot_index : List IndexKey
  pub priority_index : List TimeoutKey
  pub batched_txs : List IndexKey
  pub priority_non_batch_size : ℕ

-- mempoolImpl
pub record Mempool : Type 0 where
  pub batch_size : ℕ
  pub tx_slice_size : ℕ
  pub batch_seq_no : ℕ
  pub pool_size : ℕ
  pub is_timed : Bool
  pub tx_store : TxStore

-- raftproto.RequestBatch; none in the list is a nil transaction
pub record RequestBatch : Type 0 where
  pub tx_list : List (Option Tx)
  pub height : ℕ
