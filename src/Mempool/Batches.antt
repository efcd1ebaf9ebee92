-- ===== src/Mempool/Batches.antt =====
-- The batches that the leader makes: generateBlock of pkg/order/mempool/mempool_impl.go, and GenerateBlock
-- of mempool.go.
use model_lib.Base.{
  ℕ, zero, suc, ◌+◌, ◌-◌, ◌%◌, ltb, leb, ◌==◌, ◌&&◌, ◌||◌, not, String, Bool, true, false, List, [],
  ◌∷◌, Option, none, some, if◌then◌else◌, length, uint64_mod,
}
use model_lib.Mempool.State.{
  Tx, IndexKey, same_key, has, TimeoutKey, NonceCache, TxStore, Mempool, RequestBatch,
}
use model_lib.Mempool.Nonces.{get_commit_nonce}

-- The variables of the loop of generateBlock: the batched transactions, the cached nonces, the skipped
-- transactions and the result, the newest first, and whether the batch is full.
pub record Batching : Type 0 where
  pub batched : List IndexKey
  pub nonces : NonceCache
  pub skipped : List IndexKey
  pub result : List IndexKey
  pub full : Bool

-- nonce++ on a uint64
unfoldable pub next_key : IndexKey → IndexKey
next_key k = record k { nonce = (k.nonce + 1) % uint64_mod }

-- Whether the transaction before this one is batched.
unfoldable pub seen_previous : IndexKey → List IndexKey → Bool
unfolding has
seen_previous k batched = leb 1 k.nonce && has same_key (record k { nonce = k.nonce - 1 }) batched

unfoldable pub add_batched : ℕ → IndexKey → Batching → Batching
add_batched size k s = record s {
  batched = k ∷ s.batched;
  result = k ∷ s.result;
  full = length (k ∷ s.result) == size;
}

-- The transactions that were skipped before and can now be included
unfoldable pub take_skipped : ℕ → ℕ → IndexKey → Batching → Batching
unfolding has add_batched next_key
take_skipped zero size k s = s
take_skipped (suc fuel) size k s = elim (has same_key k s.skipped) [
  | false ↦ s
  | true ↦ elim (add_batched size k s).full [
    | true ↦ add_batched size k s
    | false ↦ take_skipped fuel size (next_key k) (add_batched size k s)
  ]
]

-- The transaction is the next one of its account, or follows a batched one.
unfoldable pub include_tx : ℕ → IndexKey → Batching → Batching
unfolding add_batched take_skipped next_key
include_tx size k s = elim (add_batched size k s).full [
  | true ↦ add_batched size k s
  | false ↦ take_skipped (suc (length s.skipped)) size (next_key k) (add_batched size k s)
]

unfoldable pub skip_tx : IndexKey → Batching → Batching
skip_tx k s = record s { skipped = k ∷ s.skipped }

-- One transaction of the priority index, which is not batched
unfoldable pub choose_tx : (String → ℕ) → ℕ → IndexKey → Batching → Batching
unfolding get_commit_nonce seen_previous include_tx skip_tx
choose_tx ledger size k s =
    let read = get_commit_nonce ledger k.account s.nonces in
    elim (seen_previous k s.batched || (k.nonce == read.0)) [
      | true ↦ include_tx size k (record s { nonces = read.1 })
      | false ↦ skip_tx k (record s { nonces = read.1 })
    ]

abbrev pub index_key : TimeoutKey → IndexKey
index_key t = record { account = t.account; nonce = t.nonce }

-- One transaction of the priority index
unfoldable pub visit_tx : (String → ℕ) → ℕ → IndexKey → Batching → Batching
unfolding has choose_tx
visit_tx ledger size k s = elim (has same_key k s.batched) [
  | true ↦ s
  | false ↦ choose_tx ledger size k s
]

-- The loop over the priority index
unfoldable pub gather : (String → ℕ) → ℕ → List TimeoutKey → Batching → Batching
unfolding visit_tx
gather ledger size [] s = s
gather ledger size (t ∷ ts) s =
    let s1 = visit_tx ledger size (index_key t) s in
    elim s1.full [ true ↦ s1 | false ↦ gather ledger size ts s1 ]

-- getTxByOrderKey
unfoldable pub get_tx_by_order_key : TxStore → IndexKey → Option Tx
get_tx_by_order_key store k = elim (store.all_txs k.account) [
  | none ↦ none
  | some list ↦ elim (list.items k.nonce) [ none ↦ none | some item ↦ some item.tx ]
]

-- The values of the keys, which are the newest first
unfoldable pub tx_list_of : TxStore → List IndexKey → List (Option Tx) → List (Option Tx)
unfolding get_tx_by_order_key
tx_list_of store [] txs = txs
tx_list_of store (k ∷ ks) txs = tx_list_of store ks (get_tx_by_order_key store k ∷ txs)

unfoldable pub size_of_batch : Mempool → ℕ
size_of_batch m =
    if ltb m.batch_size m.tx_store.priority_non_batch_size
    then m.batch_size
    else m.tx_store.priority_non_batch_size

unfoldable pub start_batching : Mempool → Batching
start_batching m = record {
  batched = m.tx_store.batched_txs;
  nonces = m.tx_store.nonce_cache;
  skipped = [];
  result = [];
  full = false;
}

-- What follows the loop: the error of an empty batch, or the batch.
unfoldable pub finish_batch : Batching → Mempool → Mempool × Option RequestBatch
unfolding tx_list_of
finish_batch s m =
    let store = record m.tx_store { nonce_cache = s.nonces; batched_txs = s.batched } in
    elim (not m.is_timed && ((length s.result == 0) && ltb 0 store.priority_non_batch_size)) [
      | true ↦ (record m { tx_store = record store { priority_non_batch_size = 0 } }, none)
      | false ↦ (
        record m {
          batch_seq_no = (m.batch_seq_no + 1) % uint64_mod;
          tx_store = record store {
            priority_non_batch_size =
                if leb (length s.result) store.priority_non_batch_size
                then store.priority_non_batch_size - length s.result
                else store.priority_non_batch_size;
          };
        },
        some (record {
          tx_list = tx_list_of store s.result [];
          height = (m.batch_seq_no + 1) % uint64_mod;
        }),
      )
    ]

-- generateBlock; none is the error
unfoldable pub generate_block : (String → ℕ) → Mempool → Mempool × Option RequestBatch
unfolding gather size_of_batch start_batching finish_batch
generate_block ledger m =
    finish_batch (gather ledger (size_of_batch m) m.tx_store.priority_index (start_batching m)) m

-- GenerateBlock
unfoldable pub generate_batch : (String → ℕ) → Mempool → Mempool × Option RequestBatch
unfolding generate_block
generate_batch ledger m = elim (not m.is_timed && (m.tx_store.priority_non_batch_size == 0)) [
  | true ↦ (m, none)
  | false ↦ generate_block ledger m
]
