-- ===== src/Mempool/Chosen.antt =====
-- What generateBlock of pkg/order/mempool/mempool_impl.go puts into a batch.
use model_lib.Base.{
  ℕ, suc, ◌+◌, ◌%◌, ◌≤◌, ◌<◌, ◌≡◌, refl, ◌∙◌, ◌==◌, ◌&&◌, not, String, List, [], ◌∷◌, ◌++◌, Option,
  some, none, if◌then◌else◌, length, All, uint64_mod, arith,
}
use model_lib.Mempool.State.{Tx, IndexKey, has, TxStore, Mempool, RequestBatch}
use model_lib.Mempool.Nonces.{committed}
use model_lib.Mempool.Batches.{
  Batching, gather, tx_list_of, get_tx_by_order_key, size_of_batch, start_batching, finish_batch,
  generate_block,
}
use model_lib.Mempool.Order.{InOrder, Sound, Sound-gather}

-- The transactions are read from the accounts alone.
tx_list_of-accounts :
    (s t : TxStore) (ks : List IndexKey) (txs : List (Option Tx))
    → t.all_txs ≡ s.all_txs
    → tx_list_of t ks txs ≡ tx_list_of s ks txs
unfolding tx_list_of
tx_list_of-accounts s t [] txs e = refl
tx_list_of-accounts s t (k ∷ ks) txs e =
    let first : get_tx_by_order_key t k ≡ get_tx_by_order_key s k =
      unfold get_tx_by_order_key in rw e refl in
    rw first (tx_list_of-accounts s t ks (get_tx_by_order_key s k ∷ txs) e)

-- The batch of the keys.
abbrev batch_of : Mempool → List IndexKey → Option RequestBatch
batch_of m keys =
    if not m.is_timed && (length keys == 0)
    then none
    else some (record {
      tx_list = tx_list_of m.tx_store keys [];
      height = (m.batch_seq_no + 1) % uint64_mod;
    })

unfoldable chosen : (String → ℕ) → Mempool → Batching
chosen ledger m = gather ledger (size_of_batch m) m.tx_store.priority_index (start_batching m)

chosen-Sound :
    (ledger : String → ℕ) (m : Mempool)
    → All (λ t. suc t.nonce < uint64_mod) m.tx_store.priority_index
    → 0 < m.batch_size
    → 0 < m.tx_store.priority_non_batch_size
    → Sound ledger
        (committed ledger m.tx_store.nonce_cache)
        m.tx_store.batched_txs
        (size_of_batch m)
        (chosen ledger m)
unfolding chosen start_batching
chosen-Sound ledger m small size some_ready =
    Sound-gather ledger (committed ledger m.tx_store.nonce_cache) m.tx_store.batched_txs
      (size_of_batch m) m.tx_store.priority_index (start_batching m) small start refl
  where
    start :
        Sound ledger
          (committed ledger m.tx_store.nonce_cache)
          m.tx_store.batched_txs
          (size_of_batch m)
          (start_batching m)
    start = record {
      known = λ a. refl;
      batched_lem = refl;
      in_order = unfold InOrder in tt;
      waits = λ j there. absurd (unfold has in ground (arith, there));
      bound = omega arith;
      room = λ e. unfold size_of_batch in ground arith;
    }

-- Where transactions are ready, the sizes of a batch and of the pool are not 0 and no nonce is the largest
-- uint64, generateBlock marks keys as batched that were not, at most as many as the size of a batch and none twice, each of which has
-- the nonce that is committed next for its account or comes after the transaction of the nonce before it; the
-- batch holds their transactions in this order, and has the next height; where there is no such key and batches
-- are not timed there is the error.
pub generate_block-InOrder :
    (ledger : String → ℕ) (m : Mempool)
    → All (λ t. suc t.nonce < uint64_mod) m.tx_store.priority_index
    → 0 < m.batch_size
    → 0 < m.tx_store.priority_non_batch_size
    → (keys : List IndexKey) × ((generate_block ledger m).0.tx_store.batched_txs
        ≡ keys ++ m.tx_store.batched_txs)
      × InOrder (committed ledger m.tx_store.nonce_cache) m.tx_store.batched_txs keys
      × length keys ≤ m.batch_size
      × ((generate_block ledger m).1 ≡ batch_of m keys)
unfolding generate_block finish_batch chosen
generate_block-InOrder ledger m small size some_ready =
    let s = chosen ledger m in
    let h = chosen-Sound ledger m small size some_ready in
    (s.result, marked s ∙ h.batched_lem, h.in_order, omega (arith, h.bound, smaller), made s)
  where
    smaller : size_of_batch m ≤ m.batch_size
    smaller = unfold size_of_batch in ground arith

    marked : (s : Batching) → (finish_batch s m).0.tx_store.batched_txs ≡ s.batched
    marked s = ground arith

    made : (s : Batching) → (finish_batch s m).1 ≡ batch_of m s.result
    made s =
        unfold finish_batch in
        ground (
          arith,
          some_ready,
          tx_list_of-accounts m.tx_store
              (record m.tx_store { nonce_cache = s.nonces; batched_txs = s.batched }) s.result []
              refl,
        )
