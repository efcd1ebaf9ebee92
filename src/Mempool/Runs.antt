-- ===== src/Mempool/Runs.antt =====
-- Sequences of calls of the pool, pkg/order/mempool, each with the nonces that the ledger has by then.
use model_lib.Base.{
  ℕ, ◌≡◌, refl, ◌∙◌, inl, inr, Option-cases, Bool, String, List, [], ◌∷◌, Option, some, none, All,
  arith,
}
use model_lib.Mempool.State.{Tx, Trees, TxStore, Mempool, RequestBatch}
use model_lib.Mempool.Batches.{generate_batch}
use model_lib.Mempool.Insert.{process_transactions}
use model_lib.Mempool.Commits.{
  Committing, commit_hash, commit_hashes, commit_pointer, commit_nonces_of, cap_non_batch_size,
  process_commit_transactions,
}
use model_lib.Mempool.Timeouts.{get_timeout_transactions, remove_alive_timeout_txs}
use model_lib.Mempool.Pool.{Config, new_mempool_impl, new_transaction_store}
use model_lib.Mempool.WellFormed.{SmallNonces, WellFormed}
use model_lib.Mempool.Removals.{clean_accounts-WellFormed}
use model_lib.Mempool.Aging.{remove_alive_timeout_txs-WellFormed, get_timeout_transactions-same}
use model_lib.Mempool.Arrivals.{
  process_transactions-WellFormed, generate_batch-same, same-WellFormed,
}

pub data PoolCall : Type 0 where
  process : ℕ → List Tx → Bool → Bool → PoolCall
  generate : PoolCall
  commit : List String → PoolCall
  rebroadcast : ℕ → ℕ → PoolCall
  remove_alive : ℕ → ℕ → PoolCall

unfoldable pub pool_of : Option (List Tx × Mempool × Option RequestBatch) → Option Mempool
pool_of none = none
pool_of (some (posted, m, batch)) = some m

-- One call; none where it panics
unfoldable pub perform : Trees → (String → ℕ) → PoolCall → Mempool → Option Mempool
unfolding process_transactions generate_batch process_commit_transactions get_timeout_transactions
    remove_alive_timeout_txs pool_of
perform trees ledger (process now txs is_leader is_local) m =
    pool_of (process_transactions trees ledger now txs is_leader is_local m)
perform trees ledger generate m = some (generate_batch ledger m).0
perform trees ledger (commit hashes) m = process_commit_transactions trees ledger hashes m
perform trees ledger (rebroadcast now duration) m =
    some (get_timeout_transactions trees now duration m).0
perform trees ledger (remove_alive now duration) m =
    some (remove_alive_timeout_txs trees now duration m).1

unfoldable pub perform_all : Trees → List ((String → ℕ) × PoolCall) → Mempool → Option Mempool
unfolding perform
perform_all trees [] m = some m
perform_all trees ((ledger, call) ∷ calls) m = elim (perform trees ledger call m) [
  | none ↦ none
  | some m1 ↦ perform_all trees calls m1
]

-- No transaction that arrives has the largest uint64 as its nonce.
abbrev pub SmallCall : PoolCall → Type 0
SmallCall (process now txs is_leader is_local) = SmallNonces txs
SmallCall generate = Unit
SmallCall (commit hashes) = Unit
SmallCall (rebroadcast now duration) = Unit
SmallCall (remove_alive now duration) = Unit

abbrev Returns : Option Mempool → Type 0
Returns r = (m : Mempool) × (r ≡ some m) × WellFormed m.tx_store

commit_hash-same :
    (ledger : String → ℕ) (hash : String) (s : Committing)
    → (commit_hash ledger hash s).store.all_txs ≡ s.store.all_txs
unfolding commit_hash commit_pointer
commit_hash-same ledger hash s = elim (Option-cases (s.store.tx_hash_map hash)) [
  | inl e ↦ rw (commit_hash, e) refl
  | inr (p, e) ↦ rw (commit_hash, e) refl
]

commit_hashes-same :
    (ledger : String → ℕ) (hashes : List String) (s : Committing)
    → (commit_hashes ledger hashes s).store.all_txs ≡ s.store.all_txs
unfolding commit_hashes
commit_hashes-same ledger [] s = refl
commit_hashes-same ledger (x ∷ xs) s =
    commit_hashes-same ledger xs (commit_hash ledger x s) ∙ commit_hash-same ledger x s

commit_nonces_of-same :
    (ledger : String → ℕ) (hashes : List String) (store : TxStore)
    → (commit_nonces_of ledger hashes store).store.all_txs ≡ store.all_txs
unfolding commit_nonces_of
commit_nonces_of-same ledger hashes store =
    commit_hashes-same ledger hashes (record { updates = []; dirty = []; store = store })

module _ (trees : Trees) where
  process_commit_transactions-Returns :
      (ledger : String → ℕ) (hashes : List String) (m : Mempool)
      → WellFormed m.tx_store
      → Returns (process_commit_transactions trees ledger hashes m)
  unfolding process_commit_transactions
  process_commit_transactions-Returns ledger hashes m h =
      let s = commit_nonces_of ledger hashes m.tx_store in
      let h1 =
        same-WellFormed m.tx_store s.store (commit_nonces_of-same ledger hashes m.tx_store) h in
      let (store, run, h2) = clean_accounts-WellFormed trees ledger s.dirty s.store h1 in
      (
        record m { tx_store = cap_non_batch_size store },
        rw (process_commit_transactions, run) refl,
        same-WellFormed store (cap_non_batch_size store) (unfold cap_non_batch_size in refl) h2,
      )

  perform-Returns :
      (ledger : String → ℕ) (call : PoolCall) (m : Mempool)
      → SmallCall call
      → WellFormed m.tx_store
      → Returns (perform trees ledger call m)
  unfolding perform
  perform-Returns ledger (process now txs is_leader is_local) m small h =
      let (posted, m1, batch, run, h1) =
        process_transactions-WellFormed trees ledger now txs is_leader is_local m small h in
      (m1, unfold pool_of in rw run refl, h1)
  perform-Returns ledger generate m small h =
      (_, refl, same-WellFormed m.tx_store _ (generate_batch-same ledger m) h)
  perform-Returns ledger (commit hashes) m small h =
      process_commit_transactions-Returns ledger hashes m h
  perform-Returns ledger (rebroadcast now duration) m small h =
      (_, refl, same-WellFormed m.tx_store _ (get_timeout_transactions-same trees now duration m) h)
  perform-Returns ledger (remove_alive now duration) m small h =
      (_, refl, remove_alive_timeout_txs-WellFormed trees now duration m h)

  perform_all-Returns :
      (calls : List ((String → ℕ) × PoolCall)) (m : Mempool)
      → All (λ c. SmallCall c.1) calls
      → WellFormed m.tx_store
      → Returns (perform_all trees calls m)
  unfolding perform_all
  perform_all-Returns [] m small h = (m, refl, h)
  perform_all-Returns ((ledger, call) ∷ calls) m small h =
      let (m1, run, h1) = perform-Returns ledger call m small.0 h in
      let (m2, runs, h2) = perform_all-Returns calls m1 small.1 h1 in
      (m2, rw (perform_all, run) runs, h2)

-- From a pool that newMempoolImpl made, no sequence of calls of ProcessTransactions, GenerateBlock, CommitTransactions, GetTimeoutTransactions
-- and RemoveAliveTimeoutTxs panics in filterReady or forward, whatever the ledger says in between, where no
-- transaction that arrives has the largest uint64 as its nonce; afterwards the nonce index of each account is
-- in order, and there is a transaction of the nonce at each of its keys.
pub perform_all-WellFormed :
    (trees : Trees) (config : Config) (calls : List ((String → ℕ) × PoolCall))
    → All (λ c. SmallCall c.1) calls
    → (m : Mempool) × (perform_all trees calls (new_mempool_impl config) ≡ some m)
      × WellFormed m.tx_store
unfolding WellFormed new_mempool_impl new_transaction_store
perform_all-WellFormed trees config calls small =
    perform_all-Returns trees calls (new_mempool_impl config) small
      (λ a m there. absurd (ground (arith, there)))
