-- ===== src/Scenarios/Pooling.antt =====
-- Runs of the pool of pkg/order/mempool: two transactions of an account whose first is visited last, and one
-- of another account that does not come next.
use model_lib.Base.{
  All, ℕ, ◌+◌, ◌%◌, ◌≤◌, ◌<◌, ◌==◌, ◌≡◌, refl, not, ◌&&◌, String, true, false, List, [], ◌∷◌, ◌++◌,
  Option, some, none, if◌then◌else◌, length, put, has_key, uint64_mod, arith,
}
use model_lib.Mempool.State.{
  Tx, IndexKey, TimeoutKey, SortedMap, Mempool, RequestBatch, has, Ascending,
}
use model_lib.Mempool.Nonces.{committed}
use model_lib.Mempool.Pool.{Config, new_mempool_impl}
use model_lib.Mempool.Batches.{Batching, take_skipped, generate_block, tx_list_of}
use model_lib.Mempool.Order.{InOrder}
use model_lib.Mempool.Chosen.{generate_block-InOrder}
use model_lib.Mempool.Progress.{generate_block-due}
use model_lib.Mempool.Skipped.{take_skipped_enough}
use model_lib.Mempool.Accounts.{Filtered, filter_ready, from_nonce}
use model_lib.Mempool.Ready.{Splits, filter_ready-Splits}
use model_lib.Mempool.Timeouts.{shard_tx_list, read_tx}
use model_lib.Mempool.Shards.{Shards, shard_tx_list-Shards}
use model_lib.Mempool.Insert.{process_transactions}
use model_lib.Mempool.Commits.{process_commit_transactions}
use model_lib.Mempool.Committed.{process_commit_transactions-committed}
use model_lib.Mempool.WellFormed.{WellFormed}
use model_lib.Mempool.Runs.{
  PoolCall, process, generate, commit, rebroadcast, remove_alive, pool_of, perform_all,
  perform_all-WellFormed,
}
use model_lib.Mempool.Insert.{Screened}
use model_lib.Mempool.Screening.{pending, IsNew, Apart, Entered, process_transactions-IsNew}
use model_lib.Scenarios.Trees.{list_trees, insert_nonce}

abbrev no_nonces : String → ℕ
no_nonces a = 0

abbrev tx_of : String → ℕ → String → Tx
tx_of account n hash = record { from = account; nonce = n; hash = hash; timestamp = n }

abbrev pool_config : Config
pool_config = record {
  batch_size = 3;
  pool_size = 10;
  is_timed = false;
  tx_slice_size = 2;
  chain_height = 7;
}

abbrev new_pool : Mempool
new_pool = new_mempool_impl pool_config

abbrev timeout_key : String → ℕ → TimeoutKey
timeout_key account n = record { account = account; nonce = n; timestamp = n }

-- The account's transactions of nonces 0, 1 and 3
abbrev sorted : SortedMap
sorted = record {
  items = λ n.
      if n == 0
      then some (record { account = "a"; tx = tx_of "a" 0 "h0"; local = true })
      else if n == 1
      then some (record { account = "a"; tx = tx_of "a" 1 "h1"; local = true })
      else if n == 3
      then some (record { account = "a"; tx = tx_of "a" 3 "h3"; local = true })
      else none;
  index = 0 ∷ 1 ∷ 3 ∷ [];
}

abbrev full_pool : Mempool
full_pool = record {
  batch_size = 3;
  tx_slice_size = 2;
  batch_seq_no = 7;
  pool_size = 10;
  is_timed = false;
  tx_store = record {
    tx_hash_map =
        put (put (λ h. none) "h0" (record { account = "a"; nonce = 0 })) "h1"
          (record { account = "a"; nonce = 1 });
    all_txs = put (λ a. none) "a" sorted;
    nonce_cache = record { commit_nonces = λ a. none; pending_nonces = put (λ a. none) "a" 2 };
    earliest_timestamp = 0;
    ttl_index = record { items = λ k. none; index = [] };
    remove_timeout_index = record { items = λ k. none; index = [] };
    parking_lot_index = [];
    priority_index = timeout_key "a" 1 ∷ timeout_key "b" 5 ∷ timeout_key "a" 0 ∷ [];
    batched_txs = [];
    priority_non_batch_size = 3;
  };
}

-- The batch holds both transactions of the account.
full_pool_batch :
    (generate_block no_nonces full_pool).1
    ≡ some (record { tx_list = some (tx_of "a" 0 "h0") ∷ some (tx_of "a" 1 "h1") ∷ []; height = 8 })
unfolding generate_block
full_pool_batch = refl

generate_block-InOrder_example :
    (keys : List IndexKey) × ((generate_block no_nonces full_pool).0.tx_store.batched_txs
      ≡ keys ++ [])
    × InOrder (committed no_nonces full_pool.tx_store.nonce_cache) [] keys
    × length keys ≤ 3
    × ((generate_block no_nonces full_pool).1 ≡ (
        if not false && (length keys == 0)
        then none
        else some (record {
          tx_list = tx_list_of full_pool.tx_store keys [];
          height = (7 + 1) % uint64_mod;
        })))
generate_block-InOrder_example =
    generate_block-InOrder no_nonces full_pool (omega arith, (omega arith, (omega arith, tt)))
      (omega arith) (omega arith)

generate_block-due_example :
    (b : RequestBatch) × ((generate_block no_nonces full_pool).1 ≡ some b) × (0 < length b.tx_list)
generate_block-due_example =
    generate_block-due no_nonces full_pool (timeout_key "a" 0) (unfold has in refl)
      (unfold has in refl) (unfold committed in refl)

-- The first transaction was just batched, and the second was skipped.
abbrev skipping : Batching
skipping = record {
  batched = (record { account = "a"; nonce = 0 }) ∷ [];
  nonces = full_pool.tx_store.nonce_cache;
  skipped = (record { account = "a"; nonce = 1 }) ∷ [];
  result = (record { account = "a"; nonce = 0 }) ∷ [];
  full = false;
}

take_skipped_enough_example :
    take_skipped 10 3 (record { account = "a"; nonce = 1 }) skipping
    ≡ take_skipped 2 3 (record { account = "a"; nonce = 1 }) skipping
take_skipped_enough_example =
    take_skipped_enough 10 3 (record { account = "a"; nonce = 1 }) skipping (omega arith, tt)
      (omega arith)

filter_ready-Splits_example :
    (f : Filtered) × (filter_ready sorted 0 ≡ some f) × Splits (from_nonce 0 sorted.index) 0 f
filter_ready-Splits_example =
    filter_ready-Splits sorted 0
      (
        (record { account = "a"; tx = tx_of "a" 0 "h0"; local = true }, refl, refl),
        (
          (record { account = "a"; tx = tx_of "a" 1 "h1"; local = true }, refl, refl),
          ((record { account = "a"; tx = tx_of "a" 3 "h3"; local = true }, refl, refl), tt),
        ),
      )
      (unfold Ascending in ((omega arith, (omega arith, tt)), ((omega arith, tt), (tt, tt))))
      (omega arith, (omega arith, (omega arith, tt)))

shard_tx_list-Shards_example :
    (lists : List (List Tx)) × (shard_tx_list full_pool.tx_store
        (timeout_key "a" 0 ∷ timeout_key "a" 1 ∷ timeout_key "a" 3 ∷ [])
        2
      ≡ some lists)
    × Shards 2 (tx_of "a" 0 "h0" ∷ tx_of "a" 1 "h1" ∷ tx_of "a" 3 "h3" ∷ []) lists
shard_tx_list-Shards_example =
    shard_tx_list-Shards full_pool.tx_store
      (timeout_key "a" 0 ∷ timeout_key "a" 1 ∷ timeout_key "a" 3 ∷ [])
      (tx_of "a" 0 "h0" ∷ tx_of "a" 1 "h1" ∷ tx_of "a" 3 "h3" ∷ []) 2
      (unfold read_tx in (refl, (refl, (refl, tt)))) (omega arith)

-- What the pool is once the first transaction is committed
unfoldable committed_pool : Mempool
unfolding process_commit_transactions
committed_pool = elim (process_commit_transactions list_trees no_nonces ("h0" ∷ []) full_pool) [
  | none ↦ full_pool
  | some m ↦ m
]

full_pool_commits :
    process_commit_transactions list_trees no_nonces ("h0" ∷ []) full_pool ≡ some committed_pool
unfolding process_commit_transactions committed_pool
full_pool_commits = refl

process_commit_transactions-committed_example :
    (committed no_nonces full_pool.tx_store.nonce_cache "b"
      ≤ committed no_nonces committed_pool.tx_store.nonce_cache "b")
    × (0 < committed no_nonces committed_pool.tx_store.nonce_cache "a")
    × (committed_pool.tx_store.nonce_cache.pending_nonces
        ≡ full_pool.tx_store.nonce_cache.pending_nonces)
process_commit_transactions-committed_example =
    process_commit_transactions-committed list_trees no_nonces ("h0" ∷ []) full_pool committed_pool
      "h0" "b" (record { account = "a"; nonce = 0 }) full_pool_commits (unfold has_key in refl) refl
      (omega arith)

-- Three transactions arrive at the leader in the wrong order, and make a batch in the right one.
abbrev arriving : List Tx
arriving = tx_of "a" 1 "h1" ∷ tx_of "a" 0 "h0" ∷ tx_of "b" 0 "h2" ∷ []

batch_of_arriving : Option (List Tx × Mempool × Option RequestBatch) → Option RequestBatch
batch_of_arriving none = none
batch_of_arriving (some (posted, pool, batch)) = batch

arriving_batch :
    batch_of_arriving (process_transactions list_trees no_nonces 5 arriving true true new_pool)
    ≡ some (record {
      tx_list = some (tx_of "b" 0 "h2") ∷ some (tx_of "a" 0 "h0") ∷ some (tx_of "a" 1 "h1") ∷ [];
      height = 8;
    })
unfolding process_transactions batch_of_arriving new_mempool_impl insert_nonce
arriving_batch = refl

-- The transactions arrive, a batch is made, the first of them is committed, and the rest grows old.
abbrev calls : List ((String → ℕ) × PoolCall)
calls =
    (no_nonces, process 5 arriving true true)
    ∷ (no_nonces, generate)
    ∷ (no_nonces, commit ("h0" ∷ []))
    ∷ (no_nonces, rebroadcast 100 10)
    ∷ (no_nonces, remove_alive 100 10)
    ∷ []

perform_all-WellFormed_example :
    (m : Mempool) × (perform_all list_trees calls (new_mempool_impl pool_config) ≡ some m)
    × WellFormed m.tx_store
perform_all-WellFormed_example =
    perform_all-WellFormed list_trees pool_config calls
      ((omega arith, (omega arith, (omega arith, tt))), (tt, (tt, (tt, (tt, tt)))))

-- The transaction of nonce 1 comes again, and another one of nonce 2 with it.
abbrev coming_again : List Tx
coming_again = tx_of "a" 1 "h1" ∷ tx_of "a" 2 "h4" ∷ tx_of "a" 2 "h5" ∷ []

unfoldable received_pool : Mempool
unfolding process_transactions pool_of
received_pool =
    elim (pool_of
      (process_transactions list_trees no_nonces 9 coming_again false false full_pool)) [
        | none ↦ full_pool
        | some m ↦ m
      ]

full_pool_receives :
    process_transactions list_trees no_nonces 9 coming_again false false full_pool
    ≡ some (tx_of "a" 2 "h4" ∷ [], received_pool, none)
unfolding process_transactions received_pool pool_of insert_nonce
full_pool_receives = refl

process_transactions-IsNew_example :
    All
      (IsNew (pending no_nonces full_pool.tx_store.nonce_cache) full_pool.tx_store.tx_hash_map)
      (tx_of "a" 2 "h4" ∷ [])
    × Apart (tx_of "a" 2 "h4" ∷ [])
    × ((s : Screened) × Entered list_trees no_nonces 9 false false full_pool received_pool none s
        × All
            (λ e.
              All
                (IsNew
                  (pending no_nonces full_pool.tx_store.nonce_cache)
                  full_pool.tx_store.tx_hash_map)
                e.1)
            s.valid_txs)
process_transactions-IsNew_example =
    process_transactions-IsNew list_trees no_nonces 9 coming_again (tx_of "a" 2 "h4" ∷ []) false
      false full_pool received_pool none full_pool_receives
