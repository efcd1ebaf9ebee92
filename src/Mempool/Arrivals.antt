-- ===== src/Mempool/Arrivals.antt =====
-- What ProcessTransactions and generateBlock of pkg/order/mempool/mempool_impl.go leave of the transactions of the
-- accounts.
use model_lib.Base.{
  ℕ, suc, ◌<◌, ◌≡◌, refl, sym, ap, subst, ◌∙◌, inl, inr, ltb, leb, ◌==◌, ◌&&◌, not, Bool,
  Bool-cases, Option-cases, String, List, [], ◌∷◌, ◌++◌, Option, some, some-injective, lookup,
  insert, keys, uint64_mod, str_eq, arith,
}
use model_lib.Mempool.State.{Tx, IndexKey, Trees, TxStore, Mempool, RequestBatch, has, same_key}
use model_lib.Mempool.Indices.{TxMap, append_tx, make_ordered_index_key}
use model_lib.Mempool.Nonces.{get_pending_nonce}
use model_lib.Mempool.Batches.{
  gather, size_of_batch, start_batching, Batching, finish_batch, generate_block, generate_batch,
}
use model_lib.Mempool.Insert.{
  Screened, screen_hash, screen_tx, screen_txs, batch_if_full, process_transactions,
}
use model_lib.Mempool.WellFormed.{
  SmallNonces, SmallMap, WellFormed, insert_txs-WellFormed, process_dirty_account-WellFormed,
}

SmallNonces-append :
    (txs : List Tx) (tx : Tx)
    → SmallNonces txs
    → suc tx.nonce < uint64_mod
    → SmallNonces (txs ++ tx ∷ [])
SmallNonces-append [] tx h fits = (fits, tt)
SmallNonces-append (x ∷ xs) tx h fits = (h.0, SmallNonces-append xs tx h.1 fits)

insert-SmallMap :
    (account : String) (txs : List Tx) (m : TxMap)
    → SmallNonces txs
    → SmallMap m
    → SmallMap (insert account txs m)
unfolding insert
insert-SmallMap account txs [] fits h = (fits, tt)
insert-SmallMap account txs (e ∷ es) fits h = elim (Bool-cases (str_eq e.0 account)) [
  | inl t ↦ rw (insert, t) (fits, h.1)
  | inr t ↦ rw (insert, t) (h.0, insert-SmallMap account txs es fits h.1)
]

lookup-SmallMap :
    (account : String) (m : TxMap) (txs : List Tx)
    → SmallMap m
    → lookup account m ≡ some txs
    → SmallNonces txs
unfolding lookup
lookup-SmallMap account [] txs h e = absurd (ground (arith, e))
lookup-SmallMap account (x ∷ xs) txs h e = elim (Bool-cases (str_eq x.0 account)) [
  | inl t ↦ subst SmallNonces (some-injective (sym (rw (lookup, t) refl) ∙ e)) h.0
  | inr t ↦ lookup-SmallMap account xs txs h.1 (sym (rw (lookup, t) refl) ∙ e)
]

append_tx-SmallMap :
    (account : String) (tx : Tx) (m : TxMap)
    → suc tx.nonce < uint64_mod
    → SmallMap m
    → SmallMap (append_tx account tx m)
unfolding append_tx
append_tx-SmallMap account tx m fits h = elim (Option-cases (lookup account m)) [
  | inl e ↦ rw (append_tx, e) (insert-SmallMap account (tx ∷ []) m (fits, tt) h)
  | inr (txs, e) ↦
      let small = SmallNonces-append txs tx (lookup-SmallMap account m txs h e) fits in
      rw (append_tx, e) (insert-SmallMap account (txs ++ tx ∷ []) m small h)
]

screen_tx-SmallMap :
    (ledger : String → ℕ) (hashes : String → Option IndexKey) (tx : Tx) (s : Screened)
    → suc tx.nonce < uint64_mod
    → SmallMap s.valid_txs
    → SmallMap (screen_tx ledger hashes tx s).valid_txs
unfolding screen_tx screen_hash
screen_tx-SmallMap ledger hashes tx s fits h =
    elim (Bool-cases (ltb tx.nonce (get_pending_nonce ledger tx.from s.nonces).0)) [
      | inl e ↦ rw (screen_tx, e) h
      | inr e ↦ elim (Bool-cases (has same_key (make_ordered_index_key tx.from tx) s.pointers)) [
        | inl f ↦ rw (screen_tx, e, f) h
        | inr f ↦ elim (Option-cases (hashes tx.hash)) [
          | inl g ↦
              rw (screen_tx, e, f, screen_hash, g)
                (append_tx-SmallMap tx.from tx s.valid_txs fits h)
          | inr (p, g) ↦ rw (screen_tx, e, f, screen_hash, g) h
        ]
      ]
    ]

screen_txs-SmallMap :
    (ledger : String → ℕ) (hashes : String → Option IndexKey) (txs : List Tx) (s : Screened)
    → SmallNonces txs
    → SmallMap s.valid_txs
    → SmallMap (screen_txs ledger hashes txs s).valid_txs
unfolding screen_txs
screen_txs-SmallMap ledger hashes [] s small h = h
screen_txs-SmallMap ledger hashes (tx ∷ txs) s small h =
    screen_txs-SmallMap ledger hashes txs (screen_tx ledger hashes tx s) small.1
      (screen_tx-SmallMap ledger hashes tx s small.0 h)

-- A batch changes no account.
generate_block-same :
    (ledger : String → ℕ) (m : Mempool)
    → (generate_block ledger m).0.tx_store.all_txs ≡ m.tx_store.all_txs
unfolding generate_block
generate_block-same ledger m =
    finished (gather ledger (size_of_batch m) m.tx_store.priority_index (start_batching m))
  where
    finished : (s : Batching) → (finish_batch s m).0.tx_store.all_txs ≡ m.tx_store.all_txs
    finished s = unfold finish_batch in ground arith

pub generate_batch-same :
    (ledger : String → ℕ) (m : Mempool)
    → (generate_batch ledger m).0.tx_store.all_txs ≡ m.tx_store.all_txs
unfolding generate_batch
generate_batch-same ledger m =
    elim (Bool-cases (not m.is_timed && (m.tx_store.priority_non_batch_size == 0))) [
      | inl e ↦ rw (generate_batch, e) refl
      | inr e ↦ rw (generate_batch, e) (generate_block-same ledger m)
    ]

batch_if_full-same :
    (ledger : String → ℕ) (is_leader : Bool) (m : Mempool)
    → (batch_if_full ledger is_leader m).0.tx_store.all_txs ≡ m.tx_store.all_txs
unfolding batch_if_full
batch_if_full-same ledger is_leader m =
    elim (Bool-cases
      (is_leader && (leb m.batch_size m.tx_store.priority_non_batch_size && not m.is_timed))) [
        | inl e ↦ rw (batch_if_full, e) (generate_block-same ledger m)
        | inr e ↦ rw (batch_if_full, e) refl
      ]

-- The accounts decide.
pub same-WellFormed :
    (store store1 : TxStore) → store1.all_txs ≡ store.all_txs → WellFormed store → WellFormed store1
unfolding WellFormed
same-WellFormed store store1 same h a m there = h a m (sym (ap (λ t. t a) same) ∙ there)

pub process_transactions-WellFormed :
    (trees : Trees) (ledger : String → ℕ) (now : ℕ) (txs : List Tx) (is_leader is_local : Bool)
    (m : Mempool)
    → SmallNonces txs
    → WellFormed m.tx_store
    → (posted : List Tx) × (m1 : Mempool) × (batch : Option RequestBatch) × (process_transactions
          trees ledger now txs is_leader is_local m
        ≡ some (posted, m1, batch))
      × WellFormed m1.tx_store
unfolding process_transactions
process_transactions-WellFormed trees ledger now txs is_leader is_local m small h =
    let store = m.tx_store in
    let s =
      screen_txs ledger store.tx_hash_map txs (record {
        valid_txs = [];
        valid_tx_list = [];
        pointers = [];
        nonces = store.nonce_cache;
      }) in
    let fits = screen_txs-SmallMap ledger store.tx_hash_map txs _ small tt in
    let h1 =
      insert_txs-WellFormed trees now is_local s.valid_txs (record store { nonce_cache = s.nonces })
        fits (same-WellFormed store (record store { nonce_cache = s.nonces }) refl h) in
    let (store1, run, same) =
      process_dirty_account-WellFormed trees ledger (keys s.valid_txs) _ h1 in
    let m1 = record m { tx_store = store1 } in
    (
      s.valid_tx_list,
      (batch_if_full ledger is_leader m1).0,
      (batch_if_full ledger is_leader m1).1,
      rw (process_transactions, run) refl,
      same-WellFormed store1 _ (batch_if_full-same ledger is_leader m1)
          (same-WellFormed _ store1 same h1),
    )
