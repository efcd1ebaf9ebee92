-- ===== src/Mempool/Progress.antt =====
-- A transaction that is due makes generateBlock of pkg/order/mempool/mempool_impl.go put something into the
-- batch.
use model_lib.Base.{
  ℕ, zero, suc, ◌+◌, ◌≤◌, ◌<◌, ◌≡◌, refl, sym, subst, ◌∙◌, ◌⊎◌, inl, inr, ◌==◌, ==_iff, ◌||◌,
  String, true, false, Bool-cases, List, [], ◌∷◌, Option, some, length, uint64_mod, ◌%◌, arith,
}
use model_lib.Mempool.State.{
  TxStore, Tx, IndexKey, TimeoutKey, same_key, same_timeout, has, Mempool, RequestBatch,
}
use model_lib.Mempool.Nonces.{
  committed, get_commit_nonce, get_commit_nonce-committed, committed-get_commit_nonce,
}
use model_lib.Mempool.Keys.{same_key-≡}
use model_lib.Mempool.Batches.{
  Batching, next_key, seen_previous, add_batched, take_skipped, include_tx, skip_tx, choose_tx,
  index_key, visit_tx, gather, size_of_batch, start_batching, finish_batch, generate_block,
  tx_list_of, get_tx_by_order_key,
}

-- There is a transaction, or nil, for each key.
length-tx_list_of :
    (store : TxStore) (ks : List IndexKey) (txs : List (Option Tx))
    → length (tx_list_of store ks txs) ≡ length ks + length txs
unfolding tx_list_of
length-tx_list_of store [] txs = omega arith
length-tx_list_of store (k ∷ ks) txs =
    omega (arith, length-tx_list_of store ks (get_tx_by_order_key store k ∷ txs))

-- The loop for skipped transactions takes nothing away.
take_skipped-more :
    (fuel size : ℕ) (k : IndexKey) (s : Batching)
    → length s.result ≤ length (take_skipped fuel size k s).result
unfolding take_skipped add_batched
take_skipped-more zero size k s = omega arith
take_skipped-more (suc fuel) size k s =
    let rest = take_skipped-more fuel size (next_key k) (add_batched size k s) in
    elim (Bool-cases (has same_key k s.skipped)) [
      | inr e ↦ rw (take_skipped, e) (omega arith)
      | inl e ↦ elim (Bool-cases (add_batched size k s).full) [
        | inl f ↦ rw (take_skipped, e, f) (omega arith)
        | inr f ↦ rw (take_skipped, e, f) (omega (arith, rest))
      ]
    ]

include_tx-more :
    (size : ℕ) (k : IndexKey) (s : Batching) → length s.result < length (include_tx size k s).result
unfolding include_tx add_batched
include_tx-more size k s =
    let rest =
      take_skipped-more (suc (length s.skipped)) size (next_key k) (add_batched size k s) in
    elim (Bool-cases (add_batched size k s).full) [
      | inl f ↦ rw (include_tx, f) (omega arith)
      | inr f ↦ rw (include_tx, f) (omega (arith, rest))
    ]

-- A transaction that is visited adds to the result, or leaves it and the batched ones as they are.
abbrev Advances : (String → ℕ) → Batching → Batching → Type 0
Advances ledger s t =
    (0 < length t.result)
    ⊎ ((t.full ≡ s.full)
        × (t.result ≡ s.result)
        × (t.batched ≡ s.batched)
        × ((a : String) → committed ledger t.nonces a ≡ committed ledger s.nonces a))

choose_tx-Advances :
    (ledger : String → ℕ) (size : ℕ) (k : IndexKey) (s : Batching)
    → Advances ledger s (choose_tx ledger size k s)
unfolding choose_tx skip_tx
choose_tx-Advances ledger size k s =
    let read = get_commit_nonce ledger k.account s.nonces in
    let more = include_tx-more size k (record s { nonces = read.1 }) in
    elim (Bool-cases (seen_previous k s.batched || (k.nonce == read.0))) [
      | inl e ↦ rw (choose_tx, e) (inl (omega (arith, more)))
      | inr e ↦
          rw (choose_tx, e)
            (inr (refl, refl, refl, λ a. committed-get_commit_nonce ledger k.account a s.nonces))
    ]

visit_tx-Advances :
    (ledger : String → ℕ) (size : ℕ) (k : IndexKey) (s : Batching)
    → Advances ledger s (visit_tx ledger size k s)
unfolding visit_tx
visit_tx-Advances ledger size k s = elim (Bool-cases (has same_key k s.batched)) [
  | inl e ↦ rw (visit_tx, e) (inr (refl, refl, refl, λ a. refl))
  | inr e ↦ rw (visit_tx, e) (choose_tx-Advances ledger size k s)
]

-- A due transaction that is visited is included.
visit_tx-due :
    (ledger : String → ℕ) (size : ℕ) (k : IndexKey) (s : Batching)
    → has same_key k s.batched ≡ false
    → k.nonce ≡ committed ledger s.nonces k.account
    → 0 < length (visit_tx ledger size k s).result
unfolding visit_tx choose_tx
visit_tx-due ledger size k s new due =
    let read = get_commit_nonce ledger k.account s.nonces in
    let more = include_tx-more size k (record s { nonces = read.1 }) in
    let at_last : (k.nonce == read.0) ≡ true =
      (==_iff k.nonce read.0).1
        (due ∙ sym (get_commit_nonce-committed ledger k.account s.nonces)) in
    let chosen : (seen_previous k s.batched || (k.nonce == read.0)) ≡ true =
      ground (arith, at_last) in
    rw (visit_tx, new, choose_tx, chosen) (omega (arith, more))

-- What is in the result stays there.
visit_tx-more :
    (ledger : String → ℕ) (size : ℕ) (k : IndexKey) (s : Batching)
    → 0 < length s.result
    → 0 < length (visit_tx ledger size k s).result
visit_tx-more ledger size k s h = elim (visit_tx-Advances ledger size k s) [
  | inl p ↦ p
  | inr p ↦ subst (λ r. 0 < length r) (sym p.1) h
]

gather-more :
    (ledger : String → ℕ) (size : ℕ) (ts : List TimeoutKey) (s : Batching)
    → 0 < length s.result
    → 0 < length (gather ledger size ts s).result
unfolding gather
gather-more ledger size [] s h = h
gather-more ledger size (t ∷ ts) s h =
    let s1 = visit_tx ledger size (index_key t) s in
    let more = visit_tx-more ledger size (index_key t) s h in
    let rest = gather-more ledger size ts s1 more in
    elim (Bool-cases s1.full) [ inl f ↦ rw (gather, f) more | inr f ↦ rw (gather, f) rest ]

gather-visited :
    (ledger : String → ℕ) (size : ℕ) (t : TimeoutKey) (ts : List TimeoutKey) (s : Batching)
    → 0 < length (visit_tx ledger size (index_key t) s).result
    → 0 < length (gather ledger size (t ∷ ts) s).result
unfolding gather
gather-visited ledger size t ts s more =
    let s1 = visit_tx ledger size (index_key t) s in
    elim (Bool-cases s1.full) [
      | inl f ↦ rw (gather, f) more
      | inr f ↦ rw (gather, f) (gather-more ledger size ts s1 more)
    ]

-- The loop finds a due transaction.
gather-due :
    (ledger : String → ℕ) (size : ℕ) (ts : List TimeoutKey) (t : TimeoutKey) (s : Batching)
    → has same_timeout t ts ≡ true
    → s.full ≡ false
    → has same_key (index_key t) s.batched ≡ false
    → t.nonce ≡ committed ledger s.nonces t.account
    → 0 < length (gather ledger size ts s).result
unfolding gather
gather-due ledger size [] t s there room new due = absurd (unfold has in ground (arith, there))
gather-due ledger size (u ∷ us) t s there room new due = elim (Bool-cases (same_timeout u t)) [
  | inl e ↦
      let p : index_key u ≡ index_key t =
        same_key-≡ (index_key u) (index_key t) (ground (arith, e)) in
      gather-visited ledger size u us s (
        subst (λ k. 0 < length (visit_tx ledger size k s).result) (sym p)
          (visit_tx-due ledger size (index_key t) s new due))
  | inr e ↦
      let later = has_rest_timeout u t us e there in
      elim (visit_tx-Advances ledger size (index_key u) s) [
        | inl p ↦ gather-visited ledger size u us s p
        | inr (full, result, batched, nonces) ↦
            rw (gather, full, room)
              (gather-due ledger size us t (visit_tx ledger size (index_key u) s) later
                (full ∙ room) (subst (λ b. has same_key (index_key t) b ≡ false) (sym batched) new)
                (due ∙ sym (nonces t.account)))
      ]
]
  where
    has_rest_timeout :
        (u t : TimeoutKey) (us : List TimeoutKey)
        → same_timeout u t ≡ false
        → has same_timeout t (u ∷ us) ≡ true
        → has same_timeout t us ≡ true
    has_rest_timeout u t us e there =
        unfold has in subst (λ b. (b || has same_timeout t us) ≡ true) e there

-- Where a transaction in the priority index has the nonce that is committed next for its account and is not batched
-- yet, generateBlock makes a batch, with at least one transaction.
pub generate_block-due :
    (ledger : String → ℕ) (m : Mempool) (t : TimeoutKey)
    → has same_timeout t m.tx_store.priority_index ≡ true
    → has same_key (index_key t) m.tx_store.batched_txs ≡ false
    → t.nonce ≡ committed ledger m.tx_store.nonce_cache t.account
    → (b : RequestBatch) × ((generate_block ledger m).1 ≡ some b) × (0 < length b.tx_list)
unfolding generate_block start_batching committed
generate_block-due ledger m t there new due =
    made (gather ledger (size_of_batch m) m.tx_store.priority_index (start_batching m)) (
      gather-due ledger (size_of_batch m) m.tx_store.priority_index t (start_batching m) there refl
        new due)
  where
    longer :
        (store : TxStore) (ks : List IndexKey) (txs : List (Option Tx))
        → 0 < length ks
        → 0 < length (tx_list_of store ks txs)
    longer store ks txs h = omega (arith, length-tx_list_of store ks txs, h)

    made :
        (s : Batching)
        → 0 < length s.result
        → (b : RequestBatch) × ((finish_batch s m).1 ≡ some b) × (0 < length b.tx_list)
    made s h =
        let some_result : (length s.result == 0) ≡ false = ground (arith, h) in
        let stores = record m.tx_store { nonce_cache = s.nonces; batched_txs = s.batched } in
        (
          record {
            tx_list = tx_list_of stores s.result [];
            height = (m.batch_seq_no + 1) % uint64_mod;
          },
          unfold finish_batch in ground (arith, some_result),
          longer stores s.result [] h,
        )
