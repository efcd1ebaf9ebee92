-- ===== src/Mempool/Aging.antt =====
-- What RemoveAliveTimeoutTxs and GetTimeoutTransactions of pkg/order/mempool/mempool_impl.go leave of the transactions
-- of the accounts.
use model_lib.Base.{
  ℕ, ◌≡◌, refl, ◌∙◌, inl, inr, ◌==◌, true, false, Bool-cases, Option-cases, String, List, [], ◌∷◌,
  Option, none, if◌then◌else◌, All, arith,
}
use model_lib.Mempool.State.{Tx, TimeoutKey, Trees, TxItem, SortedMap, TxStore, Mempool}
use model_lib.Mempool.Indices.{TxMap, remove_by_sorted_nonce_key}
use model_lib.Mempool.Timeouts.{
  not_yet, timeout_items, delete_items, update_live_times, get_timeout_transactions, remove_account,
  remove_accounts, remove_alive_timeout_txs, remove_aged,
}
use model_lib.Mempool.WellFormed.{WellKept, WellFormed, put-WellFormed}
use model_lib.Mempool.Removals.{has_nonce, gone, removed-WellKept}

delete_items-kept :
    (txs : List Tx) (items : ℕ → Option TxItem) (n : ℕ)
    → has_nonce n txs ≡ false
    → delete_items txs items n ≡ items n
unfolding delete_items has_nonce
delete_items-kept [] items n h = refl
delete_items-kept (tx ∷ txs) items n h =
    let here : (tx.nonce == n) ≡ false = ground (arith, h) in
    let later : has_nonce n txs ≡ false = ground (arith, h) in
    delete_items-kept txs (λ j. if tx.nonce == j then none else items j) n later ∙ (rw here refl)

-- All transactions of the map are gone.
abbrev Within : TxMap → TxMap → Type 0
Within removed = All (λ e. (n : ℕ) → has_nonce n e.1 ≡ true → gone n removed ≡ true)

entries-Within :
    (removed m : TxMap) → ((n : ℕ) → gone n m ≡ true → gone n removed ≡ true) → Within removed m
unfolding gone
entries-Within removed [] h = tt
entries-Within removed ((account, txs) ∷ m) h =
    (λ n e. h n (ground (arith, e)), entries-Within removed m (λ n e. h n (ground (arith, e))))

module _ (trees : Trees) where
  remove_account-WellFormed :
      (removed : TxMap) (account : String) (txs : List Tx) (store : TxStore)
      → ((n : ℕ) → has_nonce n txs ≡ true → gone n removed ≡ true)
      → WellFormed store
      → WellFormed (remove_account trees removed account txs store)
  unfolding remove_account
  remove_account-WellFormed removed account txs store within h =
      elim (Option-cases (store.all_txs account)) [
        | inl e ↦ rw (remove_account, e) h
        | inr (m, e) ↦
            let kept : WellKept m = unfold WellFormed in h account m e in
            let left : SortedMap = record {
              items = delete_items txs m.items;
              index = remove_by_sorted_nonce_key trees removed m.index;
            } in
            put-WellFormed account left store (remove_account trees removed account txs store)
              (rw (remove_account, e) refl) h
              (removed-WellKept trees m left removed kept refl
                (λ n g. delete_items-kept txs m.items n (none_here n g)))
      ]
    where
      none_here : (n : ℕ) → gone n removed ≡ false → has_nonce n txs ≡ false
      none_here n g = elim (Bool-cases (has_nonce n txs)) [
        | inr e ↦ e
        | inl e ↦ absurd (ground (arith, within n e, g))
      ]

  remove_accounts-WellFormed :
      (removed m : TxMap) (store : TxStore)
      → Within removed m
      → WellFormed store
      → WellFormed (remove_accounts trees removed m store)
  unfolding remove_accounts
  remove_accounts-WellFormed removed [] store within h = h
  remove_accounts-WellFormed removed ((account, txs) ∷ m) store within h =
      remove_accounts-WellFormed removed m (remove_account trees removed account txs store) within.1
        (remove_account-WellFormed removed account txs store within.0 h)

  pub remove_alive_timeout_txs-WellFormed :
      (now duration : ℕ) (m : Mempool)
      → WellFormed m.tx_store
      → WellFormed (remove_alive_timeout_txs trees now duration m).1.tx_store
  unfolding remove_alive_timeout_txs WellFormed
  remove_alive_timeout_txs-WellFormed now duration m h =
      let store = m.tx_store in
      let s =
        remove_aged now duration store store.remove_timeout_index.index
          (record { removed_txs = []; remove_cnt = 0; hashes = store.tx_hash_map }) in
      remove_accounts-WellFormed s.removed_txs s.removed_txs
        (record store { tx_hash_map = s.hashes })
        (entries-Within s.removed_txs s.removed_txs (λ n e. e)) h

  update_live_times-same :
      (now : ℕ) (items : List TimeoutKey) (store : TxStore)
      → (update_live_times trees now items store).all_txs ≡ store.all_txs
  unfolding update_live_times
  update_live_times-same now [] store = refl
  update_live_times-same now (item ∷ items) store = update_live_times-same now items _

  pub get_timeout_transactions-same :
      (now duration : ℕ) (m : Mempool)
      → (get_timeout_transactions trees now duration m).0.tx_store.all_txs ≡ m.tx_store.all_txs
  unfolding get_timeout_transactions
  get_timeout_transactions-same now duration m =
      elim (Bool-cases (not_yet now m.tx_store.earliest_timestamp duration)) [
        | inl e ↦ rw (get_timeout_transactions, e) refl
        | inr e ↦
            rw (get_timeout_transactions, e)
              (update_live_times-same now
                (timeout_items now duration m.tx_store m.tx_store.ttl_index.index) m.tx_store)
      ]
