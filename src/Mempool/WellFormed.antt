-- ===== src/Mempool/WellFormed.antt =====
-- The transactions of the accounts and their nonce indices, as insertTxs of pkg/order/mempool/tx_store.go and
-- processDirtyAccount of mempool_impl.go keep them.
use model_lib.Base.{
  ℕ, suc, ◌<◌, ◌≡◌, refl, sym, ap, subst, ◌∙◌, inl, inr, ◌==◌, ==_iff, ◌||◌, Bool, true, false,
  Bool-cases, Option-cases, String, List, [], ◌∷◌, ◌++◌, Option, some, some-injective, All,
  uint64_mod, str_eq, put, arith,
}
use model_lib.Mempool.State.{Tx, Trees, TxItem, SortedMap, TxStore, has, Ascending}
use model_lib.Mempool.Indices.{TxMap}
use model_lib.Mempool.Nonces.{get_pending_nonce, update_pending_nonce}
use model_lib.Mempool.Ready.{filter_ready-Splits}
use model_lib.Mempool.Insert.{
  empty_map, account_map, insert_tx, insert_account_txs, insert_txs, place_txs, process_account,
  process_accounts, process_dirty_account, update_earliest_timestamp,
}

-- An index that is in order and has a transaction of the nonce at each key
pub record WellKept (m : SortedMap) : Type 0 where
  pub held :
      (n : ℕ)
      → has ◌==◌ n m.index ≡ true
      → (item : TxItem) × (m.items n ≡ some item) × (item.tx.nonce ≡ n)
  pub small : (n : ℕ) → has ◌==◌ n m.index ≡ true → suc n < uint64_mod
  pub up : Ascending m.index

unfoldable pub WellFormed : TxStore → Type 0
WellFormed store = (account : String) (m : SortedMap) → store.all_txs account ≡ some m → WellKept m

abbrev pub SmallNonces : List Tx → Type 0
SmallNonces = All (λ tx. suc tx.nonce < uint64_mod)

abbrev pub SmallMap : TxMap → Type 0
SmallMap = All (λ e. SmallNonces e.1)

pub All-has : (P : ℕ → Type 0) (ns : List ℕ) → ((n : ℕ) → has ◌==◌ n ns ≡ true → P n) → All P ns
unfolding has
All-has P [] h = tt
All-has P (n ∷ ns) h = (h n (ground arith), All-has P ns (λ j there. h j (ground (arith, there))))

pub put-WellFormed :
    (account : String) (m : SortedMap) (store store1 : TxStore)
    → store1.all_txs ≡ put store.all_txs account m
    → WellFormed store
    → WellKept m
    → WellFormed store1
unfolding WellFormed
put-WellFormed account m store store1 written h kept other m1 there =
    elim (Bool-cases (str_eq account other)) [
      | inl e ↦
          let same : m ≡ m1 = some-injective (sym (rw (written, e) refl) ∙ there) in
          subst WellKept same kept
      | inr e ↦ h other m1 (sym (rw (written, e) refl) ∙ there)
    ]

account_map-WellKept :
    (account : String) (store : TxStore) → WellFormed store → WellKept (account_map account store)
unfolding WellFormed account_map empty_map
account_map-WellKept account store h = elim (Option-cases (store.all_txs account)) [
  | inl e ↦
      rw (account_map, e)
        (record {
          held = λ n there. absurd (unfold has in ground (arith, there));
          small = λ n there. absurd (unfold has in ground (arith, there));
          up = unfold Ascending in tt;
        })
  | inr (m, e) ↦ rw (account_map, e) (h account m e)
]

module _ (trees : Trees) where
  insert_tx-WellFormed :
      (now : ℕ) (is_local : Bool) (account : String) (tx : Tx) (store : TxStore)
      → suc tx.nonce < uint64_mod
      → WellFormed store
      → WellFormed (insert_tx trees now is_local account tx store)
  unfolding insert_tx
  insert_tx-WellFormed now is_local account tx store fits h =
      put-WellFormed account _ store (insert_tx trees now is_local account tx store) refl h
        (record {
          held = λ n there. elim (Bool-cases (tx.nonce == n)) [
            | inl e ↦
                let same : tx.nonce ≡ n = (==_iff tx.nonce n).0 e in
                (record { account = account; tx = tx; local = is_local }, rw e refl, same)
            | inr e ↦
                let (item, found, nonce) = kept.held n (was n e there) in (item, rw e found, nonce)
          ];
          small = λ n there. elim (Bool-cases (tx.nonce == n)) [
            | inl e ↦ subst (λ j. suc j < uint64_mod) ((==_iff tx.nonce n).0 e) fits
            | inr e ↦ kept.small n (was n e there)
          ];
          up = trees.insert-Ascending tx.nonce (account_map account store).index kept.up;
        })
    where
      kept : WellKept (account_map account store)
      kept = account_map-WellKept account store h

      was :
          (n : ℕ)
          → (tx.nonce == n) ≡ false
          → has ◌==◌ n (trees.nonces.insert tx.nonce (account_map account store).index) ≡ true
          → has ◌==◌ n (account_map account store).index ≡ true
      was n e there =
          subst (λ b. (b || has ◌==◌ n (account_map account store).index) ≡ true) e
            (sym (trees.nonces.has-insert tx.nonce n (account_map account store).index) ∙ there)

  insert_account_txs-WellFormed :
      (now : ℕ) (is_local : Bool) (account : String) (txs : List Tx) (store : TxStore)
      → SmallNonces txs
      → WellFormed store
      → WellFormed (insert_account_txs trees now is_local account txs store)
  unfolding insert_account_txs
  insert_account_txs-WellFormed now is_local account [] store small h = h
  insert_account_txs-WellFormed now is_local account (tx ∷ txs) store small h =
      insert_account_txs-WellFormed now is_local account txs
        (insert_tx trees now is_local account tx store) small.1
        (insert_tx-WellFormed now is_local account tx store small.0 h)

  pub insert_txs-WellFormed :
      (now : ℕ) (is_local : Bool) (m : TxMap) (store : TxStore)
      → SmallMap m
      → WellFormed store
      → WellFormed (insert_txs trees now is_local m store)
  unfolding insert_txs
  insert_txs-WellFormed now is_local [] store small h = h
  insert_txs-WellFormed now is_local ((account, txs) ∷ m) store small h =
      insert_txs-WellFormed now is_local m (insert_account_txs trees now is_local account txs store)
        small.1 (insert_account_txs-WellFormed now is_local account txs store small.0 h)

  -- Where nothing panics, the transactions of the accounts stay.
  abbrev Same : List (String × ℕ) × TxStore → Option (List (String × ℕ) × TxStore) → Type 0
  Same s r = (t : List (String × ℕ) × TxStore) × (r ≡ some t) × (t.1.all_txs ≡ s.1.all_txs)

  process_account-Same :
      (ledger : String → ℕ) (account : String) (updates : List (String × ℕ)) (store : TxStore)
      → WellFormed store
      → Same (updates, store) (process_account trees ledger account (updates, store))
  unfolding process_account WellFormed
  process_account-Same ledger account updates store h =
      elim (Option-cases (store.all_txs account)) [
        | inl e ↦ ((updates, store), rw (process_account, e) refl, refl)
        | inr (m, e) ↦
            let kept = h account m e in
            let read = get_pending_nonce ledger account store.nonce_cache in
            let (f, run, split) =
              filter_ready-Splits m read.0 (All-has _ m.index kept.held) kept.up
                (All-has _ m.index kept.small) in
            (
              (
                updates ++ (account, f.demand) ∷ [],
                place_txs trees account f (record store { nonce_cache = read.1 }),
              ),
              rw (process_account, e, run) refl,
              unfold place_txs update_earliest_timestamp in refl,
            )
      ]

  process_accounts-Same :
      (ledger : String → ℕ) (accounts : List String) (updates : List (String × ℕ)) (store : TxStore)
      → WellFormed store
      → Same (updates, store) (process_accounts trees ledger accounts (updates, store))
  unfolding process_accounts
  process_accounts-Same ledger [] updates store h = ((updates, store), refl, refl)
  process_accounts-Same ledger (account ∷ accounts) updates store h =
      let ((updates1, store1), run, same) = process_account-Same ledger account updates store h in
      let h1 : WellFormed store1 =
        unfold WellFormed in λ a m there. h a m (sym (ap (λ t. t a) same) ∙ there) in
      let (t, runs, sames) = process_accounts-Same ledger accounts updates1 store1 h1 in
      (t, rw (process_accounts, run) runs, sames ∙ same)

  pub process_dirty_account-WellFormed :
      (ledger : String → ℕ) (accounts : List String) (store : TxStore)
      → WellFormed store
      → (store1 : TxStore) × (process_dirty_account trees ledger accounts store ≡ some store1)
        × (store1.all_txs ≡ store.all_txs)
  unfolding process_dirty_account
  process_dirty_account-WellFormed ledger accounts store h =
      let ((updates, store1), run, same) = process_accounts-Same ledger accounts [] store h in
      (
        record store1 { nonce_cache = update_pending_nonce updates store1.nonce_cache },
        rw (process_dirty_account, run) refl,
        same,
      )
