-- ===== src/Mempool/Committed.antt =====
-- The committed nonces after processCommitTransactions of pkg/order/mempool/mempool_impl.go.
use model_lib.Base.{
  ℕ, suc, ◌≤◌, ◌<◌, ◌≡◌, refl, sym, subst, ◌∙◌, inl, inr, String, true, Option-cases, List, [], ◌∷◌,
  some, some-injective, uint64_mod, lookup, has_key, arith,
}
use model_lib.Mempool.State.{IndexKey, Trees, NonceCache, TxStore, Mempool}
use model_lib.Mempool.Nonces.{
  committed, get_commit_nonce, committed-get_commit_nonce, pending-update_committed_nonce,
}
use model_lib.Mempool.Commits.{
  Committing, commit_hashes, remove_committed, clean_account, clean_accounts, cap_non_batch_size,
  commit_nonces_of, process_commit_transactions,
}
use model_lib.Mempool.Insert.{update_earliest_timestamp}
use model_lib.Mempool.Raise.{Once, after, Above, update_committed_nonce-after, after-same}
use model_lib.Mempool.Hashes.{
  Raised, get_commit_nonce-pending, commit_hashes-Raised, commit_hashes-more, commit_hashes-reaches,
}

-- The dirty accounts change no nonces.
abbrev SameNonces : (String → ℕ) → NonceCache → NonceCache → Type 0
SameNonces ledger nc nc1 =
    ((a : String) → committed ledger nc1 a ≡ committed ledger nc a)
    × (nc1.pending_nonces ≡ nc.pending_nonces)

clean_account-nonces :
    (trees : Trees) (ledger : String → ℕ) (account : String) (store store1 : TxStore)
    → clean_account trees ledger account store ≡ some store1
    → store1.nonce_cache ≡ (get_commit_nonce ledger account store.nonce_cache).1
clean_account-nonces trees ledger account store store1 run =
    unfold clean_account remove_committed update_earliest_timestamp in ground (arith, run)

clean_account-SameNonces :
    (trees : Trees) (ledger : String → ℕ) (account : String) (store store1 : TxStore)
    → clean_account trees ledger account store ≡ some store1
    → SameNonces ledger store.nonce_cache store1.nonce_cache
clean_account-SameNonces trees ledger account store store1 run =
    subst (SameNonces ledger store.nonce_cache)
      (sym (clean_account-nonces trees ledger account store store1 run))
      (
        λ a. committed-get_commit_nonce ledger account a store.nonce_cache,
        get_commit_nonce-pending ledger account store.nonce_cache,
      )

clean_accounts-SameNonces :
    (trees : Trees) (ledger : String → ℕ) (accounts : List String) (store store1 : TxStore)
    → clean_accounts trees ledger accounts store ≡ some store1
    → SameNonces ledger store.nonce_cache store1.nonce_cache
unfolding clean_accounts
clean_accounts-SameNonces trees ledger [] store store1 run =
    subst (λ t. SameNonces ledger store.nonce_cache t.nonce_cache) (some-injective run)
      (λ a. refl, refl)
clean_accounts-SameNonces trees ledger (a ∷ rest) store store1 run =
    elim (Option-cases (clean_account trees ledger a store)) [
      | inl e ↦ absurd (ground (arith, e, run))
      | inr (store2, e) ↦
          let first = clean_account-SameNonces trees ledger a store store2 e in
          let later =
            clean_accounts-SameNonces trees ledger rest store2 store1
              (sym (rw (clean_accounts, e) refl) ∙ run) in
          (λ b. later.0 b ∙ first.0 b, later.1 ∙ first.1)
    ]

commit_nonces_of-SameNonces :
    (trees : Trees) (ledger : String → ℕ) (hashes : List String) (m m1 : Mempool)
    → process_commit_transactions trees ledger hashes m ≡ some m1
    → SameNonces ledger
        (commit_nonces_of ledger hashes m.tx_store).store.nonce_cache
        m1.tx_store.nonce_cache
unfolding process_commit_transactions cap_non_batch_size
commit_nonces_of-SameNonces trees ledger hashes m m1 run =
    let s = commit_nonces_of ledger hashes m.tx_store in
    elim (Option-cases (clean_accounts trees ledger s.dirty s.store)) [
      | inl e ↦ absurd (ground (arith, e, run))
      | inr (store, e) ↦
          let opened : process_commit_transactions trees ledger hashes m
              ≡ some (record m { tx_store = cap_non_batch_size store }) =
            rw (process_commit_transactions, e) refl in
          subst (λ t. SameNonces ledger s.store.nonce_cache t.tx_store.nonce_cache)
            (some-injective (sym opened ∙ run))
            (clean_accounts-SameNonces trees ledger s.dirty s.store store e)
    ]

-- Where processCommitTransactions does not panic, the committed nonce of an account is not lower afterwards, the
-- committed nonce of the account of a transaction that the pool knows by one of the hashes, and whose nonce is not the largest uint64, is
-- above the nonce of that transaction, and the pending nonces are the same as before.
pub process_commit_transactions-committed :
    (trees : Trees) (ledger : String → ℕ) (hashes : List String) (m m1 : Mempool)
    (hash account : String) (p : IndexKey)
    → process_commit_transactions trees ledger hashes m ≡ some m1
    → has_key hash hashes ≡ true
    → m.tx_store.tx_hash_map hash ≡ some p
    → suc p.nonce < uint64_mod
    → (committed ledger m.tx_store.nonce_cache account
        ≤ committed ledger m1.tx_store.nonce_cache account)
      × (p.nonce < committed ledger m1.tx_store.nonce_cache p.account)
      × (m1.tx_store.nonce_cache.pending_nonces ≡ m.tx_store.nonce_cache.pending_nonces)
unfolding commit_nonces_of
process_commit_transactions-committed trees ledger hashes m m1 hash account p run there known
      small =
    let nc = m.tx_store.nonce_cache in
    let c = committed ledger nc in
    let s0 : Committing = record { updates = []; dirty = []; store = m.tx_store } in
    let start : Raised ledger c nc.pending_nonces s0 = record {
      known = λ a. refl;
      kept = refl;
      once = unfold Once in tt;
      above = unfold Above lookup in λ a n e. absurd (ground (arith, e));
    } in
    let s = commit_hashes ledger hashes s0 in
    let raised = commit_hashes-Raised ledger c nc.pending_nonces hashes s0 start in
    let same = commit_nonces_of-SameNonces trees ledger hashes m m1 run in
    let written : (a : String) → committed ledger m1.tx_store.nonce_cache a ≡ after c s.updates a =
      λ a.
        same.0 a
        ∙ (update_committed_nonce-after ledger s.updates s.store.nonce_cache a raised.once
            ∙ after-same c (committed ledger s.store.nonce_cache) a s.updates (raised.known a)) in
    let start_nonce : after c [] account ≡ c account = unfold after lookup in refl in
    let more = commit_hashes-more ledger c nc.pending_nonces hashes s0 account start in
    let reached =
      commit_hashes-reaches ledger c nc.pending_nonces hashes hash p s0 start small there
        (inl known) in
    (
      rw (written account) (omega (arith, start_nonce, more)),
      rw (written p.account) reached,
      same.1 ∙ (pending-update_committed_nonce s.updates s.store.nonce_cache ∙ raised.kept),
    )
