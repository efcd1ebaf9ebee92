-- ===== src/Mempool/Removals.antt =====
-- What processCommitTransactions and RemoveAliveTimeoutTxs of pkg/order/mempool/mempool_impl.go leave of the
-- transactions of the accounts.
use model_lib.Base.{
  ℕ, ◌<◌, ◌≡◌, refl, sym, ap, subst, ◌∙◌, inl, inr, ltb, ◌==◌, ◌||◌, ◌&&◌, not, Bool, true, false,
  Bool-cases, Option-cases, String, List, [], ◌∷◌, ◌++◌, Option, some, none, some-injective, lookup,
  insert, if◌then◌else◌, All, str_eq, eq_iff, arith,
}
use model_lib.Mempool.State.{Tx, Trees, TxItem, SortedMap, TxStore, has, Ascending}
use model_lib.Mempool.Indices.{TxMap, append_tx, remove_nonces, remove_by_sorted_nonce_key}
use model_lib.Mempool.Nonces.{get_commit_nonce}
use model_lib.Mempool.Accounts.{below_nonce, forward_loop, forward}
use model_lib.Mempool.Commits.{remove_committed, clean_account, clean_accounts}
use model_lib.Mempool.Insert.{update_earliest_timestamp}
use model_lib.Mempool.WellFormed.{WellKept, WellFormed, put-WellFormed, All-has}
use model_lib.Mempool.Ready.{Held}

-- Whether a transaction of the nonce is among them
unfoldable pub has_nonce : ℕ → List Tx → Bool
has_nonce n [] = false
has_nonce n (tx ∷ txs) = tx.nonce == n || has_nonce n txs

unfoldable pub gone : ℕ → TxMap → Bool
unfolding has_nonce
gone n [] = false
gone n ((account, txs) ∷ m) = has_nonce n txs || gone n m

has_nonce-append :
    (n : ℕ) (txs : List Tx) (tx : Tx)
    → has_nonce n (txs ++ tx ∷ []) ≡ (tx.nonce == n || has_nonce n txs)
unfolding has_nonce
has_nonce-append n [] tx = ground arith
has_nonce-append n (x ∷ xs) tx = ground (arith, has_nonce-append n xs tx)

gone-insert_new :
    (n : ℕ) (account : String) (tx : Tx) (m : TxMap)
    → lookup account m ≡ none
    → gone n (insert account (tx ∷ []) m) ≡ (tx.nonce == n || gone n m)
unfolding gone has_nonce lookup insert
gone-insert_new n account tx [] e = ground arith
gone-insert_new n account tx ((other, txs) ∷ m) e =
    ground (arith, e, gone-insert_new n account tx m, eq_iff other account)

gone-insert_old :
    (n : ℕ) (account : String) (tx : Tx) (m : TxMap) (txs : List Tx)
    → lookup account m ≡ some txs
    → gone n (insert account (txs ++ tx ∷ []) m) ≡ (tx.nonce == n || gone n m)
unfolding gone lookup insert
gone-insert_old n account tx [] txs e = absurd (ground (arith, e))
gone-insert_old n account tx ((other, old) ∷ m) txs e = elim (Bool-cases (str_eq other account)) [
  | inl t ↦
      let same : old ≡ txs = some-injective (sym (rw (lookup, t) refl) ∙ e) in
      rw (insert, t, gone, has_nonce-append n txs tx, same) (ground arith)
  | inr t ↦
      let later : lookup account m ≡ some txs = sym (rw (lookup, t) refl) ∙ e in
      rw (insert, t, gone, gone-insert_old n account tx m txs later) (ground arith)
]

gone-append_tx :
    (n : ℕ) (account : String) (tx : Tx) (m : TxMap)
    → gone n (append_tx account tx m) ≡ (tx.nonce == n || gone n m)
unfolding append_tx
gone-append_tx n account tx m = elim (Option-cases (lookup account m)) [
  | inl e ↦ rw (append_tx, e) (gone-insert_new n account tx m e)
  | inr (txs, e) ↦ rw (append_tx, e) (gone-insert_old n account tx m txs e)
]

-- What forward does with the keys that it visits.
abbrev Forwarded : List ℕ → TxMap → SortedMap → Option (TxMap × SortedMap) → Type 0
Forwarded ns removed m r =
    (removed1 : TxMap) × (m1 : SortedMap) × (r ≡ some (removed1, m1))
    × ((n : ℕ) → gone n removed1 ≡ (has ◌==◌ n ns || gone n removed))
    × ((n : ℕ) → has ◌==◌ n ns ≡ false → m1.items n ≡ m.items n)
    × (m1.index ≡ m.index)

Held-without :
    (m : SortedMap) (n : ℕ) (ns : List ℕ)
    → All (λ j. n < j) ns
    → Held m ns
    → Held (record m { items = λ j. if n == j then none else m.items j }) ns
Held-without m n [] above held = tt
Held-without m n (j ∷ js) (less, above) ((item, found, nonce), held) =
    let other : (n == j) ≡ false = ground (arith, less) in
    ((item, rw other found, nonce), Held-without m n js above held)

forward_loop-Forwarded :
    (ns : List ℕ) (removed : TxMap) (m : SortedMap)
    → Ascending ns
    → Held m ns
    → Forwarded ns removed m (forward_loop ns removed m)
unfolding forward_loop Ascending has
forward_loop-Forwarded [] removed m up held = (removed, m, refl, λ n. refl, λ n e. refl, refl)
forward_loop-Forwarded (x ∷ xs) removed m (above, up) ((item, found, nonce), held) =
    let left : SortedMap = record m { items = λ j. if x == j then none else m.items j } in
    let (removed1, m1, run, all, items, index) =
      forward_loop-Forwarded xs (append_tx item.account item.tx removed) left up
        (Held-without m x xs above held) in
    (
      removed1,
      m1,
      rw (forward_loop, found) run,
      λ n. ground (arith, all n, gone-append_tx n item.account item.tx removed, nonce),
      λ n e. kept n (items n (ground (arith, e))) (ground (arith, e)),
      index,
    )
  where
    kept :
        {i : Option TxItem} (n : ℕ)
        → i ≡ (if x == n then none else m.items n)
        → (x == n) ≡ false
        → i ≡ m.items n
    kept n e f = e ∙ (rw f refl)

All-below_nonce : (P : ℕ → Type 0) (d : ℕ) (ns : List ℕ) → All P ns → All P (below_nonce d ns)
unfolding below_nonce
All-below_nonce P d [] h = h
All-below_nonce P d (n ∷ ns) h = elim (Bool-cases (ltb n d)) [
  | inl e ↦ rw (below_nonce, e) (h.0, All-below_nonce P d ns h.1)
  | inr e ↦ rw (below_nonce, e) (All-below_nonce P d ns h.1)
]

below_nonce-Ascending : (d : ℕ) (ns : List ℕ) → Ascending ns → Ascending (below_nonce d ns)
unfolding below_nonce Ascending
below_nonce-Ascending d [] h = h
below_nonce-Ascending d (n ∷ ns) h = elim (Bool-cases (ltb n d)) [
  | inl e ↦
      rw (below_nonce, e) (All-below_nonce (λ y. n < y) d ns h.0, below_nonce-Ascending d ns h.1)
  | inr e ↦ rw (below_nonce, e) (below_nonce-Ascending d ns h.1)
]

module _ (trees : Trees) where
  has-remove_nonces :
      (n : ℕ) (txs : List Tx) (index : List ℕ)
      → has ◌==◌ n (remove_nonces trees txs index) ≡ (not (has_nonce n txs) && has ◌==◌ n index)
  unfolding remove_nonces has_nonce
  has-remove_nonces n [] index = ground arith
  has-remove_nonces n (tx ∷ txs) index =
      let first = trees.nonces.has-delete tx.nonce n index in
      let rest = has-remove_nonces n txs (trees.nonces.delete tx.nonce index) in
      ground (arith, first, rest)

  pub has-remove_by_sorted_nonce_key :
      (n : ℕ) (m : TxMap) (index : List ℕ)
      → has ◌==◌ n (remove_by_sorted_nonce_key trees m index) ≡ (not (gone n m) && has ◌==◌ n index)
  unfolding remove_by_sorted_nonce_key gone
  has-remove_by_sorted_nonce_key n [] index = ground arith
  has-remove_by_sorted_nonce_key n ((account, txs) ∷ m) index =
      let first = has-remove_nonces n txs index in
      let rest = has-remove_by_sorted_nonce_key n m (remove_nonces trees txs index) in
      ground (arith, first, rest)

  remove_nonces-Ascending :
      (txs : List Tx) (index : List ℕ) → Ascending index → Ascending (remove_nonces trees txs index)
  unfolding remove_nonces
  remove_nonces-Ascending [] index h = h
  remove_nonces-Ascending (tx ∷ txs) index h =
      remove_nonces-Ascending txs (trees.nonces.delete tx.nonce index)
        (trees.delete-Ascending tx.nonce index h)

  remove_by_sorted_nonce_key-Ascending :
      (m : TxMap) (index : List ℕ)
      → Ascending index
      → Ascending (remove_by_sorted_nonce_key trees m index)
  unfolding remove_by_sorted_nonce_key
  remove_by_sorted_nonce_key-Ascending [] index h = h
  remove_by_sorted_nonce_key-Ascending ((account, txs) ∷ m) index h =
      remove_by_sorted_nonce_key-Ascending m (remove_nonces trees txs index)
        (remove_nonces-Ascending txs index h)

  -- Items that are there wherever no transaction was removed are enough for the index that is left.
  pub removed-WellKept :
      (m m1 : SortedMap) (removed : TxMap)
      → WellKept m
      → m1.index ≡ remove_by_sorted_nonce_key trees removed m.index
      → ((n : ℕ) → gone n removed ≡ false → m1.items n ≡ m.items n)
      → WellKept m1
  removed-WellKept m m1 removed h index items = record {
    held = λ n there.
        let (item, found, nonce) = h.held n (was n there) in
        (item, items n (stays n there) ∙ found, nonce);
    small = λ n there. h.small n (was n there);
    up = subst Ascending (sym index) (remove_by_sorted_nonce_key-Ascending removed m.index h.up);
  }
    where
      both :
          (n : ℕ) → has ◌==◌ n m1.index ≡ true → (not (gone n removed) && has ◌==◌ n m.index) ≡ true
      both n there =
          sym (has-remove_by_sorted_nonce_key n removed m.index)
          ∙ (sym (ap (has ◌==◌ n) index) ∙ there)

      was : (n : ℕ) → has ◌==◌ n m1.index ≡ true → has ◌==◌ n m.index ≡ true
      was n there = ground (arith, both n there)

      stays : (n : ℕ) → has ◌==◌ n m1.index ≡ true → gone n removed ≡ false
      stays n there = ground (arith, both n there)

  clean_account-WellFormed :
      (ledger : String → ℕ) (account : String) (store : TxStore)
      → WellFormed store
      → (store1 : TxStore) × (clean_account trees ledger account store ≡ some store1)
        × WellFormed store1
  unfolding clean_account
  clean_account-WellFormed ledger account store h =
      let read = get_commit_nonce ledger account store.nonce_cache in
      let store1 = record store { nonce_cache = read.1 } in
      let h1 : WellFormed store1 = unfold WellFormed in h in
      elim (Option-cases (store.all_txs account)) [
        | inl e ↦ (store1, rw (clean_account, e) refl, h1)
        | inr (m, e) ↦
            let kept : WellKept m = unfold WellFormed in h account m e in
            let (removed, left, run, all, items, index) =
              forward_loop-Forwarded (below_nonce read.0 m.index) [] m
                (below_nonce-Ascending read.0 m.index kept.up)
                (All-below_nonce _ read.0 m.index (All-has _ m.index kept.held)) in
            let run1 : forward read.0 m ≡ some (removed, left) = unfold forward in run in
            (
              remove_committed trees account removed left store1,
              rw (clean_account, e, run1) refl,
              put-WellFormed account
                  (record left { index = remove_by_sorted_nonce_key trees removed left.index })
                  store1 (remove_committed trees account removed left store1)
                  (unfold remove_committed update_earliest_timestamp in refl) h1
                  (removed-WellKept m _ removed kept
                    (ap (remove_by_sorted_nonce_key trees removed) index)
                    (λ n e. items n (unfold gone in ground (arith, all n, e)))),
            )
      ]

  pub clean_accounts-WellFormed :
      (ledger : String → ℕ) (accounts : List String) (store : TxStore)
      → WellFormed store
      → (store1 : TxStore) × (clean_accounts trees ledger accounts store ≡ some store1)
        × WellFormed store1
  unfolding clean_accounts
  clean_accounts-WellFormed ledger [] store h = (store, refl, h)
  clean_accounts-WellFormed ledger (account ∷ accounts) store h =
      let (store1, run, h1) = clean_account-WellFormed ledger account store h in
      let (store2, runs, h2) = clean_accounts-WellFormed ledger accounts store1 h1 in
      (store2, rw (clean_accounts, run) runs, h2)
