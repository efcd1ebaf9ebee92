-- ===== src/Mempool/Screening.antt =====
-- Which transactions ProcessTransactions of pkg/order/mempool/mempool_impl.go takes in.
use model_lib.Base.{
  ℕ, ◌≤◌, ◌≡◌, refl, sym, ap, subst, ◌∙◌, inl, inr, ltb, Bool, true, false, Bool-cases,
  Option-cases, String, List, [], ◌∷◌, ◌++◌, Option, some, none, some-injective, keys, All, All-map,
  eq_iff, arith, insert, lookup, str_eq,
}
use model_lib.Mempool.State.{
  Tx, IndexKey, Trees, TxStore, NonceCache, Mempool, RequestBatch, has, same_key,
}
use model_lib.Mempool.Indices.{TxMap, append_tx, make_ordered_index_key}
use model_lib.Mempool.Nonces.{
  committed, get_commit_nonce, get_pending_nonce, set_commit_nonce, get_commit_nonce-committed,
}
use model_lib.Mempool.Keys.{same_key-≡}
use model_lib.Mempool.Insert.{
  Screened, screen_hash, screen_tx, screen_txs, insert_txs, process_dirty_account, batch_if_full,
  process_transactions,
}

-- The nonce that is pending for an account, as far as the cache and the ledger tell.
unfoldable pub pending : (String → ℕ) → NonceCache → String → ℕ
unfolding committed
pending ledger nc account = elim (nc.pending_nonces account) [
  | none ↦ committed ledger nc account
  | some nonce ↦ nonce
]

get_pending_nonce-pending :
    (ledger : String → ℕ) (account : String) (nc : NonceCache)
    → (get_pending_nonce ledger account nc).0 ≡ pending ledger nc account
unfolding get_pending_nonce pending
get_pending_nonce-pending ledger account nc = elim (Option-cases (nc.pending_nonces account)) [
  | inl e ↦ rw (get_pending_nonce, pending, e) (get_commit_nonce-committed ledger account nc)
  | inr (n, e) ↦ rw (get_pending_nonce, pending, e) refl
]

pending-get_pending_nonce :
    (ledger : String → ℕ) (account other : String) (nc : NonceCache)
    → pending ledger (get_pending_nonce ledger account nc).1 other ≡ pending ledger nc other
unfolding get_pending_nonce get_commit_nonce set_commit_nonce committed pending
pending-get_pending_nonce ledger account other nc = ground (arith, eq_iff account other)

abbrev key_of : Tx → IndexKey
key_of tx = make_ordered_index_key tx.from tx

-- No account has two transactions of the same nonce.
unfoldable pub Apart : List Tx → Type 0
Apart [] = Unit
Apart (tx ∷ txs) =
    All
      (λ u. same_key (make_ordered_index_key tx.from tx) (make_ordered_index_key u.from u) ≡ false)
      txs
    × Apart txs

-- The nonce is not below the pending one and the hash is not known.
abbrev pub IsNew : (String → ℕ) → (String → Option IndexKey) → Tx → Type 0
IsNew p hashes tx = (p tx.from ≤ tx.nonce) × (hashes tx.hash ≡ none)

All-append : (P : Tx → Type 0) (txs : List Tx) (tx : Tx) → All P txs → P tx → All P (txs ++ tx ∷ [])
All-append P [] tx h p = (p, tt)
All-append P (x ∷ xs) tx h p = (h.0, All-append P xs tx h.1 p)

Apart-append :
    (txs : List Tx) (tx : Tx)
    → Apart txs
    → All (λ u. same_key (key_of u) (key_of tx) ≡ false) txs
    → Apart (txs ++ tx ∷ [])
unfolding Apart
Apart-append [] tx h new = (tt, tt)
Apart-append (x ∷ xs) tx h new = (
  All-append (λ u. same_key (key_of x) (key_of u) ≡ false) xs tx h.0 new.0,
  Apart-append xs tx h.1 new.1,
)

-- The pool after ProcessTransactions, from what the first loop has let through: the groups are inserted,
-- their accounts processed, and a batch is made where there is one to make.
unfoldable pub Entered :
    Trees
    → (String → ℕ)
    → ℕ
    → Bool
    → Bool
    → Mempool
    → Mempool
    → Option RequestBatch
    → Screened
    → Type 0
Entered trees ledger now is_leader is_local m m1 batch s =
    (store1 : TxStore) × (process_dirty_account trees ledger (keys s.valid_txs)
        (insert_txs trees now is_local s.valid_txs (record m.tx_store { nonce_cache = s.nonces }))
      ≡ some store1)
    × (batch_if_full ledger is_leader (record m { tx_store = store1 }) ≡ (m1, batch))

insert-All :
    (P : List Tx → Type 0) (account : String) (txs : List Tx) (m : TxMap)
    → P txs
    → All (λ e. P e.1) m
    → All (λ e. P e.1) (insert account txs m)
unfolding insert
insert-All P account txs [] p h = (p, tt)
insert-All P account txs (e ∷ es) p h = elim (Bool-cases (str_eq e.0 account)) [
  | inl t ↦ rw (insert, t) (p, h.1)
  | inr n ↦ rw (insert, n) (h.0, insert-All P account txs es p h.1)
]

lookup-All :
    (P : List Tx → Type 0) (account : String) (txs : List Tx) (m : TxMap)
    → lookup account m ≡ some txs
    → All (λ e. P e.1) m
    → P txs
unfolding lookup
lookup-All P account txs [] f h = absurd (ground (arith, f))
lookup-All P account txs (e ∷ es) f h = elim (Bool-cases (str_eq e.0 account)) [
  | inl t ↦ subst P (some-injective (rw (lookup, t) at f)) h.0
  | inr n ↦ lookup-All P account txs es (rw (lookup, n) at f) h.1
]

append_tx-IsNew :
    (p : String → ℕ) (hashes : String → Option IndexKey) (account : String) (tx : Tx) (m : TxMap)
    → IsNew p hashes tx
    → All (λ e. All (IsNew p hashes) e.1) m
    → All (λ e. All (IsNew p hashes) e.1) (append_tx account tx m)
unfolding append_tx
append_tx-IsNew p hashes account tx m new h = elim (Option-cases (lookup account m)) [
  | inl n ↦ rw (append_tx, n) (insert-All (All (IsNew p hashes)) account (tx ∷ []) m (new, tt) h)
  | inr (txs, f) ↦
      rw (append_tx, f)
        (insert-All (All (IsNew p hashes)) account (txs ++ tx ∷ []) m
          (All-append (IsNew p hashes) txs tx (lookup-All (All (IsNew p hashes)) account txs m f h)
            new)
          h)
]

-- What holds of the first loop.
record Screening (ledger p : String → ℕ) (hashes : String → Option IndexKey) (s : Screened)
    : Type 0 where
  known : (a : String) → pending ledger s.nonces a ≡ p a
  listed : All (IsNew p hashes) s.valid_tx_list
  entered : All (λ e. All (IsNew p hashes) e.1) s.valid_txs
  noted : All (λ tx. has same_key (key_of tx) s.pointers ≡ true) s.valid_tx_list
  apart : Apart s.valid_tx_list

module _ (ledger p : String → ℕ) (hashes : String → Option IndexKey) where
  screen_hash-Screening :
      (tx : Tx) (s : Screened)
      → Screening ledger p hashes s
      → p tx.from ≤ tx.nonce
      → has same_key (key_of tx) s.pointers ≡ false
      → Screening ledger p hashes (screen_hash hashes tx s)
  unfolding screen_hash
  screen_hash-Screening tx s h old new = elim (Option-cases (hashes tx.hash)) [
    | inr (q, e) ↦
        rw (screen_hash, e)
          (record {
            known = h.known;
            listed = h.listed;
            entered = h.entered;
            noted = kept;
            apart = h.apart;
          })
    | inl e ↦
        rw (screen_hash, e)
          (record {
            known = h.known;
            entered = append_tx-IsNew p hashes tx.from tx s.valid_txs (old, e) h.entered;
            listed = All-append (IsNew p hashes) s.valid_tx_list tx h.listed (old, e);
            noted =
                All-append (λ u. has same_key (key_of u) (key_of tx ∷ s.pointers) ≡ true)
                  s.valid_tx_list tx kept (unfold has in ground (arith, eq_iff tx.from tx.from));
            apart =
                Apart-append s.valid_tx_list tx h.apart (All-map differs s.valid_tx_list h.noted);
          })
  ]
    where
      keeps :
          (u : Tx)
          → has same_key (key_of u) s.pointers ≡ true
          → has same_key (key_of u) (key_of tx ∷ s.pointers) ≡ true
      keeps u there = unfold has in ground (arith, there)

      kept : All (λ u. has same_key (key_of u) (key_of tx ∷ s.pointers) ≡ true) s.valid_tx_list
      kept = All-map keeps s.valid_tx_list h.noted

      differs :
          (u : Tx)
          → has same_key (key_of u) s.pointers ≡ true
          → same_key (key_of u) (key_of tx) ≡ false
      differs u there = elim (Bool-cases (same_key (key_of u) (key_of tx))) [
        | inr e ↦ e
        | inl e ↦
            let same =
              subst (λ k. has same_key k s.pointers ≡ true) (same_key-≡ (key_of u) (key_of tx) e)
                there in
            absurd (ground (arith, same, new))
      ]

  screen_tx-Screening :
      (tx : Tx) (s : Screened)
      → Screening ledger p hashes s
      → Screening ledger p hashes (screen_tx ledger hashes tx s)
  unfolding screen_tx
  screen_tx-Screening tx s h =
      let read = get_pending_nonce ledger tx.from s.nonces in
      let s1 : Screened = record s { nonces = read.1 } in
      let h1 : Screening ledger p hashes s1 = record {
        known = λ a. pending-get_pending_nonce ledger tx.from a s.nonces ∙ h.known a;
        listed = h.listed;
        entered = h.entered;
        noted = h.noted;
        apart = h.apart;
      } in
      let nonce : read.0 ≡ p tx.from =
        get_pending_nonce-pending ledger tx.from s.nonces ∙ h.known tx.from in
      elim (Bool-cases (ltb tx.nonce read.0)) [
        | inl e ↦ rw (screen_tx, e) h1
        | inr e ↦
            let old : p tx.from ≤ tx.nonce = ground (arith, e, nonce) in
            elim (Bool-cases (has same_key (key_of tx) s.pointers)) [
              | inl f ↦ rw (screen_tx, e, f) h1
              | inr f ↦ rw (screen_tx, e, f) (screen_hash-Screening tx s1 h1 old f)
            ]
      ]

  screen_txs-Screening :
      (txs : List Tx) (s : Screened)
      → Screening ledger p hashes s
      → Screening ledger p hashes (screen_txs ledger hashes txs s)
  unfolding screen_txs
  screen_txs-Screening [] s h = h
  screen_txs-Screening (tx ∷ txs) s h =
      screen_txs-Screening txs (screen_tx ledger hashes tx s) (screen_tx-Screening tx s h)

process_transactions-posted :
    (trees : Trees) (ledger : String → ℕ) (now : ℕ) (txs posted : List Tx)
    (is_leader is_local : Bool) (m m1 : Mempool) (batch : Option RequestBatch)
    → process_transactions trees ledger now txs is_leader is_local m ≡ some (posted, m1, batch)
    → ((screen_txs ledger m.tx_store.tx_hash_map txs (record {
      valid_txs = [];
      valid_tx_list = [];
      pointers = [];
      nonces = m.tx_store.nonce_cache;
    })).valid_tx_list
        ≡ posted)
      × Entered trees ledger now is_leader is_local m m1 batch (
          screen_txs ledger m.tx_store.tx_hash_map txs (record {
            valid_txs = [];
            valid_tx_list = [];
            pointers = [];
            nonces = m.tx_store.nonce_cache;
          }))
unfolding process_transactions Entered
process_transactions-posted trees ledger now txs posted is_leader is_local m m1 batch run =
    let s = screen_txs ledger m.tx_store.tx_hash_map txs (record {
      valid_txs = [];
      valid_tx_list = [];
      pointers = [];
      nonces = m.tx_store.nonce_cache;
    }) in
    elim (Option-cases (
      process_dirty_account trees ledger (keys s.valid_txs) (
        insert_txs trees now is_local s.valid_txs
          (record m.tx_store { nonce_cache = s.nonces })))) [
            | inl e ↦ absurd (ground (arith, e, run))
            | inr (store1, e) ↦
                let full = batch_if_full ledger is_leader (record m { tx_store = store1 }) in
                let opened : process_transactions trees ledger now txs is_leader is_local m
                    ≡ some (s.valid_tx_list, full.0, full.1) =
                  rw (process_transactions, e) refl in
                let results = some-injective (sym opened ∙ run) in
                (
                  ap (λ (r : List Tx × Mempool × Option RequestBatch). r.0) results,
                  (
                    store1,
                    e,
                    ap (λ (r : List Tx × Mempool × Option RequestBatch). (r.1, r.2)) results,
                  ),
                )
          ]

-- Where ProcessTransactions does not panic, the transactions that it posts have hashes that the pool did
-- not know and nonces that are not below the pending nonces of their accounts, and no two of them have
-- the same account and nonce; and the pool that it leaves is the one before with groups of transactions
-- inserted and their accounts processed, where every transaction of a group is as new as that.
pub process_transactions-IsNew :
    (trees : Trees) (ledger : String → ℕ) (now : ℕ) (txs posted : List Tx)
    (is_leader is_local : Bool) (m m1 : Mempool) (batch : Option RequestBatch)
    → process_transactions trees ledger now txs is_leader is_local m ≡ some (posted, m1, batch)
    → All (IsNew (pending ledger m.tx_store.nonce_cache) m.tx_store.tx_hash_map) posted
      × Apart posted
      × ((s : Screened) × Entered trees ledger now is_leader is_local m m1 batch s
          × All
              (λ e. All (IsNew (pending ledger m.tx_store.nonce_cache) m.tx_store.tx_hash_map) e.1)
              s.valid_txs)
process_transactions-IsNew trees ledger now txs posted is_leader is_local m m1 batch run =
    let store = m.tx_store in
    let p = pending ledger store.nonce_cache in
    let s0 : Screened = record {
      valid_txs = [];
      valid_tx_list = [];
      pointers = [];
      nonces = store.nonce_cache;
    } in
    let start : Screening ledger p store.tx_hash_map s0 = record {
      known = λ a. refl;
      listed = tt;
      entered = tt;
      noted = tt;
      apart = unfold Apart in tt;
    } in
    let h = screen_txs-Screening ledger p store.tx_hash_map txs s0 start in
    let s = screen_txs ledger store.tx_hash_map txs s0 in
    let (same, entered) =
      process_transactions-posted trees ledger now txs posted is_leader is_local m m1 batch run in
    (
      subst (λ l. All (IsNew p store.tx_hash_map) l) same h.listed,
      subst Apart same h.apart,
      (s, entered, h.entered),
    )
