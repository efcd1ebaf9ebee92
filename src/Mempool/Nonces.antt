-- ===== src/Mempool/Nonces.antt =====
-- The nonces of the accounts: nonceCache of pkg/order/mempool/tx_store.go. The ledger's nonce of an account
-- is an argument, the GetAccountNonceFunc that the pool is made with.
use model_lib.Base.{ℕ, ◌≡◌, refl, String, List, [], ◌∷◌, none, some, eq_iff, arith, put}
use model_lib.Mempool.State.{NonceCache}

-- The nonce that is committed for an account, as far as the cache and the ledger tell.
unfoldable pub committed : (String → ℕ) → NonceCache → String → ℕ
committed ledger nc account = elim (nc.commit_nonces account) [
  | none ↦ ledger account
  | some nonce ↦ nonce
]

-- setCommitNonce
unfoldable pub set_commit_nonce : String → ℕ → NonceCache → NonceCache
set_commit_nonce account nonce nc = record nc { commit_nonces = put nc.commit_nonces account nonce }

-- getCommitNonce: the nonce, and the cache, which keeps what the ledger said
unfoldable pub get_commit_nonce : (String → ℕ) → String → NonceCache → ℕ × NonceCache
unfolding set_commit_nonce
get_commit_nonce ledger account nc = elim (nc.commit_nonces account) [
  | none ↦ (ledger account, set_commit_nonce account (ledger account) nc)
  | some nonce ↦ (nonce, nc)
]

-- getPendingNonce
unfoldable pub get_pending_nonce : (String → ℕ) → String → NonceCache → ℕ × NonceCache
unfolding get_commit_nonce
get_pending_nonce ledger account nc = elim (nc.pending_nonces account) [
  | none ↦ get_commit_nonce ledger account nc
  | some nonce ↦ (nonce, nc)
]

-- setPendingNonce
unfoldable pub set_pending_nonce : String → ℕ → NonceCache → NonceCache
set_pending_nonce account nonce nc = record nc {
  pending_nonces = put nc.pending_nonces account nonce;
}

-- updatePendingNonce
unfoldable pub update_pending_nonce : List (String × ℕ) → NonceCache → NonceCache
unfolding set_pending_nonce
update_pending_nonce [] nc = nc
update_pending_nonce ((account, nonce) ∷ rest) nc =
    update_pending_nonce rest (set_pending_nonce account nonce nc)

-- updateCommittedNonce
unfoldable pub update_committed_nonce : List (String × ℕ) → NonceCache → NonceCache
unfolding set_commit_nonce
update_committed_nonce [] nc = nc
update_committed_nonce ((account, nonce) ∷ rest) nc =
    update_committed_nonce rest (set_commit_nonce account nonce nc)

-- The nonce that is read is the committed one.
pub get_commit_nonce-committed :
    (ledger : String → ℕ) (account : String) (nc : NonceCache)
    → (get_commit_nonce ledger account nc).0 ≡ committed ledger nc account
unfolding get_commit_nonce committed
get_commit_nonce-committed ledger account nc = ground arith

-- Reading changes no committed nonce.
pub committed-get_commit_nonce :
    (ledger : String → ℕ) (account other : String) (nc : NonceCache)
    → committed ledger (get_commit_nonce ledger account nc).1 other ≡ committed ledger nc other
unfolding get_commit_nonce committed set_commit_nonce
committed-get_commit_nonce ledger account other nc = ground (arith, eq_iff account other)

-- Committed nonces change no pending one.
pub pending-update_committed_nonce :
    (m : List (String × ℕ)) (nc : NonceCache)
    → (update_committed_nonce m nc).pending_nonces ≡ nc.pending_nonces
unfolding update_committed_nonce set_commit_nonce
pending-update_committed_nonce [] nc = refl
pending-update_committed_nonce ((account, nonce) ∷ m) nc =
    pending-update_committed_nonce m (set_commit_nonce account nonce nc)
