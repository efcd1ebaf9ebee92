-- ===== src/Mempool/Hashes.antt =====
-- The loop over the hashes in processCommitTransactions of pkg/order/mempool/mempool_impl.go.
use model_lib.Base.{
  ℕ, suc, ◌+◌, ◌%◌, ◌≤◌, ◌<◌, ◌≡◌, refl, sym, subst, ◌∙◌, ◌⊎◌, inl, inr, ◌||◌, String, true, false,
  Bool-cases, Option-cases, List, [], ◌∷◌, Option, some, uint64_mod, str_eq, eq_iff, has_key, arith,
}
use model_lib.Mempool.State.{IndexKey, NonceCache}
use model_lib.Mempool.Nonces.{
  committed, set_commit_nonce, get_commit_nonce, get_commit_nonce-committed,
  committed-get_commit_nonce,
}
use model_lib.Mempool.Commits.{Committing, commit_pointer, commit_hash, commit_hashes}
use model_lib.Mempool.Raise.{
  Once, after, Above, raise, raise-Above, raise-Once, raise-more, raise-reaches,
}

-- What holds of the loop over the hashes, for the nonces that were committed before it.
pub record Raised (ledger c : String → ℕ) (pending : String → Option ℕ) (s : Committing)
    : Type 0 where
  pub known : (a : String) → committed ledger s.store.nonce_cache a ≡ c a
  pub kept : s.store.nonce_cache.pending_nonces ≡ pending
  pub once : Once s.updates
  pub above : Above c s.updates

pub get_commit_nonce-pending :
    (ledger : String → ℕ) (account : String) (nc : NonceCache)
    → (get_commit_nonce ledger account nc).1.pending_nonces ≡ nc.pending_nonces
unfolding get_commit_nonce set_commit_nonce
get_commit_nonce-pending ledger account nc = elim (Option-cases (nc.commit_nonces account)) [
  | inl e ↦ rw (get_commit_nonce, e) refl
  | inr (n, e) ↦ rw (get_commit_nonce, e) refl
]

module _ (ledger c : String → ℕ) (pending : String → Option ℕ) where
  -- The nonces after a hash that the pool knows.
  updates-commit_pointer :
      (hash : String) (p : IndexKey) (s : Committing)
      → Raised ledger c pending s
      → (commit_pointer ledger hash p s).updates
        ≡ raise p.account (c p.account) ((p.nonce + 1) % uint64_mod) s.updates
  unfolding commit_pointer raise
  updates-commit_pointer hash p s h =
      let nonce : (get_commit_nonce ledger p.account s.store.nonce_cache).0 ≡ c p.account =
        get_commit_nonce-committed ledger p.account s.store.nonce_cache ∙ h.known p.account in
      rw nonce refl

  Raised-commit_pointer :
      (hash : String) (p : IndexKey) (s : Committing)
      → Raised ledger c pending s
      → Raised ledger c pending (commit_pointer ledger hash p s)
  unfolding commit_pointer
  Raised-commit_pointer hash p s h = record {
    known = λ a. committed-get_commit_nonce ledger p.account a s.store.nonce_cache ∙ h.known a;
    kept = get_commit_nonce-pending ledger p.account s.store.nonce_cache ∙ h.kept;
    once =
        subst Once (sym (updates-commit_pointer hash p s h))
          (raise-Once c p.account ((p.nonce + 1) % uint64_mod) s.updates h.above h.once);
    above =
        subst (Above c) (sym (updates-commit_pointer hash p s h))
          (raise-Above c p.account ((p.nonce + 1) % uint64_mod) s.updates h.above);
  }

  -- The pointer is the hash's, or the hash was met before.
  abbrev pub Reached : String → IndexKey → Committing → Type 0
  Reached hash p s = (s.store.tx_hash_map hash ≡ some p) ⊎ (p.nonce < after c s.updates p.account)

  commit_hash-Raised :
      (hash : String) (s : Committing)
      → Raised ledger c pending s
      → Raised ledger c pending (commit_hash ledger hash s)
  unfolding commit_hash
  commit_hash-Raised hash s h = elim (Option-cases (s.store.tx_hash_map hash)) [
    | inl e ↦ rw (commit_hash, e) h
    | inr (p, e) ↦ rw (commit_hash, e) (Raised-commit_pointer hash p s h)
  ]

  commit_hash-more :
      (hash : String) (s : Committing) (a : String)
      → Raised ledger c pending s
      → after c s.updates a ≤ after c (commit_hash ledger hash s).updates a
  unfolding commit_hash
  commit_hash-more hash s a h = elim (Option-cases (s.store.tx_hash_map hash)) [
    | inl e ↦ rw (commit_hash, e) (omega arith)
    | inr (p, e) ↦
        rw (commit_hash, e, updates-commit_pointer hash p s h)
          (raise-more c p.account ((p.nonce + 1) % uint64_mod) s.updates h.above a)
  ]

  commit_hash-reaches :
      (hash : String) (p : IndexKey) (s : Committing)
      → Raised ledger c pending s
      → suc p.nonce < uint64_mod
      → Reached hash p s
      → p.nonce < after c (commit_hash ledger hash s).updates p.account
  unfolding commit_hash
  commit_hash-reaches hash p s h small (inr r) =
      omega (arith, r, commit_hash-more hash s p.account h)
  commit_hash-reaches hash p s h small (inl e) =
      let next : (p.nonce + 1) % uint64_mod ≡ suc p.nonce = omega (arith, small) in
      let reached =
        raise-reaches c p.account ((p.nonce + 1) % uint64_mod) s.updates h.above
          (omega (arith, next)) in
      rw (commit_hash, e, updates-commit_pointer hash p s h) (omega (arith, reached, next))

  -- Another hash keeps what is known of this one.
  commit_hash-Reached :
      (hash other : String) (p : IndexKey) (s : Committing)
      → Raised ledger c pending s
      → str_eq other hash ≡ false
      → Reached hash p s
      → Reached hash p (commit_hash ledger other s)
  unfolding commit_hash
  commit_hash-Reached hash other p s h apart (inr r) =
      inr (omega (arith, r, commit_hash-more other s p.account h))
  commit_hash-Reached hash other p s h apart (inl e) =
      inl (elim (Option-cases (s.store.tx_hash_map other)) [
        | inl f ↦ rw (commit_hash, f) e
        | inr (q, f) ↦ rw (commit_hash, f) (unfold commit_pointer in rw apart e)
      ])

  pub commit_hashes-Raised :
      (hashes : List String) (s : Committing)
      → Raised ledger c pending s
      → Raised ledger c pending (commit_hashes ledger hashes s)
  unfolding commit_hashes
  commit_hashes-Raised [] s h = h
  commit_hashes-Raised (x ∷ xs) s h =
      commit_hashes-Raised xs (commit_hash ledger x s) (commit_hash-Raised x s h)

  pub commit_hashes-more :
      (hashes : List String) (s : Committing) (a : String)
      → Raised ledger c pending s
      → after c s.updates a ≤ after c (commit_hashes ledger hashes s).updates a
  unfolding commit_hashes
  commit_hashes-more [] s a h = omega arith
  commit_hashes-more (x ∷ xs) s a h = omega (
    arith,
    commit_hash-more x s a h,
    commit_hashes-more xs (commit_hash ledger x s) a (commit_hash-Raised x s h),
  )

  pub commit_hashes-reaches :
      (hashes : List String) (hash : String) (p : IndexKey) (s : Committing)
      → Raised ledger c pending s
      → suc p.nonce < uint64_mod
      → has_key hash hashes ≡ true
      → Reached hash p s
      → p.nonce < after c (commit_hashes ledger hashes s).updates p.account
  unfolding commit_hashes has_key
  commit_hashes-reaches [] hash p s h small there r = absurd (ground (arith, there))
  commit_hashes-reaches (x ∷ xs) hash p s h small there r =
      let h1 = commit_hash-Raised x s h in
      let s1 = commit_hash ledger x s in
      elim (Bool-cases (str_eq x hash)) [
        | inl e ↦
            let same : x ≡ hash = (eq_iff x hash).0 e in
            let first =
              commit_hash-reaches x p s h small (subst (λ y. Reached y p s) (sym same) r) in
            omega (arith, first, commit_hashes-more xs s1 p.account h1)
        | inr e ↦
            let later : has_key hash xs ≡ true =
              subst (λ b. (b || has_key hash xs) ≡ true) e there in
            commit_hashes-reaches xs hash p s1 h1 small later (commit_hash-Reached hash x p s h e r)
      ]
