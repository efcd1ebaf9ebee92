-- ===== src/Mempool/Raise.antt =====
-- The nonces that processCommitTransactions writes, of pkg/order/mempool/mempool_impl.go.
use model_lib.Base.{
  ℕ, ◌≤◌, ◌<◌, ◌≡◌, refl, sym, subst, ◌∙◌, ◌⊎◌, inl, inr, ltb, ◌&&◌, String, true, false,
  Bool-cases, Option-cases, List, [], ◌∷◌, some, none, some-injective, if◌then◌else◌, str_eq,
  eq_iff, lookup, insert, lookup-insert, arith,
}
use model_lib.Mempool.State.{NonceCache}
use model_lib.Mempool.Nonces.{committed, set_commit_nonce, update_committed_nonce}
use model_lib.Mempool.Commits.{value_or_zero}

-- No account has two nonces.
unfoldable pub Once : List (String × ℕ) → Type 0
unfolding lookup
Once [] = Unit
Once (e ∷ es) = (lookup e.0 es ≡ none) × Once es

insert-Once : (k : String) (v : ℕ) (m : List (String × ℕ)) → Once m → Once (insert k v m)
unfolding Once insert lookup
insert-Once k v [] h = (refl, tt)
insert-Once k v (e ∷ es) h = elim (Bool-cases (str_eq e.0 k)) [
  | inl t ↦ rw (insert, t) h
  | inr t ↦
      let other : (str_eq k e.0) ≡ false = ground (arith, t, eq_iff k e.0, eq_iff e.0 k) in
      rw (insert, t) (lookup-insert k e.0 v es ∙ (rw other h.0), insert-Once k v es h.1)
]

-- The nonce that an account has once the updates are made.
unfoldable pub after : (String → ℕ) → List (String × ℕ) → String → ℕ
after c updates a = elim (lookup a updates) [ none ↦ c a | some n ↦ n ]

set_commit_nonce-committed :
    (ledger : String → ℕ) (account a : String) (nonce : ℕ) (nc : NonceCache)
    → committed ledger (set_commit_nonce account nonce nc) a
      ≡ (if str_eq account a then nonce else committed ledger nc a)
unfolding committed set_commit_nonce
set_commit_nonce-committed ledger account a nonce nc = ground (arith, eq_iff account a)

pub after-same :
    (c d : String → ℕ) (a : String) (es : List (String × ℕ))
    → d a ≡ c a
    → after d es a ≡ after c es a
unfolding after
after-same c d a es kept = elim (Option-cases (lookup a es)) [
  | inl e ↦ rw (after, e, kept) refl
  | inr (n, e) ↦ rw (after, e) refl
]

after-cons :
    (c d : String → ℕ) (account a : String) (nonce : ℕ) (es : List (String × ℕ))
    → lookup account es ≡ none
    → d a ≡ (if str_eq account a then nonce else c a)
    → after d es a ≡ after c ((account, nonce) ∷ es) a
unfolding after lookup
after-cons c d account a nonce es first set = elim (Bool-cases (str_eq account a)) [
  | inl e ↦
      let same : account ≡ a = (eq_iff account a).0 e in
      let missing : lookup a es ≡ none = subst (λ k. lookup k es ≡ none) same first in
      let left : after d es a ≡ d a = rw (after, missing) refl in
      let right : after c ((account, nonce) ∷ es) a ≡ nonce = rw (after, lookup, e) refl in
      let written : d a ≡ nonce = rw (set, e) refl in left ∙ (written ∙ sym right)
  | inr e ↦
      let kept : d a ≡ c a = rw (set, e) refl in
      let left : after d es a ≡ after c es a = after-same c d a es kept in
      let right : after c ((account, nonce) ∷ es) a ≡ after c es a = rw (after, lookup, e) refl in
      left ∙ sym right
]

pub update_committed_nonce-after :
    (ledger : String → ℕ) (updates : List (String × ℕ)) (nc : NonceCache) (a : String)
    → Once updates
    → committed ledger (update_committed_nonce updates nc) a ≡ after (committed ledger nc) updates a
unfolding update_committed_nonce Once
update_committed_nonce-after ledger [] nc a h = unfold after lookup in refl
update_committed_nonce-after ledger ((account, nonce) ∷ es) nc a (first, h) =
    update_committed_nonce-after ledger es (set_commit_nonce account nonce nc) a h
    ∙ after-cons (committed ledger nc) (committed ledger (set_commit_nonce account nonce nc))
        account a nonce es first (set_commit_nonce-committed ledger account a nonce nc)

after-insert :
    (c : String → ℕ) (k a : String) (v : ℕ) (u : List (String × ℕ))
    → after c (insert k v u) a ≡ (if str_eq k a then v else after c u a)
unfolding after
after-insert c k a v u = elim (Bool-cases (str_eq k a)) [
  | inl e ↦ rw (after, lookup-insert k a v u, e) refl
  | inr e ↦ rw (after, lookup-insert k a v u, e) refl
]

-- Updates that raise the nonces that were committed.
unfoldable pub Above : (String → ℕ) → List (String × ℕ) → Type 0
Above c u = (a : String) (n : ℕ) → lookup a u ≡ some n → c a < n

-- The test of the code, and what it writes.
unfoldable pub raise : String → ℕ → ℕ → List (String × ℕ) → List (String × ℕ)
unfolding value_or_zero lookup insert
raise k before v u = if ltb (value_or_zero (lookup k u)) v && ltb before v then insert k v u else u

module _ (c : String → ℕ) (k : String) (v : ℕ) (u : List (String × ℕ)) (h : Above c u) where
  raise-cases :
      ((raise k (c k) v u ≡ insert k v u) × (after c u k < v))
      ⊎ ((raise k (c k) v u ≡ u) × (0 < v → v ≤ after c u k))
  unfolding raise after value_or_zero Above
  raise-cases = elim (Option-cases (lookup k u)) [
    | inl e ↦ elim (Bool-cases (ltb (c k) v)) [
      | inl t ↦ inl (ground (arith, e, t), rw (after, e) (ground (arith, t)))
      | inr t ↦ inr (ground (arith, e, t), rw (after, e) (λ p. ground (arith, t)))
    ]
    | inr (n, e) ↦
        let less = h k n e in
        elim (Bool-cases (ltb n v)) [
          | inl t ↦ inl (ground (arith, e, t, less), rw (after, e) (ground (arith, t)))
          | inr t ↦ inr (ground (arith, e, t, less), rw (after, e) (λ p. ground (arith, t)))
        ]
  ]

  least : c k ≤ after c u k
  unfolding after
  least = elim (Option-cases (lookup k u)) [
    | inl e ↦ rw (after, e) (omega arith)
    | inr (n, e) ↦ rw (after, e) (unfold Above in omega (arith, h k n e))
  ]

  pub raise-Above : Above c (raise k (c k) v u)
  unfolding Above
  raise-Above a n there = elim raise-cases [
    | inr p ↦ h a n (subst (λ w. lookup a w ≡ some n) p.0 there)
    | inl p ↦ inserted p.1 (lookup-insert k a v u) (subst (λ w. lookup a w ≡ some n) p.0 there)
  ]
    where
      inserted :
          after c u k < v
          → lookup a (insert k v u) ≡ (if str_eq k a then some v else lookup a u)
          → lookup a (insert k v u) ≡ some n
          → c a < n
      inserted less found there = elim (Bool-cases (str_eq k a)) [
        | inl e ↦
            let same : k ≡ a = (eq_iff k a).0 e in
            let value : v ≡ n = some-injective (rw (sym there) (rw (found, e) refl)) in
            subst (λ b. c b < n) same (omega (arith, value, less, least))
        | inr e ↦ h a n (sym (rw (found, e) refl) ∙ there)
      ]

  pub raise-Once : Once u → Once (raise k (c k) v u)
  raise-Once once = elim raise-cases [
    | inr p ↦ subst Once (sym p.0) once
    | inl p ↦ subst Once (sym p.0) (insert-Once k v u once)
  ]

  pub raise-more : (a : String) → after c u a ≤ after c (raise k (c k) v u) a
  raise-more a = elim raise-cases [
    | inr p ↦ rw p.0 (omega arith)
    | inl p ↦ rw (p.0, after-insert c k a v u) (more p.1 (Bool-cases (str_eq k a)))
  ]
    where
      more :
          after c u k < v
          → (str_eq k a ≡ true) ⊎ (str_eq k a ≡ false)
          → after c u a ≤ (if str_eq k a then v else after c u a)
      more less (inl e) =
          let same : k ≡ a = (eq_iff k a).0 e in
          let less_here : after c u a < v = subst (λ b. after c u b < v) same less in
          rw e (omega (arith, less_here))
      more less (inr e) = rw e (omega arith)

  pub raise-reaches : 0 < v → v ≤ after c (raise k (c k) v u) k
  raise-reaches pos = elim raise-cases [
    | inr p ↦ rw p.0 (p.1 pos)
    | inl p ↦ rw (p.0, after-insert c k k v u) (ground (arith, eq_iff k k))
  ]
