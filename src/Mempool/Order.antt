-- ===== src/Mempool/Order.antt =====
-- The order of the transactions that generateBlock of pkg/order/mempool/mempool_impl.go chooses.
use model_lib.Base.{
  ℕ, zero, suc, ◌≤◌, ◌<◌, ◌≡◌, sym, ap, subst, ◌∙◌, ◌≢◌, ◌⊎◌, inl, inr, ◌==◌, ==_iff, String, true,
  false, Bool-cases, List, [], ◌∷◌, ◌++◌, length, All, uint64_mod, arith,
}
use model_lib.Mempool.State.{IndexKey, TimeoutKey, same_key, has}
use model_lib.Mempool.Keys.{
  same_key-≡, has_rest, seen_previous-cons, next_key-nonce, same_key_refl, seen_previous-next_key,
}
use model_lib.Mempool.Nonces.{
  committed, get_commit_nonce, get_commit_nonce-committed, committed-get_commit_nonce,
}
use model_lib.Mempool.Batches.{
  Batching, next_key, seen_previous, add_batched, take_skipped, include_tx, skip_tx, choose_tx,
  index_key, visit_tx, gather,
}

-- The key is the one that is committed next, or the one before it is among the batched ones.
unfoldable pub Follows : (String → ℕ) → IndexKey → List IndexKey → Type 0
unfolding seen_previous
Follows c k batched = (k.nonce ≡ c k.account) ⊎ (seen_previous k batched ≡ true)

-- Keys, the newest first, of which each is new when it comes and follows one that came before or that is
-- committed next.
unfoldable pub InOrder : (String → ℕ) → List IndexKey → List IndexKey → Type 0
unfolding has Follows
InOrder c before [] = Unit
InOrder c before (k ∷ ks) =
    (has same_key k (ks ++ before) ≡ false) × Follows c k (ks ++ before) × InOrder c before ks

-- A skipped key is not the next one of its account, and where it is batched, so is the one before.
abbrev Waits : (String → ℕ) → List IndexKey → IndexKey → Type 0
Waits c batched j =
    (j.nonce ≢ c j.account)
    × (suc j.nonce < uint64_mod)
    × (has same_key j batched ≡ true → seen_previous j batched ≡ true)

-- What holds of the variables of the loop.
pub record Sound (ledger c : String → ℕ) (before : List IndexKey) (size : ℕ) (s : Batching)
    : Type 0 where
  pub known : (a : String) → committed ledger s.nonces a ≡ c a
  pub batched_lem : s.batched ≡ s.result ++ before
  pub in_order : InOrder c before s.result
  pub waits : (j : IndexKey) → has same_key j s.skipped ≡ true → Waits c s.batched j
  pub bound : length s.result ≤ size
  pub room : s.full ≡ false → length s.result < size

module _ (ledger c : String → ℕ) (before : List IndexKey) (size : ℕ) where
  -- A key that is new and follows the batched ones is added.
  Sound-add_batched :
      (k : IndexKey) (s : Batching)
      → Sound ledger c before size s
      → s.full ≡ false
      → has same_key k s.batched ≡ false
      → Follows c k s.batched
      → Sound ledger c before size (add_batched size k s)
  unfolding add_batched Follows
  Sound-add_batched k s h open_batch new follows = record {
    known = h.known;
    batched_lem = ap (◌∷◌ k) h.batched_lem;
    in_order =
        unfold InOrder in
        (
          subst (λ b. has same_key k b ≡ false) h.batched_lem new,
          subst (Follows c k) h.batched_lem follows,
          h.in_order,
        );
    waits = λ j there. ((h.waits j there).0, (h.waits j there).1, seen j there);
    bound = omega (arith, h.room open_batch);
    room = λ e. ground (arith, h.room open_batch, ==_iff (suc (length s.result)) size);
  }
    where
      of_key : Follows c k s.batched → k.nonce ≢ c k.account → seen_previous k s.batched ≡ true
      of_key (inl e) n = absurd (n e)
      of_key (inr e) n = e

      seen :
          (j : IndexKey)
          → has same_key j s.skipped ≡ true
          → has same_key j (k ∷ s.batched) ≡ true
          → seen_previous j (k ∷ s.batched) ≡ true
      seen j there batched = seen_previous-cons j k s.batched (elim (Bool-cases (same_key k j)) [
        | inl e ↦
            let p = sym (same_key-≡ k j e) in
            subst (λ j. seen_previous j s.batched ≡ true) (sym p)
              (of_key follows (subst (λ j. j.nonce ≢ c j.account) p (h.waits j there).0))
        | inr e ↦ (h.waits j there).2 (has_rest k j s.batched e batched)
      ])

  -- What makes a key fit to be taken from the skipped ones.
  abbrev Fits : IndexKey → Batching → Type 0
  Fits k s =
      has same_key k s.skipped ≡ true → (has same_key k s.batched ≡ false) × Follows c k s.batched

  -- The key after one that was just added fits.
  Fits-next_key :
      (k : IndexKey) (s : Batching)
      → Sound ledger c before size s
      → has same_key k s.batched ≡ false
      → suc k.nonce < uint64_mod
      → Fits (next_key k) (add_batched size k s)
  unfolding add_batched
  Fits-next_key k s h new small there = (
    unfold has in ground (arith, other, fresh),
    unfold Follows in
        inr (
          seen_previous-next_key k (k ∷ s.batched) small
          ∙ (unfold has in ground (arith, same_key_refl k))),
  )
    where
      other : same_key k (next_key k) ≡ false
      other = ground (arith, next_key-nonce k small)

      fresh : has same_key (next_key k) s.batched ≡ false
      fresh = elim (Bool-cases (has same_key (next_key k) s.batched)) [
        | inr e ↦ e
        | inl e ↦
            let seen = (h.waits (next_key k) there).2 e in
            ground (arith, seen, seen_previous-next_key k s.batched small, new)
      ]

  -- The skipped keys that are taken keep the loop sound.
  Sound-take_skipped :
      (fuel : ℕ) (k : IndexKey) (s : Batching)
      → Sound ledger c before size s
      → s.full ≡ false
      → Fits k s
      → Sound ledger c before size (take_skipped fuel size k s)
  unfolding take_skipped
  Sound-take_skipped zero k s h open_batch fits = h
  Sound-take_skipped (suc fuel) k s h open_batch fits =
      elim (Bool-cases (has same_key k s.skipped)) [
        | inr e ↦ rw (take_skipped, e) h
        | inl e ↦
            let (new, follows) = fits e in
            let next = Sound-add_batched k s h open_batch new follows in
            let after = Fits-next_key k s h new (h.waits k e).1 in
            elim (Bool-cases (add_batched size k s).full) [
              | inl f ↦ rw (take_skipped, e, f) next
              | inr f ↦
                  rw (take_skipped, e, f)
                    (Sound-take_skipped fuel (next_key k) (add_batched size k s) next f after)
            ]
      ]

  -- A key that is new, follows the batched ones and is not the largest uint64.
  Sound-include_tx :
      (k : IndexKey) (s : Batching)
      → Sound ledger c before size s
      → s.full ≡ false
      → has same_key k s.batched ≡ false
      → Follows c k s.batched
      → suc k.nonce < uint64_mod
      → Sound ledger c before size (include_tx size k s)
  unfolding include_tx
  Sound-include_tx k s h open_batch new follows small =
      let next = Sound-add_batched k s h open_batch new follows in
      elim (Bool-cases (add_batched size k s).full) [
        | inl f ↦ rw (include_tx, f) next
        | inr f ↦
            rw (include_tx, f)
              (Sound-take_skipped (suc (length s.skipped)) (next_key k) (add_batched size k s) next
                f (Fits-next_key k s h new small))
      ]

  -- A key that is new and neither the next one nor after a batched one is skipped.
  Sound-skip_tx :
      (k : IndexKey) (s : Batching)
      → Sound ledger c before size s
      → has same_key k s.batched ≡ false
      → k.nonce ≢ c k.account
      → suc k.nonce < uint64_mod
      → Sound ledger c before size (skip_tx k s)
  unfolding skip_tx
  Sound-skip_tx k s h new early small = record {
    known = h.known;
    batched_lem = h.batched_lem;
    in_order = h.in_order;
    waits = λ j there. elim (Bool-cases (same_key k j)) [
      | inl e ↦
          subst (Waits c s.batched) (same_key-≡ k j e)
            (early, small, λ b. absurd (ground (arith, new, b)))
      | inr e ↦ h.waits j (has_rest k j s.skipped e there)
    ];
    bound = h.bound;
    room = h.room;
  }

  -- Reading a nonce.
  Sound-read :
      (account : String) (s : Batching)
      → Sound ledger c before size s
      → Sound ledger c before size
          (record s { nonces = (get_commit_nonce ledger account s.nonces).1 })
  Sound-read account s h = record {
    known = λ a. committed-get_commit_nonce ledger account a s.nonces ∙ h.known a;
    batched_lem = h.batched_lem;
    in_order = h.in_order;
    waits = h.waits;
    bound = h.bound;
    room = h.room;
  }

  Sound-choose_tx :
      (k : IndexKey) (s : Batching)
      → Sound ledger c before size s
      → s.full ≡ false
      → has same_key k s.batched ≡ false
      → suc k.nonce < uint64_mod
      → Sound ledger c before size (choose_tx ledger size k s)
  unfolding choose_tx Follows
  Sound-choose_tx k s h open_batch new small =
      let read = get_commit_nonce ledger k.account s.nonces in
      let s1 = record s { nonces = read.1 } in
      let h1 = Sound-read k.account s h in
      let nonce : read.0 ≡ c k.account =
        get_commit_nonce-committed ledger k.account s.nonces ∙ h.known k.account in
      elim (Bool-cases (seen_previous k s.batched)) [
        | inl e ↦ rw (choose_tx, e) (Sound-include_tx k s1 h1 open_batch new (inr e) small)
        | inr e ↦ elim (Bool-cases (k.nonce == read.0)) [
          | inl f ↦
              let follows : k.nonce ≡ c k.account = (==_iff k.nonce read.0).0 f ∙ nonce in
              rw (choose_tx, e, f) (Sound-include_tx k s1 h1 open_batch new (inl follows) small)
          | inr f ↦
              let early : k.nonce ≢ c k.account = λ g. absurd (ground (arith, f, g, nonce)) in
              rw (choose_tx, e, f) (Sound-skip_tx k s1 h1 new early small)
        ]
      ]

  -- The loop over the priority index keeps its variables sound.
  pub Sound-gather :
      (ts : List TimeoutKey) (s : Batching)
      → All (λ t. suc t.nonce < uint64_mod) ts
      → Sound ledger c before size s
      → s.full ≡ false
      → Sound ledger c before size (gather ledger size ts s)
  unfolding gather visit_tx
  Sound-gather [] s small h open_batch = h
  Sound-gather (t ∷ ts) s small h open_batch =
      let next = visited in
      elim (Bool-cases (visit_tx ledger size (index_key t) s).full) [
        | inl f ↦ rw (gather, f) next
        | inr f ↦
            rw (gather, f) (Sound-gather ts (visit_tx ledger size (index_key t) s) small.1 next f)
      ]
    where
      visited : Sound ledger c before size (visit_tx ledger size (index_key t) s)
      visited = elim (Bool-cases (has same_key (index_key t) s.batched)) [
        | inl e ↦ rw (visit_tx, e) h
        | inr e ↦ rw (visit_tx, e) (Sound-choose_tx (index_key t) s h open_batch e small.0)
      ]
