-- ===== src/Router/Wrappers.antt =====
-- The wrappers of internal/router/interchain.go, chain by chain.
use model_lib.Base.{
  ℕ, zero, suc, ◌≡◌, ◌∙◌, ap, refl, sym, String, Bool, true, false, List, [], ◌∷◌, Option, none,
  some, str_eq, eq_iff, if◌then◌else◌, lookup, keys, has_key, Distinct, arith, inl, inr,
  Option-cases, Bool-cases, All, length, get_elem?, ◌<◌, some-injective, subst,
}
use model_lib.Router.{
  BlockTx, as_bxh, VerifiedIndex, VerifiedTx, Wrapper, Block, InterchainMeta, Target, verified,
  all_verified, put_each, or_empty, with_timeouts, with_multi_txs, with_txs, wrapper_for, classify,
}

-- The list under a key, empty where there is none.
unfoldable pub listed {ℓ} : {A : Type ℓ} → String → List (String × List A) → List A
unfolding lookup
listed key entries = elim (lookup key entries) [ none ↦ [] | some xs ↦ xs ]

unfoldable pub is_listed {ℓ} : {A : Type ℓ} → String → List (String × List A) → Bool
unfolding lookup
is_listed key entries = elim (lookup key entries) [ none ↦ false | some xs ↦ true ]

lookup-none {ℓ} :
    {V : Type ℓ} (key : String) (entries : List (String × V))
    → has_key key (keys entries) ≡ false
    → lookup key entries ≡ none
unfolding lookup has_key
lookup-none key [] h = refl
lookup-none key (e ∷ es) h = ground (arith, h, lookup-none key es)

module _ {Tx : Type 0} where
  changed_by {ℓ} :
      {V : Type ℓ}
      → (V → Option (Wrapper Tx) → Wrapper Tx)
      → Option V
      → Option (Wrapper Tx)
      → Option (Wrapper Tx)
  changed_by f none w = w
  changed_by f (some v) w = some (f v w)

  -- A loop changes the wrapper of a chain by the entry of the chain, and no other.
  put_each-at {ℓ} :
      {V : Type ℓ} (f : V → Option (Wrapper Tx) → Wrapper Tx) (entries : List (String × V))
      (target : Target Tx) (dest : String)
      → Distinct (keys entries)
      → put_each f entries target dest ≡ changed_by f (lookup dest entries) (target dest)
  unfolding put_each lookup Distinct changed_by
  put_each-at f [] target dest d = refl
  put_each-at f (e ∷ es) target dest d = elim (Bool-cases (str_eq e.0 dest)) [
    | inl t ↦
        let same : e.0 ≡ dest = (eq_iff e.0 dest).0 t in
        let gone : lookup dest es ≡ none = rw (← same) (lookup-none e.0 es d.0) in
        put_each-at f es _ dest d.1
        ∙ (rw (gone, lookup, t) (ap (λ x. some (f e.1 (target x))) same))
    | inr n ↦ put_each-at f es _ dest d.1 ∙ (rw (lookup, n) refl)
  ]

  -- The transactions of every chain are those at its indices.
  all_verified-at :
      (txs : List (BlockTx Tx)) (counter : List (String × List VerifiedIndex))
      (all : List (String × List (VerifiedTx Tx))) (dest : String)
      → all_verified txs counter ≡ some all
      → (keys all ≡ keys counter) × (verified txs (listed dest counter) ≡ some (listed dest all))
  unfolding all_verified listed is_listed lookup
  all_verified-at txs [] all dest e =
      subst
        (λ x.
          (keys x ≡ []) × (Path (Option (List (VerifiedTx Tx))) (some []) (some (listed dest x))))
        (some-injective e) (refl, refl)
  all_verified-at txs (c ∷ cs) all dest e = elim (Option-cases (verified txs c.1)) [
    | inl n ↦ absurd (ground (arith, e, n))
    | inr (xs, v) ↦ elim (Option-cases (all_verified txs cs)) [
      | inl n ↦ absurd (ground (arith, e, v, n))
      | inr (rest, a) ↦
          let (same, own) = all_verified-at txs cs rest dest a in
          subst
            (λ x.
              (keys x ≡ keys (c ∷ cs))
              × (verified txs (listed dest (c ∷ cs)) ≡ some (listed dest x)))
            (some-injective (rw (all_verified, v, a) at e))
            (elim (Bool-cases (str_eq c.0 dest)) [
              | inl t ↦ (ap (λ ks. c.0 ∷ ks) same, rw (listed, lookup, t) v)
              | inr n ↦ (ap (λ ks. c.0 ∷ ks) same, rw (listed, lookup, n) own)
            ])
    ]
  ]

  -- The wrapper that the three loops make of the entries of a chain
  merged :
      (b : Block Tx) (m : InterchainMeta) (ids ids' : Option (List String))
      (txs : Option (List (VerifiedTx Tx)))
      → (let w = or_empty b m (
            changed_by
              (with_txs b m)
              txs
              (changed_by (with_multi_txs b m) ids' (changed_by (with_timeouts b m) ids none))) in
          (w.transactions ≡ elim txs [ none ↦ [] | some xs ↦ xs ])
          × (w.timeout_ibtps ≡ elim ids [ none ↦ [] | some xs ↦ xs ])
          × (w.multi_tx_ibtps ≡ elim ids' [ none ↦ [] | some xs ↦ xs ])
          × (w.timeout_l2_roots
              ≡ (if elim ids [ none ↦ false | some xs ↦ true ] then m.timeout_l2_roots else []))
          × (w.height ≡ b.number)
          × (w.l2_roots ≡ m.l2_roots))
  unfolding or_empty changed_by with_txs with_multi_txs with_timeouts
  merged b m none none none = (refl, refl, refl, refl, refl, refl)
  merged b m none none (some x) = (refl, refl, refl, refl, refl, refl)
  merged b m none (some x) none = (refl, refl, refl, refl, refl, refl)
  merged b m none (some x) (some y) = (refl, refl, refl, refl, refl, refl)
  merged b m (some x) none none = (refl, refl, refl, refl, refl, refl)
  merged b m (some x) none (some y) = (refl, refl, refl, refl, refl, refl)
  merged b m (some x) (some y) none = (refl, refl, refl, refl, refl, refl)
  merged b m (some x) (some y) (some z) = (refl, refl, refl, refl, refl, refl)

  get_elem?-in :
      (txs : List (BlockTx Tx)) (i : ℕ)
      → i < length txs
      → (x : BlockTx Tx) × (get_elem? txs i ≡ some x)
  get_elem?-in [] i h = absurd (omega (arith, h))
  get_elem?-in (x ∷ txs) zero h = (x, refl)
  get_elem?-in (x ∷ txs) (suc i) h = get_elem?-in txs i (omega (arith, h))

  -- Every index of the list is one of a transaction of the block.
  abbrev pub InBlock : List (BlockTx Tx) → List VerifiedIndex → Type 0
  InBlock txs vs = All (λ v. v.index < length txs) vs

  verified-in :
      (txs : List (BlockTx Tx)) (vs : List VerifiedIndex)
      → InBlock txs vs
      → (xs : List (VerifiedTx Tx)) × (verified txs vs ≡ some xs)
  unfolding verified
  verified-in txs [] h = ([], refl)
  verified-in txs (v ∷ vs) h =
      let (x, f) = get_elem?-in txs v.index h.0 in
      let (xs, g) = verified-in txs vs h.1 in
      (
        record { tx = as_bxh x; valid = v.valid; is_batch = v.is_batch } ∷ xs,
        rw (verified, f, g) refl,
      )

  all_verified-in :
      (txs : List (BlockTx Tx)) (counter : List (String × List VerifiedIndex))
      → All (λ c. InBlock txs c.1) counter
      → (all : List (String × List (VerifiedTx Tx))) × (all_verified txs counter ≡ some all)
  unfolding all_verified
  all_verified-in txs [] h = ([], refl)
  all_verified-in txs (c ∷ cs) h =
      let (xs, f) = verified-in txs c.1 h.0 in
      let (all, g) = all_verified-in txs cs h.1 in ((c.0, xs) ∷ all, rw (all_verified, f, g) refl)

  -- Where every index of the meta data is one of the block, and no chain stands twice in a map, a pier is
  -- sent one wrapper: an entry for every index of its chain, in their order, with the transaction there,
  -- or nil for an EthTransaction; the messages of its chain that time out, with the roots of the timeouts
  -- only where there are any; and the children of group transactions of its chain.
  pub wrapper_for_lem :
      (b : Block Tx) (m : InterchainMeta) (pier : String)
      → Distinct (keys m.counter)
      → Distinct (keys m.timeout_counter)
      → Distinct (keys m.multi_tx_counter)
      → All (λ c. InBlock b.txs c.1) m.counter
      → (w : Wrapper Tx) × (wrapper_for pier b m ≡ some w)
        × (verified b.txs (listed pier m.counter) ≡ some w.transactions)
        × (w.timeout_ibtps ≡ listed pier m.timeout_counter)
        × (w.multi_tx_ibtps ≡ listed pier m.multi_tx_counter)
        × (w.timeout_l2_roots
            ≡ (if is_listed pier m.timeout_counter then m.timeout_l2_roots else []))
        × (w.height ≡ b.number)
        × (w.l2_roots ≡ m.l2_roots)
  unfolding wrapper_for classify listed is_listed
  wrapper_for_lem b m pier d1 d2 d3 h =
      let (all, a) = all_verified-in b.txs m.counter h in
      let (same, own) = all_verified-at b.txs m.counter all pier a in
      let once : Distinct (keys all) = subst Distinct (sym same) d1 in
      let timeouts : Target Tx = put_each (with_timeouts b m) m.timeout_counter (λ x. none) in
      let groups : Target Tx = put_each (with_multi_txs b m) m.multi_tx_counter timeouts in
      let entry = changed_by (with_txs b m) (lookup pier all) (
        changed_by (with_multi_txs b m) (lookup pier m.multi_tx_counter)
          (changed_by (with_timeouts b m) (lookup pier m.timeout_counter) none)) in
      let at : put_each (with_txs b m) all groups pier ≡ entry =
        put_each-at (with_txs b m) all groups pier once
        ∙ ap (changed_by (with_txs b m) (lookup pier all)) (
            put_each-at (with_multi_txs b m) m.multi_tx_counter timeouts pier d3
            ∙ ap (changed_by (with_multi_txs b m) (lookup pier m.multi_tx_counter))
                (put_each-at (with_timeouts b m) m.timeout_counter (λ x. none) pier d2)) in
      let (txs, ids, children, roots, height, l2) =
        merged b m (lookup pier m.timeout_counter) (lookup pier m.multi_tx_counter)
          (lookup pier all) in
      (
        or_empty b m entry,
        rw (wrapper_for, classify, a) (ap (λ x. some (or_empty b m x)) at),
        own ∙ ap some (sym txs),
        ids,
        children,
        roots,
        height,
        l2,
      )
