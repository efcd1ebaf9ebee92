-- ===== src/Mempool/Ready.antt =====
-- Which transactions of an account filterReady of pkg/order/mempool/tx_store.go finds to be ready.
use model_lib.Base.{
  ℕ, zero, suc, ◌+◌, ◌%◌, ◌≤◌, ◌<◌, ◌≡◌, refl, ap, ◌∙◌, ◌⊎◌, inl, inr, leb, ◌==◌, ==_iff, true,
  false, Bool-cases, List, List-cases, [], ◌∷◌, ◌++◌, map, some, length, All, All-map, uint64_mod,
  arith,
}
use model_lib.Mempool.State.{Tx, TxItem, SortedMap, has, Ascending}
use model_lib.Mempool.Accounts.{
  from_nonce, Filtered, prepend_ready, prepend_non_ready, filter_loop, filter_ready,
}

-- There is an item at each of the keys, with a transaction of this nonce.
abbrev pub Held : SortedMap → List ℕ → Type 0
Held m = All (λ n. (item : TxItem) × (m.items n ≡ some item) × (item.tx.nonce ≡ n))

-- d, d + 1 and so on
unfoldable pub count_up : ℕ → ℕ → List ℕ
count_up d zero = []
count_up d (suc k) = d ∷ count_up (suc d) k

abbrev pub nonces_of : List Tx → List ℕ
nonces_of = map (λ tx. tx.nonce)

-- The keys are split into those that run on from the demanded nonce without a gap, up to the first that is
-- missing, and the others.
abbrev pub Splits : List ℕ → ℕ → Filtered → Type 0
Splits ns d f =
    (nonces_of f.ready ++ nonces_of f.non_ready ≡ ns)
    × (nonces_of f.ready ≡ count_up d (length f.ready))
    × (f.demand ≡ d + length f.ready)
    × (has ◌==◌ f.demand ns ≡ false)

absent : (d : ℕ) (ns : List ℕ) → All (λ n. d < n) ns → has ◌==◌ d ns ≡ false
unfolding has
absent d [] h = refl
absent d (n ∷ ns) h = ground (arith, h.0, absent d ns h.1)

-- Above the demanded nonce nothing is ready.
filter_loop-above :
    (m : SortedMap) (ns : List ℕ) (d : ℕ)
    → Held m ns
    → All (λ n. d < n) ns
    → (txs : List Tx) × (filter_loop m ns d
        ≡ some (record { ready = []; non_ready = txs; demand = d }))
      × (nonces_of txs ≡ ns)
unfolding filter_loop prepend_non_ready
filter_loop-above m [] d held above = ([], refl, refl)
filter_loop-above m (n ∷ ns) d ((item, there, nonce), held) (above, rest) =
    let (txs, run, nonces) = filter_loop-above m ns d held rest in
    let other : (n == d) ≡ false = ground (arith, above) in
    (item.tx ∷ txs, rw (filter_loop, there, other, run) refl, rw (nonce, nonces) refl)

-- What filterReady does of the keys, which are all from the demanded nonce on.
abbrev SplitBy : SortedMap → List ℕ → ℕ → Type 0
SplitBy m ns d = (f : Filtered) × (filter_loop m ns d ≡ some f) × Splits ns d f

-- A key at the demanded nonce is ready.
Splits-ready :
    (m : SortedMap) (n : ℕ) (ns : List ℕ) (d : ℕ) (item : TxItem)
    → m.items n ≡ some item
    → item.tx.nonce ≡ n
    → (n == d) ≡ true
    → suc n < uint64_mod
    → SplitBy m ns (suc d)
    → SplitBy m (n ∷ ns) d
unfolding filter_loop prepend_ready prepend_non_ready has count_up
Splits-ready m n ns d item there nonce e small (f, run, (all, ready, demand, missing)) =
    let same : n ≡ d = (==_iff n d).0 e in
    let next : (d + 1) % uint64_mod ≡ suc d = omega (arith, same, small) in
    let first : (n == f.demand) ≡ false = ground (arith, demand, same) in
    (
      record f { ready = item.tx ∷ f.ready },
      rw (filter_loop, there, e, next, run) refl,
      (
        rw nonce (ap (◌∷◌ n) all),
        rw (nonce, same) (ap (◌∷◌ d) ready),
        omega (arith, demand),
        rw first missing,
      ),
    )

-- A key after the demanded nonce is not, nor is what follows.
Splits-non_ready :
    (m : SortedMap) (n : ℕ) (ns : List ℕ) (d : ℕ) (item : TxItem)
    → m.items n ≡ some item
    → item.tx.nonce ≡ n
    → (n == d) ≡ false
    → Held m ns
    → d < n
    → All (λ j. d < j) ns
    → SplitBy m (n ∷ ns) d
unfolding filter_loop prepend_ready prepend_non_ready count_up
Splits-non_ready m n ns d item there nonce e held less later =
    let (txs, run, nonces) = filter_loop-above m ns d held later in
    (
      record { ready = []; non_ready = item.tx ∷ txs; demand = d },
      rw (filter_loop, there, e, run) refl,
      (rw (nonce, nonces) refl, refl, omega arith, absent d (n ∷ ns) (less, later)),
    )

filter_loop-Splits :
    (m : SortedMap) (ns : List ℕ) (d : ℕ)
    → Held m ns
    → Ascending ns
    → All (λ n. d ≤ n) ns
    → All (λ n. suc n < uint64_mod) ns
    → SplitBy m ns d
unfolding filter_loop Ascending count_up has
filter_loop-Splits m [] d held up from small =
    (record { ready = []; non_ready = []; demand = d }, refl, (refl, refl, omega arith, refl))
filter_loop-Splits m (n ∷ ns) d ((item, there, nonce), held) (above, up) (from, rest)
      (small, smalls) =
    elim (Bool-cases (n == d)) [
      | inl e ↦
          let later : All (λ j. suc d ≤ j) ns =
            All-map (λ j lt. ground (arith, lt, e, ==_iff n d)) ns above in
          Splits-ready m n ns d item there nonce e small
            (filter_loop-Splits m ns (suc d) held up later smalls)
      | inr e ↦
          let less : d < n = ground (arith, from, e, ==_iff n d) in
          let later : All (λ j. d < j) ns = All-map (λ j lt. omega (arith, lt, less)) ns above in
          Splits-non_ready m n ns d item there nonce e held less later
    ]

-- The keys from a nonce on are keys, in their order.
All-from_nonce : (P : ℕ → Type 0) (d : ℕ) (ns : List ℕ) → All P ns → All P (from_nonce d ns)
unfolding from_nonce
All-from_nonce P d [] h = h
All-from_nonce P d (n ∷ ns) h = elim (Bool-cases (leb d n)) [
  | inl e ↦ rw (from_nonce, e) (h.0, All-from_nonce P d ns h.1)
  | inr e ↦ rw (from_nonce, e) (All-from_nonce P d ns h.1)
]

from_nonce-Ascending : (d : ℕ) (ns : List ℕ) → Ascending ns → Ascending (from_nonce d ns)
unfolding from_nonce Ascending
from_nonce-Ascending d [] h = h
from_nonce-Ascending d (n ∷ ns) h = elim (Bool-cases (leb d n)) [
  | inl e ↦ rw (from_nonce, e) (All-from_nonce (λ y. n < y) d ns h.0, from_nonce-Ascending d ns h.1)
  | inr e ↦ rw (from_nonce, e) (from_nonce-Ascending d ns h.1)
]

from_nonce-from : (d : ℕ) (ns : List ℕ) → All (λ n. d ≤ n) (from_nonce d ns)
unfolding from_nonce
from_nonce-from d [] = tt
from_nonce-from d (n ∷ ns) = elim (Bool-cases (leb d n)) [
  | inl e ↦ rw (from_nonce, e) (ground (arith, e), from_nonce-from d ns)
  | inr e ↦ rw (from_nonce, e) (from_nonce-from d ns)
]

-- For an index that is in order, holds no largest uint64 and has an item with a transaction of the nonce at each
-- key, filterReady does not panic: of the transactions from the demanded nonce on, in their order, those are ready that run
-- on from the demanded nonce without a gap, the others are not, and the nonce that it returns is the first one for which there
-- is no transaction.
pub filter_ready-Splits :
    (m : SortedMap) (d : ℕ)
    → Held m m.index
    → Ascending m.index
    → All (λ n. suc n < uint64_mod) m.index
    → (f : Filtered) × (filter_ready m d ≡ some f) × Splits (from_nonce d m.index) d f
filter_ready-Splits m d held up small =
    let (f, run, split) =
      filter_loop-Splits m (from_nonce d m.index) d (All-from_nonce _ d m.index held)
        (from_nonce-Ascending d m.index up) (from_nonce-from d m.index)
        (All-from_nonce _ d m.index small) in
    (f, same (List-cases m.index) ∙ run, split)
  where
    same :
        (m.index ≡ []) ⊎ ((n : ℕ) × (ns : List ℕ) × (m.index ≡ n ∷ ns))
        → filter_ready m d ≡ filter_loop m (from_nonce d m.index) d
    same (inl e) = unfold filter_ready filter_loop from_nonce in rw (filter_ready, e) refl
    same (inr (n, ns, e)) = unfold filter_ready in rw (filter_ready, e) refl
