-- ===== src/Mempool/Shards.antt =====
-- The lists in which shardTxList of pkg/order/mempool/mempool_impl.go puts the transactions.
use Prim.Native.Nat.{◌/◌}
use native.Mathlib.Nat.{mod-lt, div-add-mod}
use model_lib.Base.{
  ℕ, zero, suc, ◌+◌, ◌-◌, ◌*◌, ◌%◌, ◌≤◌, ◌<◌, ◌≡◌, refl, sym, ap, ◌∙◌, inl, inr, ◌==◌, false,
  Bool-cases, List, [], ◌∷◌, ◌++◌, some, length, All, arith,
}
use model_lib.Mempool.State.{Tx, TimeoutKey, TxStore}
use model_lib.Mempool.Timeouts.{read_tx, shard_list, shard_lists, batch_nums, shard_tx_list}

-- The transactions at the keys, where there is one at each.
abbrev pub Reads : TxStore → List TimeoutKey → List Tx → Type 0
Reads store [] [] = Unit
Reads store [] (tx ∷ txs) = ⊥
Reads store (key ∷ keys) [] = ⊥
Reads store (key ∷ keys) (tx ∷ txs) = (read_tx store key ≡ some tx) × Reads store keys txs

abbrev pub flatten : List (List Tx) → List Tx
flatten [] = []
flatten (txs ∷ lists) = txs ++ flatten lists

-- The lists hold the transactions in their order; none is empty and none is too long.
abbrev pub Shards : ℕ → List Tx → List (List Tx) → Type 0
Shards n txs lists = (flatten lists ≡ txs) × All (λ l. (0 < length l) × (length l ≤ n)) lists

-- What one list takes.
abbrev Taken : ℕ → TxStore → List TimeoutKey → List Tx → Type 0
Taken n store items txs =
    (front : List Tx) × (back : List Tx) × (rest : List TimeoutKey) × (shard_list n store items
      ≡ some (front, rest))
    × Reads store rest back
    × (txs ≡ front ++ back)
    × (length front ≤ n)
    × (length front + length rest ≡ length items)
    × (length rest ≡ length items - n)

Taken-cons :
    (n : ℕ) (store : TxStore) (item : TimeoutKey) (items : List TimeoutKey) (tx : Tx)
    (txs : List Tx)
    → read_tx store item ≡ some tx
    → Taken n store items txs
    → Taken (suc n) store (item ∷ items) (tx ∷ txs)
unfolding shard_list
Taken-cons n store item items tx txs read (front, back, rest, run, reads, parts, bound, sum, left) =
    (
      tx ∷ front,
      back,
      rest,
      rw (shard_list, read, run) refl,
      reads,
      ap (◌∷◌ tx) parts,
      omega (arith, bound),
      omega (arith, sum),
      omega (arith, left),
    )

shard_list-Taken :
    (n : ℕ) (store : TxStore) (items : List TimeoutKey) (txs : List Tx)
    → Reads store items txs
    → Taken n store items txs
unfolding shard_list
shard_list-Taken zero store items txs h =
    ([], txs, items, refl, h, refl, omega arith, omega arith, omega arith)
shard_list-Taken (suc n) store [] [] h =
    ([], [], [], refl, tt, refl, omega arith, omega arith, omega arith)
shard_list-Taken (suc n) store [] (tx ∷ txs) h = absurd h
shard_list-Taken (suc n) store (item ∷ items) [] h = absurd h
shard_list-Taken (suc n) store (item ∷ items) (tx ∷ txs) (read, h) =
    Taken-cons n store item items tx txs read (shard_list-Taken n store items txs h)

shard_lists-Shards :
    (rounds n : ℕ) (store : TxStore) (items : List TimeoutKey) (txs : List Tx)
    → Reads store items txs
    → 0 < n
    → length items ≤ rounds * n
    → rounds * n < length items + n
    → (lists : List (List Tx)) × (shard_lists rounds n store items ≡ some lists)
      × Shards n txs lists
unfolding shard_lists
shard_lists-Shards zero n store [] [] h pos few many = ([], refl, (refl, tt))
shard_lists-Shards zero n store [] (tx ∷ txs) h pos few many = absurd h
shard_lists-Shards zero n store (item ∷ items) txs h pos few many = absurd (omega (arith, few))
shard_lists-Shards (suc k) n store items txs h pos few many =
    let (front, back, rest, run, reads, parts, bound, sum, left) =
      shard_list-Taken n store items txs h in
    let one_more : suc k * n ≡ n + k * n = omega arith in
    let (lists, runs, (all, sizes)) =
      shard_lists-Shards k n store rest back reads pos (omega (arith, left, few, one_more))
        (omega (arith, left, many, one_more)) in
    (
      front ∷ lists,
      rw (shard_lists, run, runs) refl,
      (
        ap (◌++◌ front) all ∙ sym parts,
        ((omega (arith, sum, left, many, one_more, pos), bound), sizes),
      ),
    )

-- As many lists as are needed.
batch_nums-enough :
    (total n : ℕ) → 0 < n → (total ≤ batch_nums total n * n) × (batch_nums total n * n < total + n)
unfolding batch_nums
batch_nums-enough total n pos =
    let whole = div-add-mod total n in
    let less = mod-lt total pos in
    elim (Bool-cases (total % n == 0)) [
      | inl e ↦
          let exact : total % n ≡ 0 = ground (arith, e) in
          rw (batch_nums, e) (omega (arith, whole, exact, pos), omega (arith, whole, exact, pos))
      | inr e ↦
          let some_left : 0 < total % n = ground (arith, e) in
          let one_more : suc (total / n) * n ≡ n + (total / n) * n = omega arith in
          rw (batch_nums, e)
            (omega (arith, whole, less, one_more), omega (arith, whole, some_left, one_more))
    ]

-- Where there is a transaction at each key and the size of a list is not 0, shardTxList does not panic: its
-- lists hold the transactions in the order of the keys, none of them is empty, and none is longer than that
-- size.
pub shard_tx_list-Shards :
    (store : TxStore) (items : List TimeoutKey) (txs : List Tx) (n : ℕ)
    → Reads store items txs
    → 0 < n
    → (lists : List (List Tx)) × (shard_tx_list store items n ≡ some lists) × Shards n txs lists
shard_tx_list-Shards store items txs n h pos =
    let enough = batch_nums-enough (length items) n pos in
    let (lists, run, shards) =
      shard_lists-Shards (batch_nums (length items) n) n store items txs h pos enough.0 enough.1 in
    let not_zero : (n == 0) ≡ false = ground (arith, pos) in
    (lists, unfold shard_tx_list in rw (shard_tx_list, not_zero) run, shards)
