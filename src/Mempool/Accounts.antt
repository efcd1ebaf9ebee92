-- ===== src/Mempool/Accounts.antt =====
-- The transactions of an account: filterReady and forward of txSortedMap in pkg/order/mempool/tx_store.go.
use model_lib.Base.{
  ℕ, ◌+◌, ◌%◌, ltb, leb, ◌==◌, true, false, List, [], ◌∷◌, Option, none, some, if◌then◌else◌,
  uint64_mod,
}
use model_lib.Mempool.State.{Tx, SortedMap}
use model_lib.Mempool.Indices.{TxMap, append_tx}

-- The keys that AscendGreaterOrEqual visits
unfoldable pub from_nonce : ℕ → List ℕ → List ℕ
from_nonce d [] = []
from_nonce d (n ∷ ns) = if leb d n then n ∷ from_nonce d ns else from_nonce d ns

-- The keys that AscendLessThan visits
unfoldable pub below_nonce : ℕ → List ℕ → List ℕ
below_nonce d [] = []
below_nonce d (n ∷ ns) = if ltb n d then n ∷ below_nonce d ns else below_nonce d ns

-- What filterReady returns: ready and other transactions, and the nonce that is demanded next
pub record Filtered : Type 0 where
  pub ready : List Tx
  pub non_ready : List Tx
  pub demand : ℕ

unfoldable pub prepend_ready : Tx → Option Filtered → Option Filtered
prepend_ready tx none = none
prepend_ready tx (some f) = some (record f { ready = tx ∷ f.ready })

unfoldable pub prepend_non_ready : Tx → Option Filtered → Option Filtered
prepend_non_ready tx none = none
prepend_non_ready tx (some f) = some (record f { non_ready = tx ∷ f.non_ready })

-- The function that filterReady passes to the tree, over the keys that are visited; none where there is no
-- item at a key, and the code panics.
unfoldable pub filter_loop : SortedMap → List ℕ → ℕ → Option Filtered
unfolding prepend_ready prepend_non_ready
filter_loop m [] demand = some (record { ready = []; non_ready = []; demand = demand })
filter_loop m (n ∷ ns) demand = elim (m.items n) [
  | none ↦ none
  | some item ↦ elim (n == demand) [
    | true ↦ prepend_ready item.tx (filter_loop m ns ((demand + 1) % uint64_mod))
    | false ↦ prepend_non_ready item.tx (filter_loop m ns demand)
  ]
]

-- filterReady
unfoldable pub filter_ready : SortedMap → ℕ → Option Filtered
unfolding filter_loop from_nonce
filter_ready m demand = elim m.index [
  | [] ↦ some (record { ready = []; non_ready = []; demand = demand })
  | n ∷ ns ↦ filter_loop m (from_nonce demand (n ∷ ns)) demand
]

unfoldable pub forward_loop : List ℕ → TxMap → SortedMap → Option (TxMap × SortedMap)
unfolding append_tx
forward_loop [] removed m = some (removed, m)
forward_loop (n ∷ ns) removed m = elim (m.items n) [
  | none ↦ none
  | some item ↦
      forward_loop ns (append_tx item.account item.tx removed)
        (record m { items = λ j. if n == j then none else m.items j })
]

-- forward: the removed transactions, and the items that are left; the index is not changed yet.
unfoldable pub forward : ℕ → SortedMap → Option (TxMap × SortedMap)
unfolding below_nonce forward_loop
forward commit_nonce m = forward_loop (below_nonce commit_nonce m.index) [] m
