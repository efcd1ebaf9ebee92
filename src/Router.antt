-- ===== src/Router.antt =====
-- internal/router/interchain.go: what each chain is sent of a block. The channels and feeds are not modelled.
pub mod Wrappers
use model_lib.Base.{
  ℕ, zero, suc, ◌+◌, ◌-◌, ◌≡◌, ◌∙◌, ap, refl, sym, String, Bool, true, false, List, [], ◌∷◌, map,
  Option, none, some, str_eq, eq_iff, if◌then◌else◌, put, lookup, get_elem?, keys, has_key,
  Distinct, arith, inl, inr, Option-cases, Bool-cases, length,
}

-- pb.VerifiedIndex
pub record VerifiedIndex : Type 0 where
  pub index : ℕ
  pub valid : Bool
  pub is_batch : Bool

-- A transaction of a block: a BxhTransaction, or an EthTransaction
pub data BlockTx (Tx : Type 0) : Type 0 where
  bxh_tx : Tx → BlockTx Tx
  eth_tx : BlockTx Tx

-- tx, _ := Transactions[i].(*pb.BxhTransaction): nil where it is another one
unfoldable pub as_bxh : {Tx : Type 0} → BlockTx Tx → Option Tx
as_bxh (bxh_tx tx) = some tx
as_bxh eth_tx = none

-- pb.VerifiedTx; the transaction may be nil
pub record VerifiedTx (Tx : Type 0) : Type 0 where
  pub tx : Option Tx
  pub valid : Bool
  pub is_batch : Bool

-- pb.InterchainTxWrapper
pub record Wrapper (Tx : Type 0) : Type 0 where
  pub height : ℕ
  pub transactions : List (VerifiedTx Tx)
  pub l2_roots : List String
  pub timeout_l2_roots : List String
  pub timeout_ibtps : List String
  pub multi_tx_ibtps : List String

-- The block, as far as the router reads it
pub record Block (Tx : Type 0) : Type 0 where
  pub number : ℕ
  pub txs : List (BlockTx Tx)

-- pb.InterchainMeta, whose maps are lists in the order of a range
pub record InterchainMeta : Type 0 where
  pub counter : List (String × List VerifiedIndex)
  pub timeout_counter : List (String × List String)
  pub multi_tx_counter : List (String × List String)
  pub l2_roots : List String
  pub timeout_l2_roots : List String

-- A chain that is sent nothing of a block is sent this.
unfoldable pub empty_wrapper : {Tx : Type 0} → Block Tx → InterchainMeta → Wrapper Tx
empty_wrapper b m = record {
  height = b.number;
  transactions = [];
  l2_roots = m.l2_roots;
  timeout_l2_roots = [];
  timeout_ibtps = [];
  multi_tx_ibtps = [];
}

-- The map that classify makes, which is read by its keys
abbrev pub Target : Type 0 → Type 0
Target Tx = String → Option (Wrapper Tx)

module _ {Tx : Type 0} where
  -- The transactions at the indices; none for an index out of range
  unfoldable pub verified : List (BlockTx Tx) → List VerifiedIndex → Option (List (VerifiedTx Tx))
  unfolding as_bxh
  verified txs [] = some []
  verified txs (v ∷ vs) =
      let rest = verified txs vs in
      elim (get_elem? txs v.index) [
        | none ↦ none
        | some tx ↦ elim rest [
          | none ↦ none
          | some xs ↦ some (record { tx = as_bxh tx; valid = v.valid; is_batch = v.is_batch } ∷ xs)
        ]
      ]

  -- The first loop of classify
  unfoldable pub all_verified :
      List (BlockTx Tx)
      → List (String × List VerifiedIndex)
      → Option (List (String × List (VerifiedTx Tx)))
  unfolding verified
  all_verified txs [] = some []
  all_verified txs (entry ∷ entries) =
      let rest = all_verified txs entries in
      elim (verified txs entry.1) [
        | none ↦ none
        | some xs ↦ elim rest [ none ↦ none | some all ↦ some ((entry.0, xs) ∷ all) ]
      ]

  -- The wrapper of a chain, or a new one
  unfoldable pub or_empty : Block Tx → InterchainMeta → Option (Wrapper Tx) → Wrapper Tx
  unfolding empty_wrapper
  or_empty b m none = empty_wrapper b m
  or_empty b m (some w) = w

  -- A loop of classify over a map: each entry changes, or makes, the wrapper of its chain.
  unfoldable pub put_each {ℓ} :
      {V : Type ℓ}
      → (V → Option (Wrapper Tx) → Wrapper Tx)
      → List (String × V)
      → Target Tx
      → Target Tx
  put_each f [] target = target
  put_each f (entry ∷ entries) target =
      put_each f entries (put target entry.0 (f entry.1 (target entry.0)))

  -- The bodies of the loops over the timeouts, the children of group transactions and the transactions
  unfoldable pub with_timeouts :
      Block Tx → InterchainMeta → List String → Option (Wrapper Tx) → Wrapper Tx
  unfolding empty_wrapper
  with_timeouts b m ids w = record (empty_wrapper b m) {
    timeout_l2_roots = m.timeout_l2_roots;
    timeout_ibtps = ids;
  }

  unfoldable pub with_multi_txs :
      Block Tx → InterchainMeta → List String → Option (Wrapper Tx) → Wrapper Tx
  unfolding or_empty
  with_multi_txs b m ids w = record (or_empty b m w) { multi_tx_ibtps = ids }

  unfoldable pub with_txs :
      Block Tx → InterchainMeta → List (VerifiedTx Tx) → Option (Wrapper Tx) → Wrapper Tx
  unfolding or_empty
  with_txs b m txs w = record (or_empty b m w) { transactions = txs }

  -- classify; none for a panic
  unfoldable pub classify : Block Tx → InterchainMeta → Option (Target Tx)
  unfolding all_verified put_each with_timeouts with_multi_txs with_txs
  classify b m = elim (all_verified b.txs m.counter) [
    | none ↦ none
    | some txs ↦ some (
        put_each (with_txs b m) txs (
          put_each (with_multi_txs b m) m.multi_tx_counter
            (put_each (with_timeouts b m) m.timeout_counter (λ dest. none))))
  ]

  -- What PutBlockAndMeta sends to a pier, and what GetInterchainTxWrappers sends of one block
  unfoldable pub wrapper_for : String → Block Tx → InterchainMeta → Option (Wrapper Tx)
  unfolding classify or_empty
  wrapper_for pier b m = elim (classify b m) [
    | none ↦ none
    | some target ↦ some (or_empty b m (target pier))
  ]

  -- GetInterchainTxWrappers from the height on for as many rounds, where the ledger gives the block and its
  -- meta data at a height: what is sent before an error, and whether there is none; none for a panic
  unfoldable pub get_interchain_tx_wrappers :
      (ℕ → Option (Block Tx × InterchainMeta)) → String → ℕ → ℕ → Option (List (Wrapper Tx) × Bool)
  unfolding wrapper_for
  get_interchain_tx_wrappers ledger pier zero height = some ([], true)
  get_interchain_tx_wrappers ledger pier (suc rounds) height =
      let rest = get_interchain_tx_wrappers ledger pier rounds (height + 1) in
      elim (ledger height) [
        | none ↦ some ([], false)
        | some block ↦ elim (wrapper_for pier block.0 block.1) [
          | none ↦ none
          | some w ↦ elim rest [ none ↦ none | some (ws, ok) ↦ some (w ∷ ws, ok) ]
        ]
      ]
