-- ===== src/Executor/Conservation.antt =====
-- internal/executor/handle.go: what a transaction that runs no machine does to the sum of the balances.
use model_lib.Base.{
  ℕ, ◌+◌, ◌%◌, ◌<◌, uint64_mod, ◌≡◌, ◌≢◌, refl, ap, ◌∙◌, pos, ◌+ℤ◌, String, true, false, List, [],
  some, inr, All, length, has_key, Distinct,
}
use model_lib.Executor.World.{World, Promises}
use model_lib.Executor.Fees.{Setting, pay_gas_fee}
use model_lib.Executor.Data.{normal, TransactionData, BxhTransaction, bxh, Receipt, Machines}
use model_lib.Executor.Apply.{apply_transaction}
use model_lib.Executor.Totals.{total, total_same}
use model_lib.Executor.Paths.{transaction-Ends}
use model_lib.Executor.Conserved.{transfer_total, pay_fees_total, pay_left_total}

-- Data that a payload decodes to are those of a transfer.
abbrev pub Plain : (w : World) → Machines w → BxhTransaction → Type 0
Plain w m tx =
    (payload : String) (d : TransactionData)
    → tx.payload ≡ some payload
    → m.unmarshal payload ≡ inr d
    → d.data_type ≡ normal

-- A transaction that is no IBTP, names a recipient, and whose payload, where it decodes, is that of a
-- transfer, is applied without a panic whatever the reason for which it may be invalid, where there is an
-- administrator and the ledger can be reverted to the snapshots that the transaction takes: it keeps the
-- promises of World, and for the model of the state ledger every loaded account has the changer that the
-- ledger has now. Afterwards the sender's nonce is the next one of the transaction's, as a uint64, and
-- the accounts hold in all what they held before but for a rest that is smaller than the number of the
-- administrators. The accounts are a list without repetition in which the sender, the recipient, another
-- account than the sender, and the administrators occur.
pub apply_transaction_conserved :
    (w : World) (p : Promises w) (m : Machines w) (c : Setting) (tx : BxhTransaction) (to : String)
    (accounts : List String) (i : ℕ) (reason : String) (s : w.State)
    → tx.to ≡ some to
    → tx.is_ibtp ≡ false
    → Plain w m tx
    → tx.from ≢ to
    → Distinct accounts
    → has_key tx.from accounts ≡ true
    → has_key to accounts ≡ true
    → 0 < length c.admins
    → All (λ a. has_key a accounts ≡ true) c.admins
    → p.Taken [] s
    → (receipt : Receipt) × (s2 : w.State) × (rest : ℕ) × (apply_transaction w m c i
          (bxh tx)
          reason
          s
        ≡ some (receipt, s2))
      × (p.nonce_at s2 tx.from ≡ (tx.nonce + 1) % uint64_mod)
      × (rest < length c.admins)
      × (total (p.balance_at s2) accounts +ℤ pos rest ≡ total (p.balance_at s) accounts)
unfolding pay_gas_fee
apply_transaction_conserved w p m c tx to accounts i reason s named b plain apart distinct f t n
      admins taken =
    let sum = total (p.balance_at s) accounts in
    let (receipt, s2, eq, nonce, (rest, below, kept)) =
      transaction-Ends w p m c tx to named (λ g. total g accounts ≡ sum)
        (λ g. (r : ℕ) × (r < length c.admins) × (total g accounts +ℤ pos r ≡ sum))
        (λ g h e k. total_same h g e accounts ∙ k)
        (λ g h e (r, l, k). (r, l, ap (λ x. x +ℤ pos r) (total_same h g e accounts) ∙ k))
        (λ payload d e u. (
          plain payload d e u,
          λ x k. transfer_total w p accounts distinct tx.from to _ x apart f t ∙ k,
        ))
        (λ gas x k. pay_fees_total w p accounts distinct c n admins tx.from sum f _ x k)
        (λ x k. pay_left_total w p accounts distinct c n admins tx.from sum f x k) i reason s b
        taken refl in
    (receipt, s2, rest, eq, nonce, below, kept)
