-- ===== src/Executor/Fees.antt =====
-- internal/executor/handle.go: the transfer of a transaction and the fees that are paid for it.
use model_lib.Base.{
  ℕ, ◌*◌, ℤ, pos, ◌+ℤ◌, ◌-ℤ◌, ltbℤ, is_zeroℤ, div_int, String, List, [], ◌∷◌, Option, none, some,
  if◌then◌else◌, length,
}
use model_lib.Executor.World.{World}

-- The errors of a transaction, each with what its text is made of
pub data Failure : Type 0 where
  not_sufficient_funds : String → Failure  -- of the account
  insufficient_balance : String → ℤ → ℤ → Failure  -- address, have, want
  invalid : String → Failure  -- invalidReason
  empty_transaction_data : Failure
  wrong_vm_type : Failure
  unknown_tx_type : Failure
  of_other : String → Failure  -- of Unmarshal or of a virtual machine

-- The fields of BlockExecutor that the fees depend on
pub record Setting : Type 0 where
  pub admins : List String
  pub bxh_gas_price : ℕ
  pub gas_limit : ℕ

module _ (w : World) where
  -- transfer to an account: a nil or zero value moves nothing
  unfoldable pub transfer_to : String → String → Option ℤ → w.State → Option Failure × w.State
  transfer_to from to none s = (none, s)
  transfer_to from to (some value) s =
      if is_zeroℤ value
      then (none, s)
      else let (fv, s1) = w.get_balance from s in
        if ltbℤ fv value
        then (some (not_sufficient_funds from), s1)
        else let (tv, s2) = w.get_balance to s1 in
          (none, w.set_balance to (tv +ℤ value) (w.set_balance from (fv -ℤ value) s2))

  -- transfer; none for the panic of GetBalance on a nil recipient, behind the other tests
  unfoldable pub transfer :
      String → Option String → Option ℤ → w.State → Option (Option Failure × w.State)
  unfolding transfer_to
  transfer from (some to) value s = some (transfer_to from to value s)
  transfer from none none s = some (none, s)
  transfer from none (some value) s =
      if is_zeroℤ value
      then some (none, s)
      else let (fv, s1) = w.get_balance from s in
        if ltbℤ fv value then some (some (not_sufficient_funds from), s1) else none

  -- The loop of payAdmins
  unfoldable pub pay_each : ℤ → List String → w.State → w.State
  pay_each fee [] s = s
  pay_each fee (admin ∷ admins) s =
      let (balance, s1) = w.get_balance admin s in
      pay_each fee admins (w.set_balance admin (balance +ℤ fee) s1)

  -- return nil, behind payAdmins
  unfoldable pub paid : Option w.State → Option (Option Failure × w.State)
  paid none = none
  paid (some s) = some (none, s)

  module _ (c : Setting) where
    -- payAdmins: none for the panic of big.Int.Div on no admins
    unfoldable pub pay_admins : ℤ → w.State → Option w.State
    unfolding pay_each
    pay_admins fees s = elim c.admins [
      | [] ↦ none
      | _ ∷ _ ↦ some (pay_each (div_int fees (length c.admins)) c.admins s)
    ]

    -- payGasFee behind its first line
    unfoldable pub pay_fees : String → ℤ → w.State → Option (Option Failure × w.State)
    unfolding pay_admins paid
    pay_fees from fees s =
        let (have, s1) = w.get_balance from s in
        if ltbℤ have fees
        then some (some (insufficient_balance from have fees), s1)
        else paid (pay_admins fees (w.set_balance from (have -ℤ fees) s1))

    -- payGasFee
    unfoldable pub pay_gas_fee : String → ℕ → w.State → Option (Option Failure × w.State)
    unfolding pay_fees
    pay_gas_fee from gas_used s = pay_fees from (pos (gas_used * c.bxh_gas_price)) s

    -- payLeftAsGasFee
    unfoldable pub pay_left_as_gas_fee : String → w.State → Option w.State
    unfolding pay_admins
    pay_left_as_gas_fee from s =
        let (have, s1) = w.get_balance from s in pay_admins have (w.set_balance from (pos 0) s1)
