-- ===== src/Executor/Bxh.antt =====
-- internal/executor/handle.go: the transactions of BitXHub itself.
use model_lib.Base.{
  ℕ, ◌+◌, ◌%◌, ℤ, pos, String, Option, none, some, inl, inr, if◌then◌else◌, str_eq, uint64_mod,
}
use model_lib.Executor.World.{World}
use model_lib.Executor.Fees.{
  Failure, invalid, empty_transaction_data, wrong_vm_type, of_other, Setting, transfer,
}
use model_lib.Executor.Data.{
  gas_normal_tx, gas_failed_tx, gas_bvm_tx, normal, other_type, VmType, bvm, xvm, other_vm,
  TransactionData, BxhTransaction, Machines,
}

-- The results of applyBxhTransaction: the bytes, the gas that is used, the error
abbrev pub Outcome : Type 0
Outcome = Option String × ℕ × Option Failure

-- The error of another package, or none
unfoldable pub other_error : Option String → Option Failure
other_error none = none
other_error (some e) = some (of_other e)

-- val, where !ok stands for 0
unfoldable pub parsed : Option ℤ → ℤ
parsed none = pos 0
parsed (some val) = val

module _ (w : World) (m : Machines w) (c : Setting) where
  -- if err != nil { RevertToSnapshot(snapshot) }
  unfoldable pub revert_on_error : ℕ → Option Failure → w.State → Option w.State
  revert_on_error snapshot none s = some s
  revert_on_error snapshot (some e) s = w.revert_to_snapshot snapshot s

  -- What the case TransactionData_NORMAL does with the error of transfer
  unfoldable pub after_transfer : ℕ → Option Failure × w.State → Option (Outcome × w.State)
  unfolding revert_on_error
  after_transfer snapshot (err, s) = elim (revert_on_error snapshot err s) [
    | none ↦ none
    | some s1 ↦ some ((none, gas_normal_tx, err), s1)
  ]

  -- The case TransactionData_NORMAL
  unfoldable pub apply_normal :
      ℕ → BxhTransaction → TransactionData → w.State → Option (Outcome × w.State)
  unfolding transfer after_transfer parsed
  apply_normal snapshot tx tx_data s =
      elim (transfer w tx.from tx.to (some (parsed (m.set_string tx_data.amount))) s) [
        | none ↦ none
        | some result ↦ after_transfer snapshot result
      ]

  -- The end of the default case: what the machine has returned, on top of the gas before
  unfoldable pub after_run :
      ℕ → ℕ → (Option String × ℕ × Option String) × w.State → Option (Outcome × w.State)
  unfolding revert_on_error other_error
  after_run snapshot gas_used ((ret, gas_run_used, err), s) =
      elim (revert_on_error snapshot (other_error err) s) [
        | none ↦ none
        | some s1 ↦ some ((ret, (gas_used + gas_run_used) % uint64_mod, other_error err), s1)
      ]

  -- The default case, a run of a virtual machine
  unfoldable pub apply_run :
      VmType → ℕ → BxhTransaction → TransactionData → w.State → Option (Outcome × w.State)
  unfolding after_run
  apply_run bvm snapshot tx tx_data s =
      after_run snapshot gas_bvm_tx (m.run_bvm tx tx_data c.gas_limit s)
  apply_run xvm snapshot tx tx_data s =
      let (err, s1) = m.new_wasm tx tx_data s in
      elim err [
        | some e ↦ some ((none, gas_failed_tx, some (of_other e)), s1)
        | none ↦ after_run snapshot 0 (m.run_wasm tx tx_data c.gas_limit s1)
      ]
  apply_run other_vm snapshot tx tx_data s = some ((none, gas_failed_tx, some wrong_vm_type), s)

  -- The switch on the type of the data, behind its snapshot
  unfoldable pub apply_data :
      BxhTransaction → TransactionData → w.State → Option (Outcome × w.State)
  unfolding apply_normal apply_run
  apply_data tx tx_data s =
      let (snapshot, s1) = w.snapshot s in
      elim tx_data.data_type [
        | normal ↦ apply_normal snapshot tx tx_data s1
        | other_type ↦ apply_run tx_data.vm_type snapshot tx tx_data s1
      ]

  -- The part of applyBxhTransaction behind its first two tests
  unfoldable pub apply_payload : BxhTransaction → w.State → Option (Outcome × w.State)
  unfolding apply_data
  apply_payload tx s = elim tx.payload [
    | none ↦ some ((none, gas_failed_tx, some empty_transaction_data), s)
    | some payload ↦ elim (m.unmarshal payload) [
      | inl e ↦ some ((none, gas_failed_tx, some (of_other e)), s)
      | inr tx_data ↦ apply_data tx tx_data s
    ]
  ]

  -- The branch of an IBTP, from what HandleIBTP has returned
  unfoldable pub after_ibtp : (Option String × Option String) × w.State → Option (Outcome × w.State)
  unfolding other_error
  after_ibtp ((ret, err), s) = some ((ret, gas_bvm_tx, other_error err), s)

  -- applyBxhTransaction; none for a panic
  unfoldable pub apply_bxh_transaction :
      BxhTransaction → String → w.State → Option (Outcome × w.State)
  unfolding apply_payload after_ibtp
  apply_bxh_transaction tx invalid_reason s =
      if str_eq invalid_reason ""
      then if tx.is_ibtp then after_ibtp (m.handle_ibtp tx s) else apply_payload tx s
      else some ((none, gas_failed_tx, some (invalid invalid_reason)), s)
