-- ===== src/Executor/Apply.antt =====
-- internal/executor/handle.go: a transaction is applied, by the executor that is not parallel.
use model_lib.Base.{
  ℕ, ◌+◌, ◌%◌, String, false, List, [], ◌∷◌, Option, none, some, ◌⊎◌, inl, inr, if◌then◌else◌,
  str_eq, text_append, uint64_mod,
}
use model_lib.Executor.World.{World, EvmLog}
use model_lib.Executor.Fees.{unknown_tx_type, of_other, Setting, pay_gas_fee, pay_left_as_gas_fee}
use model_lib.Executor.Data.{
  gas_failed_tx, BxhTransaction, EthTransaction, Transaction, bxh, eth, other, get_from, get_nonce,
  get_hash, Status, success, failed, Ret, returned, error, Receipt, ExecutionResult, Machines,
}
use model_lib.Executor.Bxh.{Outcome, apply_bxh_transaction}

-- The receipt as it is made: GasUsed 0 and nothing in the rest
abbrev pub new_receipt : Status → Ret → Receipt
new_receipt status ret = record {
  status = status;
  ret = ret;
  begin_failure = false;
  gas_used = 0;
  evm_logs = [];
  contract_address = none;
}

-- The receipt of a transaction of BitXHub, before its fee is paid
unfoldable pub bxh_receipt : Outcome → List EvmLog → Receipt
bxh_receipt (ret, gas_used, some e) logs = record (new_receipt failed (error e)) {
  gas_used = gas_used;
}
bxh_receipt (ret, gas_used, none) logs = record (new_receipt success (returned ret)) {
  gas_used = gas_used;
  begin_failure = elim ret [ none ↦ false | some r ↦ str_eq r "begin_failure" ];
  evm_logs = logs;
}

-- Status and Ret of a message that has run
unfoldable pub result_receipt : ExecutionResult → Receipt
result_receipt result = elim result.err [
  | none ↦ new_receipt success (returned (some result.return_data))
  | some e ↦ new_receipt failed (
      if result.reverted
      then returned (some (text_append e result.return_data))
      else error (of_other e))
]

-- common.Address{}
abbrev zero_address : String
zero_address = "0x0000000000000000000000000000000000000000"

module _ (w : World) (m : Machines w) (c : Setting) where
  -- The part of applyEthTransaction behind ApplyMessage; none for a panic
  unfoldable pub after_message :
      EthTransaction → ℕ → (String ⊎ ExecutionResult) × w.State → Option (Receipt × w.State)
  unfolding result_receipt
  after_message tx snapshot (inl e, s) = elim (w.revert_to_snapshot snapshot s) [
    | none ↦ none
    | some s1 ↦ some (new_receipt failed (error (of_other e)), w.finalise s1)
  ]
  after_message tx snapshot (inr result, s) =
      let s1 = w.finalise s in
      some (
        record (result_receipt result) {
          gas_used = result.used_gas;
          contract_address = elim tx.to [
            | none ↦ some (m.created_address tx)
            | some to ↦ if str_eq to zero_address then some (m.created_address tx) else none
          ];
          evm_logs = w.get_logs tx.hash s1;
        },
        s1,
      )

  -- applyEthTransaction
  unfoldable pub apply_eth_transaction : EthTransaction → w.State → Option (Receipt × w.State)
  unfolding after_message
  apply_eth_transaction tx s =
      let (snapshot, s1) = w.snapshot s in
      after_message tx snapshot (m.apply_message tx c.gas_limit s1)

  -- What evmInterchain notes of InvokeBVM
  unfoldable pub after_invoke :
      Receipt → (Option String × Option String) × w.State → Receipt × w.State
  after_invoke receipt ((ret, none), s) = (record receipt { ret = returned ret }, s)
  after_invoke receipt ((ret, some e), s) =
      (record receipt { ret = returned ret; status = failed }, s)

  -- The loop of evmInterchain, which ends at the first log of the broker
  unfoldable pub invoke_first : EthTransaction → Receipt → List EvmLog → w.State → Receipt × w.State
  unfolding after_invoke
  invoke_first tx receipt [] s = (receipt, s)
  invoke_first tx receipt (log ∷ logs) s =
      let rest = invoke_first tx receipt logs s in
      if m.is_inter_broker log.address
      then after_invoke receipt (m.invoke_inter_broker tx log.log_data s)
      else rest

  -- evmInterchain
  unfoldable pub evm_interchain : EthTransaction → Receipt × w.State → Receipt × w.State
  unfolding invoke_first
  evm_interchain tx (receipt, s) = elim receipt.status [
    | failed ↦ (receipt, s)
    | success ↦ invoke_first tx receipt receipt.evm_logs s
  ]

  -- payGasFee, and what is done where it fails: `restore` is the revert, payLeftAsGasFee follows
  unfoldable pub settle :
      String → (w.State → Option w.State) → Receipt → w.State → Option (Receipt × w.State)
  unfolding pay_gas_fee pay_left_as_gas_fee
  settle from restore receipt s = elim (pay_gas_fee w c from receipt.gas_used s) [
    | none ↦ none
    | some (none, s1) ↦ some (receipt, s1)
    | some (some e, s1) ↦ elim (restore s1) [
      | none ↦ none
      | some s2 ↦ elim (pay_left_as_gas_fee w c from s2) [
        | none ↦ none
        | some s3 ↦ some (record receipt { status = failed; ret = error e }, s3)
      ]
    ]
  ]

  -- The case BxhTransaction
  unfoldable pub apply_bxh : BxhTransaction → String → w.State → Option (Receipt × w.State)
  unfolding apply_bxh_transaction bxh_receipt settle
  apply_bxh tx invalid_reason s =
      let (snapshot, s1) = w.snapshot s in
      elim (apply_bxh_transaction w m c tx invalid_reason s1) [
        | none ↦ none
        | some (outcome, s2) ↦
            settle tx.from (w.revert_to_snapshot snapshot)
              (bxh_receipt outcome (w.get_logs tx.hash s2)) s2
      ]

  -- The switch on the kind of the transaction
  unfoldable pub apply_kind : Transaction → String → w.State → Option (Receipt × w.State)
  unfolding apply_bxh apply_eth_transaction evm_interchain settle
  apply_kind (bxh tx) invalid_reason s = apply_bxh tx invalid_reason s
  apply_kind (eth tx) invalid_reason s = elim (apply_eth_transaction tx s) [
    | none ↦ none
    | some result ↦ some (evm_interchain tx result)
  ]
  apply_kind (other from nonce hash) invalid_reason s =
      settle from some
        (record (new_receipt failed (error unknown_tx_type)) { gas_used = gas_failed_tx }) s

  -- applyTransaction, with what it defers to its end
  unfoldable pub apply_transaction : ℕ → Transaction → String → w.State → Option (Receipt × w.State)
  unfolding apply_kind get_from get_nonce get_hash
  apply_transaction i tx invalid_reason s =
      elim (apply_kind tx invalid_reason (w.prepare_evm (get_hash tx) i s)) [
        | none ↦ none
        | some (receipt, s1) ↦
            some
              (receipt, w.finalise (w.set_nonce (get_from tx) ((get_nonce tx + 1) % uint64_mod) s1))
      ]
