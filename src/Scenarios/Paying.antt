-- ===== src/Scenarios/Paying.antt =====
-- A transfer between two accounts of the state ledger, whose sender cannot pay the fee, with three
-- administrators.
use model_lib.Base.{
  ℕ, ◌<◌, ◌≡◌, ◌≢◌, refl, ap, pos, negsuc, ◌+ℤ◌, String, false, [], ◌∷◌, List, none, some, inr,
  arith, inl, sym, Bool-cases, str_eq, has_key, Distinct,
}
use model_lib.Ledger.State.{SimpleLedger}
use model_lib.Ledger.Views.{account_at, balance_at, nonce_at}
use model_lib.Ledger.Operations.{found_account, loaded_account}
use model_lib.Ledger.Accounts.{account_balance, new_account, is_nil_or_empty}
use model_lib.Executor.World.{World, EvmLog}
use model_lib.Executor.Fees.{Setting, transfer}
use model_lib.Executor.Data.{normal, bvm, TransactionData, BxhTransaction, bxh, Receipt, Machines}
use model_lib.Executor.Bxh.{parsed}
use model_lib.Executor.Apply.{apply_transaction}
use model_lib.Executor.Totals.{total}
use model_lib.Executor.Chains.{Chain}
use model_lib.Executor.OnLedger.{ledger_world, ledger_promises}
use model_lib.Executor.Conservation.{apply_transaction_conserved}
use model_lib.Executor.Solvent.{Solvent, apply_transaction-Solvent}
use model_lib.Executor.Amounts.{transfer_negative}
use model_lib.Scenarios.Reverting.{kit, disk, started, started-Current}

abbrev as_log : String → EvmLog
as_log l = record { address = l; log_data = l }

abbrev ledger : World
ledger = ledger_world kit disk as_log

abbrev data_of_seven : TransactionData
data_of_seven = record { data_type = normal; amount = "7"; vm_type = bvm; payload = "" }

abbrev machines : Machines ledger
machines = record {
  unmarshal = λ payload. inr data_of_seven;
  set_string = λ text. some (pos 7);
  handle_ibtp = λ tx s. ((none, none), s);
  run_bvm = λ tx tx_data gas s. ((none, 0, none), s);
  new_wasm = λ tx tx_data s. (none, s);
  run_wasm = λ tx tx_data gas s. ((none, 0, none), s);
  apply_message = λ tx gas s.
      (inr (record { err = none; reverted = false; return_data = ""; used_gas = 0 }), s);
  created_address = λ tx. "0xc";
  is_inter_broker = λ address. false;
  invoke_inter_broker = λ tx log_data s. ((none, none), s);
}

abbrev setting : Setting
setting = record { admins = "0xd" ∷ "0xe" ∷ "0xf" ∷ []; bxh_gas_price = 1; gas_limit = 1000000 }

abbrev payment : BxhTransaction
payment = record {
  from = "0xa";
  to = some "0xb";
  nonce = 3;
  hash = "0x1";
  is_ibtp = false;
  payload = some "transfer";
}

abbrev accounts : List String
accounts = "0xa" ∷ "0xb" ∷ "0xd" ∷ "0xe" ∷ "0xf" ∷ []

other_account : ◌≢◌ {A = String} "0xa" "0xb"
other_account h = ground (arith, ap (λ x. str_eq "0xa" x) h)

seven : (d : TransactionData) → machines.unmarshal "transfer" ≡ inr d → d.data_type ≡ normal
seven d u = sym (ap (λ x. elim x [ inl _ ↦ normal | inr y ↦ y.data_type ]) u)

all-Solvent : Solvent (balance_at disk started)
unfolding balance_at account_at found_account loaded_account account_balance new_account
    is_nil_or_empty
all-Solvent x = elim (Bool-cases (str_eq x "0xa")) [
  | inl e ↦ rw (loaded_account, e) refl
  | inr e ↦ rw (loaded_account, e) refl
]

apply_transaction_conserved_example :
    (receipt : Receipt) × (s2 : SimpleLedger) × (rest : ℕ) × (apply_transaction ledger machines
        setting 0
        (bxh payment)
        ""
        started
      ≡ some (receipt, s2))
    × (nonce_at disk s2 "0xa" ≡ 4)
    × (rest < 3)
    × (total (balance_at disk s2) accounts +ℤ pos rest ≡ pos 100)
unfolding ledger_promises Chain has_key Distinct total balance_at loaded_account
apply_transaction_conserved_example =
    apply_transaction_conserved ledger (ledger_promises kit disk as_log) machines setting payment
      "0xb" accounts 0 "" started refl refl (λ payload d e u. seven d u) other_account
      (refl, (refl, (refl, (refl, (refl, tt))))) refl refl (omega arith) (refl, (refl, (refl, tt)))
      (tt, started-Current, tt)

apply_transaction-Solvent_example :
    (receipt : Receipt) × (s2 : SimpleLedger) × (apply_transaction ledger machines setting 0
        (bxh payment)
        ""
        started
      ≡ some (receipt, s2))
    × Solvent (balance_at disk s2)
unfolding ledger_promises Chain parsed
apply_transaction-Solvent_example =
    apply_transaction-Solvent ledger (ledger_promises kit disk as_log) machines setting payment
      "0xb" 0 "" started refl refl (λ payload d e u. (seven d u, refl)) (omega arith)
      (tt, started-Current, tt) all-Solvent

transfer_negative_example :
    (s2 : SimpleLedger) × (transfer ledger "0xa" (some "0xb") (some (negsuc 6)) started
      ≡ some (none, s2))
    × (balance_at disk s2 "0xa" ≡ pos 107)
    × (balance_at disk s2 "0xb" ≡ negsuc 6)
unfolding ledger_promises balance_at loaded_account
transfer_negative_example =
    transfer_negative ledger (ledger_promises kit disk as_log) "0xa" "0xb" 6 started other_account
      refl
