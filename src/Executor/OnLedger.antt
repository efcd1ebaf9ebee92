-- ===== src/Executor/OnLedger.antt =====
-- internal/ledger keeps what internal/executor/handle.go relies on: the state ledger as the world of the
-- executor, with the methods of state_accessor.go, of simple_ledger.go and of evmstate_accessor.go.
use model_lib.Base.{refl, String, map}
use model_lib.Ledger.State.{Kit, Disk, SimpleLedger}
use model_lib.Ledger.Operations.{get_balance, set_balance, set_nonce}
use model_lib.Ledger.Snapshots.{snapshot, revert_to_snapshot, clear_changer_and_refund}
use model_lib.Ledger.Views.{Current, balance_at, nonce_at}
use model_lib.Ledger.Undone.{Same-shown}
use model_lib.Executor.World.{World, Promises, EvmLog}
use model_lib.Executor.Chains.{
  prepare_evm, Ids, Chain, get_balance-Chain, set_balance-Chain, snapshot-Chain, prepare_evm-Chain,
  reverted-Chain,
}
use model_lib.Executor.Shown.{
  get_balance_at, balance_kept, balance_set, nonce_balance, nonce_set, finalise_shown,
}

module _ (kit : Kit) (d : Disk) (as_log : String → EvmLog) where
  abbrev pub ledger_world : World
  ledger_world = record {
    State = SimpleLedger;
    get_balance = get_balance d;
    set_balance = set_balance kit d;
    set_nonce = set_nonce kit d;
    prepare_evm = prepare_evm;
    get_logs = λ hash l. map as_log (l.logs hash);
    finalise = clear_changer_and_refund;
    snapshot = snapshot;
    revert_to_snapshot = revert_to_snapshot kit d;
  }

module _ (kit : Kit) (d : Disk) (as_log : String → EvmLog) where
  unfoldable pub ledger_promises : Promises (ledger_world kit d as_log)
  unfolding prepare_evm snapshot
  ledger_promises = record {
    balance_at = balance_at d;
    nonce_at = nonce_at d;
    Taken = λ r l. Ids kit d l × Current d l × Chain kit d r l;
    get_balance_value = get_balance_at kit d;
    get_balance_kept = balance_kept kit d;
    set_balance_kept = balance_set kit d;
    set_nonce_kept = nonce_balance kit d;
    prepare_evm_kept =
        λ h i l x. (Same-shown kit d l (prepare_evm h i l) refl refl refl refl).balances x;
    finalise_kept = λ l x. (finalise_shown kit d l x).0;
    set_nonce_value = nonce_set kit d;
    finalise_nonce = λ l x. (finalise_shown kit d l x).1;
    Taken_get_balance = get_balance-Chain kit d;
    Taken_set_balance = set_balance-Chain kit d;
    Taken_prepare_evm = prepare_evm-Chain kit d;
    Taken_snapshot = snapshot-Chain kit d;
    snapshot_kept = λ l x. (Same-shown kit d l (snapshot l).1 refl refl refl refl).balances x;
    reverted = λ later id r t l h. reverted-Chain kit d later id r t l h.1 h.2;
  }
