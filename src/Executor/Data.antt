-- ===== src/Executor/Data.antt =====
-- internal/executor/handle.go: the transactions and receipts of a block, and the packages that their
-- execution calls. A receipt is kept without its version, its hash and its bloom, which is a hash of
-- the rest.
use model_lib.Base.{ℕ, ℤ, String, Bool, List, Option, ◌⊎◌}
use model_lib.Executor.World.{World, EvmLog}
use model_lib.Executor.Fees.{Failure}

abbrev pub gas_normal_tx : ℕ
gas_normal_tx = 21000

abbrev pub gas_failed_tx : ℕ
gas_failed_tx = 21000

abbrev pub gas_bvm_tx : ℕ
gas_bvm_tx = 210000

-- TransactionData of the package pb
pub data DataType : Type 0 where
  normal : DataType
  other_type : DataType

pub data VmType : Type 0 where
  bvm : VmType
  xvm : VmType
  other_vm : VmType

pub record TransactionData : Type 0 where
  pub data_type : DataType
  pub amount : String
  pub vm_type : VmType
  pub payload : String

-- BxhTransaction, EthTransaction and what another implementation of Transaction shows
pub record BxhTransaction : Type 0 where
  pub from : String
  pub to : Option String  -- none is nil
  pub nonce : ℕ
  pub hash : String
  pub is_ibtp : Bool
  pub payload : Option String

pub record EthTransaction : Type 0 where
  pub from : String
  pub to : Option String
  pub nonce : ℕ
  pub hash : String

pub data Transaction : Type 0 where
  bxh : BxhTransaction → Transaction
  eth : EthTransaction → Transaction
  other : String → ℕ → String → Transaction

unfoldable pub get_from : Transaction → String
get_from (bxh tx) = tx.from
get_from (eth tx) = tx.from
get_from (other from nonce hash) = from

unfoldable pub get_nonce : Transaction → ℕ
get_nonce (bxh tx) = tx.nonce
get_nonce (eth tx) = tx.nonce
get_nonce (other from nonce hash) = nonce

unfoldable pub get_hash : Transaction → String
get_hash (bxh tx) = tx.hash
get_hash (eth tx) = tx.hash
get_hash (other from nonce hash) = hash

pub data Status : Type 0 where
  success : Status
  failed : Status

-- The bytes of a receipt: what a machine has returned, or the text of an error
pub data Ret : Type 0 where
  returned : Option String → Ret
  error : Failure → Ret

pub record Receipt : Type 0 where
  pub status : Status
  pub ret : Ret
  pub begin_failure : Bool  -- TxStatus
  pub gas_used : ℕ
  pub evm_logs : List EvmLog
  pub contract_address : Option String

-- ExecutionResult of an Ethereum message that has run
pub record ExecutionResult : Type 0 where
  pub err : Option String
  pub reverted : Bool  -- the text of err begins with that of ErrExecutionReverted
  pub return_data : String
  pub used_gas : ℕ

-- The packages that are called: the decoding of a payload, the numbers of math/big, the virtual
-- machines, and the Ethereum machine with its addresses.
pub record Machines (w : World) : Type 0 where
  pub unmarshal : String → String ⊎ TransactionData
  pub set_string : String → Option ℤ
  pub handle_ibtp : BxhTransaction → w.State → (Option String × Option String) × w.State
  pub run_bvm :
      BxhTransaction → TransactionData → ℕ → w.State → (Option String × ℕ × Option String) × w.State
  pub new_wasm : BxhTransaction → TransactionData → w.State → Option String × w.State
  pub run_wasm :
      BxhTransaction → TransactionData → ℕ → w.State → (Option String × ℕ × Option String) × w.State
  pub apply_message : EthTransaction → ℕ → w.State → (String ⊎ ExecutionResult) × w.State
  pub created_address : EthTransaction → String
  pub is_inter_broker : String → Bool
  pub invoke_inter_broker :
      EthTransaction → String → w.State → (Option String × Option String) × w.State
