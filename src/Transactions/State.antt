-- ===== src/Transactions/State.antt =====
-- The state of the transaction contract, its context, and its responses. The contract stores its
-- values under four families of keys, which are four maps here: a value that it has stored is decoded
-- to what it was.
use model_lib.Base.{ℕ, String, Bool, List, Option}
use model_lib.Transactions.Status.{TransactionStatus}

-- pb.TransactionRecord
pub record TransactionRecord : Type 0 where
  pub status : TransactionStatus
  pub height : ℕ

pub record TransactionInfo : Type 0 where
  pub global_state : TransactionStatus
  pub height : ℕ
  pub child_tx_info : List (String × TransactionStatus)
  pub child_tx_count : ℕ

pub record Store : Type 0 where
  pub tx_info : String → Option TransactionRecord  -- TxInfoKey
  pub global_tx_info : String → Option TransactionInfo  -- GlobalTxInfoKey
  pub timeout : ℕ → Option (List String)  -- TimeoutKey
  pub global_id : String → Option String  -- the id of a child, with no prefix

-- What the stub tells of the call: the caller, the current height, and the address of the
-- interchain contract.
pub record Context : Type 0 where
  pub current_caller : String
  pub current_height : ℕ
  pub interchain_contract_addr : String

-- pb.StatusChange; `none` is the previous status -1.
pub record StatusChange : Type 0 where
  pub prev_status : Option TransactionStatus
  pub cur_status : TransactionStatus
  pub notify_src_ibtp_ids : List String
  pub notify_dst_ibtp_ids : List String
  pub child_ibtp_ids : List String
  pub is_fail_child_ibtp : Bool

-- The codes of boltvm.BxhError that the contract answers with.
pub data ErrorCode : Type 0 where
  no_permission internal_err state_err nonexistent_tx nonexistent_global_tx : ErrorCode
  existent_child_tx nonexistent_global_id : ErrorCode

-- boltvm.Response, or a panic of the contract.
pub data Response {ℓ} (A : Type ℓ) : Type ℓ where
  ok : A → Response A
  err : ErrorCode → Response A
  panicked : Response A
