-- ===== src/Transactions/Outcomes.antt =====
-- What the handlers of internal/executor/contracts/transaction_manager.go answer and store.
use model_lib.Base.{
  ℕ, ◌+◌, ◌≡◌, refl, ◌∙◌, ◌≤◌, Bool, String, Option, none, some, arith, eq_iff, max_uint64,
  if◌then◌else◌, ◌||◌, leb, ◌==◌, put,
}
use model_lib.Transactions.Status.{
  TransactionStatus, IbtpType, begin, begin_failure, success, failure, rollback, receipt_to_event,
}
use model_lib.Transactions.Fsm.{FsmPackage, set_fsm, set_fsm_lem, next_status}
use model_lib.Transactions.State.{TransactionRecord, Store, Context, ErrorCode, err, state_err}
use model_lib.Transactions.Begin.{timeout_at, begin_tx, begin_inter_bitxhub, begin_multi_txs}
use model_lib.Transactions.Report.{report}

pub data IsFinal : TransactionStatus → Type 0 where
  success_final : IsFinal success
  failure_final : IsFinal failure
  rollback_final : IsFinal rollback

next_status-final : (s : TransactionStatus) → IsFinal s → (e : _) → next_status s e ≡ none
unfolding next_status
next_status-final _ success_final e = refl
next_status-final _ failure_final e = refl
next_status-final _ rollback_final e = refl

-- A receipt that the interchain contract reports for a transaction with a record of its own that has
-- reached SUCCESS, FAILURE or ROLLBACK is refused and changes nothing.
pub report_final :
    (p : FsmPackage) (c : Context) (tx_id : String) (result : IbtpType) (s : Store)
    (r : TransactionRecord)
    → c.current_caller ≡ c.interchain_contract_addr
    → s.tx_info tx_id ≡ some r
    → IsFinal r.status
    → report p c tx_id result s ≡ (s, err state_err)
unfolding report
report_final p c tx_id result s r caller stored final =
    let e : set_fsm p r.status (receipt_to_event result) ≡ none =
      set_fsm_lem p r.status _ ∙ next_status-final r.status final _ in
    ground (arith, e, eq_iff c.current_caller c.interchain_contract_addr)

-- A receipt that Report answers with an error has left the store as it was.
pub report_err-unchanged :
    (p : FsmPackage) (c : Context) (tx_id : String) (result : IbtpType) (s : Store) (e : ErrorCode)
    → (report p c tx_id result s).1 ≡ err e
    → (report p c tx_id result s).0 ≡ s
unfolding report
report_err-unchanged p c tx_id result s e h = ground arith

pub begin_err-unchanged :
    (p : FsmPackage) (c : Context) (tx_id : String) (timeout : ℕ) (proof : Option TransactionStatus)
    (failed : Bool) (s : Store) (e : ErrorCode)
    → (begin_inter_bitxhub p c tx_id timeout proof failed s).1 ≡ err e
    → (begin_inter_bitxhub p c tx_id timeout proof failed s).0 ≡ s
unfolding begin_inter_bitxhub
begin_err-unchanged p c tx_id timeout proof failed s e h = ground arith

pub begin_multi_err-unchanged :
    (c : Context) (global_id ibtp_id : String) (timeout : ℕ) (failed : Bool) (count : ℕ) (s : Store)
    (e : ErrorCode)
    → (begin_multi_txs c global_id ibtp_id timeout failed count s).1 ≡ err e
    → (begin_multi_txs c global_id ibtp_id timeout failed count s).0 ≡ s
unfolding begin_multi_txs
begin_multi_err-unchanged c global_id ibtp_id timeout failed count s e h = ground arith

-- The height of a timeout: the sum of the current height and what is asked for, or the largest uint64
-- where nothing is asked for or the sum does not lie below it.
abbrev pub due_height : ℕ → ℕ → ℕ
due_height current timeout =
    if timeout == 0 || leb max_uint64 (current + timeout) then max_uint64 else current + timeout

pub timeout_at_lem :
    (current timeout : ℕ)
    → current ≤ max_uint64
    → timeout_at current timeout ≡ due_height current timeout
unfolding timeout_at
timeout_at_lem current timeout h = ground arith

-- A transaction that the interchain contract begins is stored under its id with the status BEGIN, or
-- BEGIN_FAILURE where the target failed, and with the height at which it times out, capped at the
-- largest uint64. The current height is a uint64.
pub begin_tx_lem :
    (c : Context) (tx_id : String) (timeout : ℕ) (failed : Bool) (s : Store)
    → c.current_height ≤ max_uint64
    → c.current_caller ≡ c.interchain_contract_addr
    → (begin_tx c tx_id timeout failed s).0.tx_info tx_id
      ≡ some (record {
        status = if failed then begin_failure else begin;
        height = due_height c.current_height timeout;
      })
unfolding begin_tx
begin_tx_lem c tx_id timeout failed s h caller = ground (
  arith,
  eq_iff c.current_caller c.interchain_contract_addr,
  eq_iff tx_id tx_id,
  timeout_at_lem c.current_height timeout,
)

pub begin_tx_err-unchanged :
    (c : Context) (tx_id : String) (timeout : ℕ) (failed : Bool) (s : Store) (e : ErrorCode)
    → (begin_tx c tx_id timeout failed s).1 ≡ err e
    → (begin_tx c tx_id timeout failed s).0 ≡ s
unfolding begin_tx
begin_tx_err-unchanged c tx_id timeout failed s e h = ground arith

abbrev pub with_record : String → TransactionRecord → Store → Store
with_record tx_id r s = record s { tx_info = put s.tx_info tx_id r }

-- For a transaction that is known, BeginInterBitXHub answers the same whatever record is stored for it:
-- the record's status and height are not read.
pub begin_inter_bitxhub_unread :
    (p : FsmPackage) (c : Context) (tx_id : String) (timeout : ℕ) (proof : Option TransactionStatus)
    (failed : Bool) (s : Store) (r r' : TransactionRecord)
    → (begin_inter_bitxhub p c tx_id timeout proof failed (with_record tx_id r s)).1
      ≡ (begin_inter_bitxhub p c tx_id timeout proof failed (with_record tx_id r' s)).1
unfolding begin_inter_bitxhub
begin_inter_bitxhub_unread p c tx_id timeout proof failed s r r' =
    ground (arith, eq_iff tx_id tx_id)
