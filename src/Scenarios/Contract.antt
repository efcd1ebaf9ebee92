-- ===== src/Scenarios/Contract.antt =====
-- Runs of the transaction contract.
use model_lib.Base.{◌≡◌, ◌≢◌, refl, false, some, [], ◌∷◌, arith, put, insert, length, All}
use model_lib.Transactions.Status.{
  TransactionStatus, begin_failure, TransactionEvent, begin, success, receipt_success,
  receipt_failure, receipt_to_event,
}
use model_lib.Transactions.Fsm.{set_fsm, set_fsm_lem, next_status, find_transition}
use model_lib.Transactions.State.{
  TransactionRecord, TransactionInfo, Store, StatusChange, Response, ok, err, state_err,
}
use model_lib.Transactions.Begin.{begin_inter_bitxhub, new_change, remove_from_timeout_list}
use model_lib.Transactions.Report.{report, change_multi_tx_status}
use model_lib.Transactions.Outcomes.{
  success_final, report_final, with_record, begin_inter_bitxhub_unread,
}
use model_lib.Transactions.Consistency.{AllConsistent, report-AllConsistent}
use model_lib.Transactions.Receipts.{global_success_complete, report_no_dst}
use model_lib.Scenarios.Data.{machine, context, empty_store}

set_fsm_lem_example :
    set_fsm machine begin TransactionEvent.success ≡ next_status begin TransactionEvent.success
set_fsm_lem_example = set_fsm_lem machine begin TransactionEvent.success

abbrev ended : TransactionRecord
ended = record { status = success; height = 110 }

abbrev ended_store : Store
ended_store = record empty_store { tx_info = put empty_store.tx_info "a-b-1" ended }

report_final_example :
    report machine context "a-b-1" receipt_failure ended_store ≡ (ended_store, err state_err)
report_final_example =
    report_final machine context "a-b-1" receipt_failure ended_store ended refl refl success_final

abbrev two_children : TransactionInfo
two_children = record {
  global_state = begin;
  height = 110;
  child_tx_info = ("a-b-1", begin) ∷ ("a-c-1", success) ∷ [];
  child_tx_count = 2;
}

abbrev all_done : TransactionInfo
all_done = record two_children {
  global_state = success;
  child_tx_info = ("a-b-1", success) ∷ ("a-c-1", success) ∷ [];
}

completed :
    change_multi_tx_status machine "group" two_children begin "a-b-1" receipt_success empty_store
    ≡ ok (all_done, empty_store)
unfolding change_multi_tx_status set_fsm find_transition remove_from_timeout_list receipt_to_event
    insert
completed = refl

begin_is_open : ◌≢◌ {A = TransactionStatus} begin success
begin_is_open e = ground arith

global_success_complete_example :
    All (λ child. child.1 ≡ success) all_done.child_tx_info
    × (length all_done.child_tx_info ≡ all_done.child_tx_count)
global_success_complete_example =
    global_success_complete machine "group" two_children begin "a-b-1" receipt_success empty_store
      all_done empty_store completed begin_is_open refl

abbrev group_store : Store
group_store = record empty_store {
  global_tx_info = put empty_store.global_tx_info "group" two_children;
  global_id = put (put empty_store.global_id "a-b-1" "group") "a-c-1" "group";
}

group_store-AllConsistent : AllConsistent group_store
group_store-AllConsistent g info e = ground arith

report-AllConsistent_example :
    AllConsistent (report machine context "a-b-1" receipt_failure group_store).0
report-AllConsistent_example =
    report-AllConsistent machine context "a-b-1" receipt_failure group_store
      group_store-AllConsistent

-- The child that has succeeded is not told that the group has failed.
abbrev failing : Store × Response StatusChange
failing = report machine context "a-b-1" receipt_failure group_store

abbrev change_of : Response StatusChange → StatusChange
change_of (ok ch) = ch
change_of _ = new_change begin

failing_answer : failing ≡ (failing.0, ok (change_of failing.1))
unfolding report remove_from_timeout_list
failing_answer = refl

report_no_dst_example : (change_of failing.1).notify_dst_ibtp_ids ≡ []
report_no_dst_example =
    report_no_dst machine context "a-b-1" receipt_failure group_store failing.0
      (change_of failing.1) failing_answer

abbrev waiting_record : TransactionRecord
waiting_record = record { status = begin; height = 110 }

-- The proof says that the transaction has failed. The record of one that has ended is taken like that
-- of one that waits.
begin_inter_bitxhub_unread_example :
    (begin_inter_bitxhub machine context "a-b-1" 10
      (some begin_failure)
      false
      (with_record "a-b-1" ended empty_store)).1
    ≡ (begin_inter_bitxhub machine context "a-b-1" 10
        (some begin_failure)
        false
        (with_record "a-b-1" waiting_record empty_store)).1
begin_inter_bitxhub_unread_example =
    begin_inter_bitxhub_unread machine context "a-b-1" 10 (some begin_failure) false empty_store
      ended waiting_record
