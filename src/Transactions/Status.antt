-- ===== src/Transactions/Status.antt =====
-- The statuses and receipts that the transaction contract takes from the protocol's messages, its
-- events, and the two tables that turn a receipt or a remote status into an event.
use model_lib.Base.{ℕ}

-- pb.TransactionStatus; its zero value is `begin`.
pub data TransactionStatus : Type 0 where
  begin begin_failure begin_rollback success failure rollback : TransactionStatus

-- pb.IBTP_Type, which `Report` receives as an int32; `other` is any value that no code names.
pub data IbtpType : Type 0 where
  interchain receipt_success receipt_failure receipt_rollback : IbtpType
  other : ℕ → IbtpType

-- TransactionEvent; `nameless` is the empty string, which a Go map returns for a missing key.
pub data TransactionEvent : Type 0 where
  begin begin_failure timeout failure success rollback dst_rollback dst_failure nameless :
      TransactionEvent

-- receipt2EventM
unfoldable pub receipt_to_event : IbtpType → TransactionEvent
receipt_to_event receipt_failure = TransactionEvent.failure
receipt_to_event receipt_success = TransactionEvent.success
receipt_to_event receipt_rollback = TransactionEvent.rollback
receipt_to_event _ = TransactionEvent.nameless

-- txStatus2EventM
unfoldable pub tx_status_to_event : TransactionStatus → TransactionEvent
tx_status_to_event TransactionStatus.begin_failure = TransactionEvent.dst_failure
tx_status_to_event TransactionStatus.begin_rollback = TransactionEvent.dst_rollback
tx_status_to_event _ = TransactionEvent.nameless
