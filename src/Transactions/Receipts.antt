-- ===== src/Transactions/Receipts.antt =====
-- What a receipt for a child of a global transaction brings about
-- (internal/executor/contracts/transaction_manager.go, Report).
use model_lib.Base.{
  ◌≡◌, ◌≢◌, refl, true, false, ◌&&◌, inl, inr, Option-cases, String, List, [], ◌∷◌, some, arith,
  eq_iff, lookup, insert, fill, length, put, All,
}
use model_lib.Transactions.Status.{
  TransactionStatus, IbtpType, begin, begin_failure, success, failure, receipt_to_event,
}
use model_lib.Transactions.Fsm.{FsmPackage, next_status, status_eq}
use model_lib.Transactions.State.{
  TransactionInfo, Store, Context, StatusChange, Response, ok, err, panicked,
}
use model_lib.Transactions.Report.{
  report, report_single, report_child, change_multi_tx_status, multi_change, other_succeeded,
  all_status, is_receipt_failure,
}
use model_lib.Transactions.Groups.{Taken, failed, moved, finished, change_multi_tx_status-Taken}

all_status-success :
    (m : List (String × TransactionStatus))
    → all_status success m ≡ true
    → All (λ child. child.1 ≡ success) m
unfolding all_status status_eq
all_status-success [] h = tt
all_status-success ((k, r) ∷ m) h =
    (succeeded r (ground (arith, h)), all_status-success m (ground (arith, h)))
  where
    succeeded : (r : TransactionStatus) → status_eq r success ≡ true → r ≡ success
    succeeded r e = ground (arith, e)

-- A receipt makes a global transaction successful only where every announced child has begun, and
-- all of them have succeeded.
pub global_success_complete :
    (p : FsmPackage) (global_id : String) (info : TransactionInfo) (status : TransactionStatus)
    (tx_id : String) (result : IbtpType) (s : Store) (info' : TransactionInfo) (s' : Store)
    → change_multi_tx_status p global_id info status tx_id result s ≡ ok (info', s')
    → info.global_state ≢ success
    → info'.global_state ≡ success
    → All (λ child. child.1 ≡ success) info'.child_tx_info
      × (length info'.child_tx_info ≡ info.child_tx_count)
global_success_complete p global_id info status tx_id result s info' s' h n g =
    let (all, count) =
      go (change_multi_tx_status-Taken p global_id info status tx_id result s info' s' h) in
    (all_status-success info'.child_tx_info all, count)
  where
    agree :
        (a b a' b' : TransactionStatus) (r : IbtpType)
        → next_status a (receipt_to_event r) ≡ some a'
        → next_status b (receipt_to_event r) ≡ some b'
        → b' ≡ success
        → a' ≡ success
    agree a b a' b' r = unfold next_status receipt_to_event in ground arith

    go :
        Taken p info status tx_id result info'
        → (all_status success info'.child_tx_info ≡ true)
          × (length info'.child_tx_info ≡ info.child_tx_count)
    go (failed _ b e) = absurd (ground arith)
    go (moved s1 _ k f e) = absurd (n (ground arith))
    go (finished s1 g1 _ k l f t c e) =
        let done : s1 ≡ success = agree status info.global_state s1 g1 result k l (ground arith) in
        ground (arith, done)

-- With every other child set to BEGIN_FAILURE no child is left that has succeeded.
other_succeeded-fill :
    (tx_id : String) (v : TransactionStatus) (m : List (String × TransactionStatus))
    → other_succeeded tx_id (insert tx_id v (fill begin_failure m)) ≡ []
unfolding other_succeeded insert fill
other_succeeded-fill tx_id v [] = ground (arith, eq_iff tx_id tx_id)
other_succeeded-fill tx_id v ((k, s) ∷ m) =
    ground (arith, eq_iff k tx_id, other_succeeded-fill tx_id v m, no_success m)
  where
    no_success :
        (m : List (String × TransactionStatus)) → other_succeeded tx_id (fill begin_failure m) ≡ []
    no_success [] = refl
    no_success ((k, s) ∷ m) = ground (arith, no_success m)

multi_change-no_dst :
    (p : FsmPackage) (info : TransactionInfo) (status : TransactionStatus) (tx_id : String)
    (result : IbtpType) {info' : TransactionInfo}
    → Taken p info status tx_id result info'
    → (multi_change info.global_state info' tx_id).notify_dst_ibtp_ids ≡ []
unfolding multi_change
multi_change-no_dst p info status tx_id result (failed info' b e) =
    ground (arith, other_succeeded-fill tx_id failure info.child_tx_info)
multi_change-no_dst p info status tx_id result (moved s1 info' n f e) =
    ground (arith, kept info.global_state)
  where
    kept : (g : TransactionStatus) → (status_eq g begin && status_eq g begin_failure) ≡ false
    kept g = unfold status_eq in ground arith
multi_change-no_dst p info status tx_id result (finished s1 g1 info' n k f t c e) =
    ground (arith, over info.global_state g1 result k f)
  where
    over :
        (g g' : TransactionStatus) (r : IbtpType)
        → next_status g (receipt_to_event r) ≡ some g'
        → (status_eq g begin && is_receipt_failure r) ≡ false
        → (status_eq g begin && status_eq g' begin_failure) ≡ false
    over g g' r = unfold status_eq next_status receipt_to_event in ground arith

report_child-no_dst :
    (p : FsmPackage) (tx_id : String) (result : IbtpType) (global_id : String)
    (info : TransactionInfo) (s s' : Store) (ch : StatusChange)
    → report_child p tx_id result global_id info s ≡ (s', ok ch)
    → ch.notify_dst_ibtp_ids ≡ []
unfolding report_child
report_child-no_dst p tx_id result global_id info s s' ch h =
    elim (Option-cases (lookup tx_id info.child_tx_info)) [
      | inl e ↦ absurd (ground arith)
      | inr (status, e) ↦
          go status (change_multi_tx_status p global_id info status tx_id result s) refl
            (ground arith)
    ]
  where
    answered : Response (TransactionInfo × Store) → Store × Response StatusChange
    answered (ok (info', s1)) = (
      record s1 { global_tx_info = put s1.global_tx_info global_id info' },
      ok (multi_change info.global_state info' tx_id),
    )
    answered (err e) = (s, err e)
    answered panicked = (s, panicked)

    go :
        (status : TransactionStatus) (r : Response (TransactionInfo × Store))
        → change_multi_tx_status p global_id info status tx_id result s ≡ r
        → answered r ≡ (s', ok ch)
        → ch.notify_dst_ibtp_ids ≡ []
    go status (ok (info', s1)) e a = ground (
      arith,
      multi_change-no_dst p info status tx_id result
          (change_multi_tx_status-Taken p global_id info status tx_id result s info' s1 e),
    )
    go status (err e) q a = ground arith
    go status panicked q a = ground arith

-- The change that Report answers with, whenever it takes a receipt, lists no id to notify on a
-- destination chain.
pub report_no_dst :
    (p : FsmPackage) (c : Context) (tx_id : String) (result : IbtpType) (s s' : Store)
    (ch : StatusChange)
    → report p c tx_id result s ≡ (s', ok ch)
    → ch.notify_dst_ibtp_ids ≡ []
unfolding report report_single
report_no_dst p c tx_id result s s' ch h = elim (Option-cases (s.tx_info tx_id)) [
  | inr (r, e) ↦ ground arith
  | inl e ↦ elim (Option-cases (s.global_id tx_id)) [
    | inl k ↦ absurd (ground arith)
    | inr (gid, k) ↦ elim (Option-cases (s.global_tx_info gid)) [
      | inl l ↦ absurd (ground arith)
      | inr (info, l) ↦
          report_child-no_dst p tx_id result gid info s s' ch (unfold report in ground arith)
    ]
  ]
]
