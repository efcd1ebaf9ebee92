-- ===== src/Transactions/Groups.antt =====
-- Global transactions of internal/executor/contracts/transaction_manager.go: what holds between the
-- status of the whole and those of its children.
use model_lib.Base.{
  ◌≡◌, refl, Bool, true, false, ◌&&◌, String, List, [], ◌∷◌, some, arith, sym, subst, ◌∙◌, inl, inr,
  Bool-cases, Option-cases, All, lookup, insert, fill, length,
}
use model_lib.Transactions.Status.{
  TransactionStatus, IbtpType, begin, begin_failure, begin_rollback, success, failure, rollback,
  receipt_to_event,
}
use model_lib.Transactions.Fsm.{
  FsmPackage, set_fsm, set_fsm_lem, next_status, status_eq, status_code,
}
use model_lib.Transactions.State.{TransactionInfo, Store, ok}
use model_lib.Transactions.Report.{
  is_receipt_failure, change_multi_tx_status, is_multi_tx_finished, all_status,
}

-- The statuses that a child may have under a global status.
abbrev pub fits : TransactionStatus → TransactionStatus → Bool
fits begin begin = true
fits begin success = true
fits begin_failure begin_failure = true
fits begin_failure failure = true
fits begin_rollback begin_rollback = true
fits begin_rollback rollback = true
fits success success = true
fits failure failure = true
fits rollback rollback = true
fits _ _ = false

-- Every child has a status that fits the global one.
abbrev pub AllFit : TransactionStatus → List (String × TransactionStatus) → Type 0
AllFit g m = All (λ e. fits g e.1 ≡ true) m

pub fill-AllFit :
    (g v : TransactionStatus) (m : List (String × TransactionStatus))
    → fits g v ≡ true
    → AllFit g (fill v m)
unfolding fill
fill-AllFit g v [] h = tt
fill-AllFit g v ((k, s) ∷ m) h = (h, fill-AllFit g v m h)

pub insert-AllFit :
    (g v : TransactionStatus) (k : String) (m : List (String × TransactionStatus))
    → fits g v ≡ true
    → AllFit g m
    → AllFit g (insert k v m)
unfolding insert
insert-AllFit g v k [] h a = (h, tt)
insert-AllFit g v k ((j, s) ∷ m) h a = ground (arith, insert-AllFit g v k m h a.1)

lookup-fits :
    (g s : TransactionStatus) (k : String) (m : List (String × TransactionStatus))
    → AllFit g m
    → lookup k m ≡ some s
    → fits g s ≡ true
unfolding lookup
lookup-fits g s k [] a h = cc
lookup-fits g s k ((j, r) ∷ m) a h = ground (arith, lookup-fits g s k m a.1)

all_status-AllFit :
    (s : TransactionStatus) (m : List (String × TransactionStatus))
    → fits s s ≡ true
    → all_status s m ≡ true
    → AllFit s m
unfolding all_status
all_status-AllFit s [] f h = tt
all_status-AllFit s ((k, r) ∷ m) f h = (ground arith, all_status-AllFit s m f (ground arith))

-- A receipt keeps the fit of a child's status, unless it is the failure that the whole reacts to.
step_fits :
    (g s s' : TransactionStatus) (r : IbtpType)
    → fits g s ≡ true
    → next_status s (receipt_to_event r) ≡ some s'
    → (status_eq g begin && is_receipt_failure r) ≡ false
    → fits g s' ≡ true
unfolding next_status receipt_to_event status_eq
step_fits g s s' r f h n = ground arith

-- Once all children agree with the child that has moved, the whole moves to the same status.
step_whole :
    (g g' s s' : TransactionStatus) (r : IbtpType)
    → fits g s ≡ true
    → next_status s (receipt_to_event r) ≡ some s'
    → next_status g (receipt_to_event r) ≡ some g'
    → (status_eq g begin && is_receipt_failure r) ≡ false
    → (g' ≡ s') × (fits s' s' ≡ true)
unfolding next_status receipt_to_event status_eq
step_whole g g' s s' r f h k n = ground arith

-- The info of a global transaction is consistent.
abbrev pub IsConsistent : TransactionInfo → Type 0
IsConsistent info = AllFit info.global_state info.child_tx_info

-- The three ways in which changeMultiTxStatus takes a receipt.
pub data Taken (p : FsmPackage) (info : TransactionInfo) (status : TransactionStatus)
    (tx_id : String) (result : IbtpType) : TransactionInfo → Type 0 where
  failed :
      (info' : TransactionInfo)
      → info.global_state ≡ begin
      → info' ≡ record info {
        global_state = begin_failure;
        child_tx_info = insert tx_id failure (fill begin_failure info.child_tx_info);
      }
      → Taken p info status tx_id result info'
  moved :
      (status' : TransactionStatus) (info' : TransactionInfo)
      → next_status status (receipt_to_event result) ≡ some status'
      → (status_eq info.global_state begin && is_receipt_failure result) ≡ false
      → info' ≡ record info { child_tx_info = insert tx_id status' info.child_tx_info }
      → Taken p info status tx_id result info'
  finished :
      (status' global' : TransactionStatus) (info' : TransactionInfo)
      → next_status status (receipt_to_event result) ≡ some status'
      → next_status info.global_state (receipt_to_event result) ≡ some global'
      → (status_eq info.global_state begin && is_receipt_failure result) ≡ false
      → all_status status' (insert tx_id status' info.child_tx_info) ≡ true
      → length (insert tx_id status' info.child_tx_info) ≡ info.child_tx_count
      → info' ≡ record info {
        global_state = global';
        child_tx_info = insert tx_id status' info.child_tx_info;
      }
      → Taken p info status tx_id result info'

pub change_multi_tx_status-Taken :
    (p : FsmPackage) (global_id : String) (info : TransactionInfo) (status : TransactionStatus)
    (tx_id : String) (result : IbtpType) (s : Store) (info' : TransactionInfo) (s' : Store)
    → change_multi_tx_status p global_id info status tx_id result s ≡ ok (info', s')
    → Taken p info status tx_id result info'
unfolding change_multi_tx_status status_eq
change_multi_tx_status-Taken p global_id info status tx_id result s info' s' h =
    elim (Bool-cases (status_eq info.global_state begin && is_receipt_failure result)) [
      | inl t ↦ failed info' (unfold status_code in ground arith) (ground arith)
      | inr f ↦ elim (Option-cases (set_fsm p status (receipt_to_event result))) [
        | inl e ↦ absurd (ground arith)
        | inr (s1, e) ↦
            elim (Bool-cases (
              is_multi_tx_finished s1
                (record info { child_tx_info = insert tx_id s1 info.child_tx_info }))) [
                  | inl t ↦
                      elim (Option-cases (set_fsm p info.global_state (receipt_to_event result))) [
                        | inl e' ↦ absurd (ground arith)
                        | inr (g1, e') ↦
                            finished s1 g1 info' (sym (set_fsm_lem p _ _) ∙ e)
                              (sym (set_fsm_lem p _ _) ∙ e') f (ground arith) (ground arith)
                              (ground arith)
                      ]
                  | inr n ↦ moved s1 info' (sym (set_fsm_lem p _ _) ∙ e) f (ground arith)
                ]
      ]
    ]

-- What a receipt that is taken leaves of a consistent info.
pub Taken-IsConsistent :
    (p : FsmPackage) (info : TransactionInfo) (status : TransactionStatus) (tx_id : String)
    (result : IbtpType) {info' : TransactionInfo}
    → IsConsistent info
    → lookup tx_id info.child_tx_info ≡ some status
    → Taken p info status tx_id result info'
    → IsConsistent info'
Taken-IsConsistent p info status tx_id result a l (failed info' b e) = subst IsConsistent (sym e) (
    insert-AllFit begin_failure failure tx_id _ refl
      (fill-AllFit begin_failure begin_failure _ refl))
Taken-IsConsistent p info status tx_id result a l (moved s1 info' n f e) =
    subst IsConsistent (sym e) (
      insert-AllFit info.global_state s1 tx_id _
        (step_fits info.global_state status s1 result (lookup-fits _ _ tx_id _ a l) n f) a)
Taken-IsConsistent p info status tx_id result a l (finished s1 g1 info' n k f t c e) =
    let (same, fit) =
      step_whole info.global_state g1 status s1 result (lookup-fits _ _ tx_id _ a l) n k f in
    subst IsConsistent (sym e) (
      subst (λ g. AllFit g (insert tx_id s1 info.child_tx_info)) (sym same)
        (all_status-AllFit s1 _ fit t))
