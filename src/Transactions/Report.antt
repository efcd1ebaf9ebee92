-- ===== src/Transactions/Report.antt =====
-- Report, changeMultiTxStatus, isMultiTxFinished and GetStatus of
-- internal/executor/contracts/transaction_manager.go. The error text of a refused receipt is not
-- modelled.
use model_lib.Base.{
  ℕ, Bool, true, false, ◌&&◌, not, String, List, [], ◌∷◌, none, some, ◌==◌, ltb, if◌then◌else◌,
  str_eq, put, lookup, insert, fill, keys, length,
}
use Prim.Native.Char.{code}
use model_lib.Transactions.Status.{
  TransactionStatus, IbtpType, begin, begin_failure, success, failure, receipt_failure,
  receipt_to_event,
}
use model_lib.Transactions.Fsm.{FsmPackage, set_fsm, status_eq, status_code}
use model_lib.Transactions.State.{
  TransactionRecord, TransactionInfo, Store, Context, StatusChange, Response, ok, err, panicked,
  no_permission, internal_err, state_err, nonexistent_tx, nonexistent_global_tx,
  nonexistent_global_id,
}
use model_lib.Transactions.Begin.{check_current_caller, remove_from_timeout_list, new_change}

-- The order of texts that sort.Strings uses: by code points, which is by bytes of UTF-8.
unfoldable pub text_leb : String → String → Bool
text_leb String.[] t = true
text_leb (String.◌∷◌ c s) String.[] = false
text_leb (String.◌∷◌ c s) (String.◌∷◌ d t) =
    if code c == code d then text_leb s t else ltb (code c) (code d)

unfoldable pub insert_sorted : String → List String → List String
unfolding text_leb
insert_sorted x [] = x ∷ []
insert_sorted x (y ∷ ys) = if text_leb x y then x ∷ y ∷ ys else y ∷ insert_sorted x ys

-- sort.Strings
unfoldable pub sort_strings : List String → List String
unfolding insert_sorted
sort_strings [] = []
sort_strings (x ∷ xs) = insert_sorted x (sort_strings xs)

-- isMultiTxFinished: every child has the status, and the children are as many as announced
unfoldable pub all_status : TransactionStatus → List (String × TransactionStatus) → Bool
unfolding status_eq
all_status s [] = true
all_status s ((k, r) ∷ m) = status_eq r s && all_status s m

unfoldable pub is_multi_tx_finished : TransactionStatus → TransactionInfo → Bool
unfolding all_status
is_multi_tx_finished s info =
    all_status s info.child_tx_info && (length info.child_tx_info == info.child_tx_count)

abbrev pub is_receipt_failure : IbtpType → Bool
is_receipt_failure receipt_failure = true
is_receipt_failure _ = false

-- changeMultiTxStatus: the new info and the store with the new timeout list
unfoldable pub change_multi_tx_status :
    FsmPackage
    → String
    → TransactionInfo
    → TransactionStatus
    → String
    → IbtpType
    → Store
    → Response (TransactionInfo × Store)
unfolding is_multi_tx_finished status_eq
change_multi_tx_status p global_id info status tx_id result s =
    if status_eq info.global_state begin && is_receipt_failure result
    then elim (remove_from_timeout_list info.height global_id s) [
      | none ↦ panicked
      | some s' ↦ ok (
        record info {
          global_state = begin_failure;
          child_tx_info = insert tx_id failure (fill begin_failure info.child_tx_info);
        },
        s',
      )
    ]
    else elim (set_fsm p status (receipt_to_event result)) [
      | none ↦ err state_err
      | some status' ↦
          let info' = record info { child_tx_info = insert tx_id status' info.child_tx_info } in
          if is_multi_tx_finished status' info'
          then elim (set_fsm p info.global_state (receipt_to_event result)) [
            | none ↦ err state_err
            | some global' ↦ elim (remove_from_timeout_list info.height global_id s) [
              | none ↦ panicked
              | some s' ↦ ok (record info' { global_state = global' }, s')
            ]
          ]
          else ok (info', s)
    ]

-- The ids but one: the children that the change notifies on the source chain.
unfoldable pub others : String → List (String × TransactionStatus) → List String
others tx_id [] = []
others tx_id ((id, s) ∷ m) = if str_eq id tx_id then others tx_id m else id ∷ others tx_id m

-- The ids but one whose status is SUCCESS.
unfoldable pub other_succeeded : String → List (String × TransactionStatus) → List String
unfolding status_eq
other_succeeded tx_id [] = []
other_succeeded tx_id ((id, s) ∷ m) =
    if not (str_eq id tx_id) && status_eq s success
    then id ∷ other_succeeded tx_id m
    else other_succeeded tx_id m

-- The change that Report answers with for a child of a global transaction.
unfoldable pub multi_change : TransactionStatus → TransactionInfo → String → StatusChange
unfolding sort_strings others other_succeeded status_eq
multi_change prev info tx_id =
    let failed = status_eq prev begin && status_eq info.global_state begin_failure in
    record {
      prev_status = some prev;
      cur_status = info.global_state;
      notify_src_ibtp_ids = others tx_id info.child_tx_info;
      notify_dst_ibtp_ids = if failed then other_succeeded tx_id info.child_tx_info else [];
      child_ibtp_ids = sort_strings (keys info.child_tx_info);
      is_fail_child_ibtp = failed && ltb 0 (length (others tx_id info.child_tx_info));
    }

-- Report of a transaction with a record of its own
unfoldable pub report_single :
    FsmPackage → String → IbtpType → TransactionRecord → Store → Store × Response StatusChange
report_single p tx_id result r s = elim (set_fsm p r.status (receipt_to_event result)) [
  | none ↦ (s, err state_err)
  | some status ↦ (
    record s { tx_info = put s.tx_info tx_id (record r { status = status }) },
    ok (record (new_change status) { prev_status = some r.status }),
  )
]

-- Report of a child of the global transaction `global_id`
unfoldable pub report_child :
    FsmPackage
    → String
    → IbtpType
    → String
    → TransactionInfo
    → Store
    → Store × Response StatusChange
unfolding change_multi_tx_status multi_change lookup
report_child p tx_id result global_id info s = elim (lookup tx_id info.child_tx_info) [
  | none ↦ (s, err internal_err)
  | some status ↦ elim (change_multi_tx_status p global_id info status tx_id result s) [
    | err e ↦ (s, err e)
    | panicked ↦ (s, panicked)
    | ok (info', s') ↦ (
      record s' { global_tx_info = put s'.global_tx_info global_id info' },
      ok (multi_change info.global_state info' tx_id),
    )
  ]
]

-- Report
unfoldable pub report :
    FsmPackage → Context → String → IbtpType → Store → Store × Response StatusChange
unfolding check_current_caller report_single report_child
report p c tx_id result s =
    if check_current_caller c then (s, err no_permission) else elim (s.tx_info tx_id) [
      | some r ↦ report_single p tx_id result r s
      | none ↦ elim (s.global_id tx_id) [
        | none ↦ (s, err nonexistent_tx)
        | some global_id ↦ elim (s.global_tx_info global_id) [
          | none ↦ (s, err nonexistent_global_tx)
          | some info ↦ report_child p tx_id result global_id info s
        ]
      ]
    ]

-- GetStatus: the number of the status
unfoldable pub get_status : String → Store → Response ℕ
unfolding status_code
get_status tx_id s = elim (s.tx_info tx_id) [
  | some r ↦ ok (status_code r.status)
  | none ↦ elim (s.global_tx_info tx_id) [
    | some info ↦ ok (status_code info.global_state)
    | none ↦ elim (s.global_id tx_id) [
      | none ↦ err nonexistent_global_id
      | some global_id ↦ elim (s.global_tx_info global_id) [
        | none ↦ err nonexistent_global_tx
        | some info ↦ ok (status_code info.global_state)
      ]
    ]
  ]
]
