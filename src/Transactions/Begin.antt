-- ===== src/Transactions/Begin.antt =====
-- The handlers that begin a transaction: Begin, BeginInterBitXHub and BeginMultiTXs of
-- internal/executor/contracts/transaction_manager.go, with the timeout lists that they write.
use model_lib.Base.{
  ℕ, ◌+◌, ◌-◌, ◌%◌, Bool, true, false, ◌||◌, String, List, [], ◌∷◌, ◌++◌, Option, none, some, leb,
  ◌==◌, if◌then◌else◌, str_eq, max_uint64, uint64_mod, put, lookup, insert, fill, keys,
}
use model_lib.TimeoutList.{remove_id}
use model_lib.Transactions.Status.{
  TransactionStatus, begin, begin_failure, success, tx_status_to_event,
}
use model_lib.Transactions.Fsm.{FsmPackage, set_fsm, status_eq}
use model_lib.Transactions.State.{
  TransactionRecord, TransactionInfo, Store, Context, StatusChange, Response, ok, err, panicked,
  no_permission, state_err, existent_child_tx,
}

-- checkCurrentCaller: whether the caller is refused
unfoldable pub check_current_caller : Context → Bool
check_current_caller c = elim (str_eq c.current_caller c.interchain_contract_addr) [
  | true ↦ false
  | false ↦ true
]

-- The height that the three handlers store: the sum of uint64s, or the largest uint64 where no
-- timeout is asked for or the sum does not fit.
unfoldable pub timeout_at : ℕ → ℕ → ℕ
timeout_at current timeout =
    if timeout == 0 || leb (max_uint64 - current) timeout
    then max_uint64
    else (current + timeout) % uint64_mod

-- addToTimeoutList
unfoldable pub add_to_timeout_list : ℕ → String → Store → Store
add_to_timeout_list height id s = record s {
  timeout = λ h.
      if height == h
      then some (elim (s.timeout height) [ none ↦ id ∷ [] | some fields ↦ fields ++ id ∷ [] ])
      else s.timeout h;
}

-- removeFromTimeoutList; none where the loop panics
unfoldable pub remove_from_timeout_list : ℕ → String → Store → Option Store
remove_from_timeout_list height id s = elim (s.timeout height) [
  | none ↦ some s
  | some fields ↦ elim (remove_id id fields) [
    | none ↦ none
    | some left ↦ some (record s { timeout = λ h. if height == h then some left else s.timeout h })
  ]
]

abbrev pub new_change : TransactionStatus → StatusChange
new_change s = record {
  prev_status = none;
  cur_status = s;
  notify_src_ibtp_ids = [];
  notify_dst_ibtp_ids = [];
  child_ibtp_ids = [];
  is_fail_child_ibtp = false;
}

-- The record that Begin and BeginInterBitXHub store for a new transaction.
unfoldable pub new_record : Context → ℕ → Bool → TransactionRecord
unfolding timeout_at
new_record c timeout_height is_failed = record {
  status = if is_failed then begin_failure else begin;
  height = timeout_at c.current_height timeout_height;
}

-- Begin
unfoldable pub begin_tx : Context → String → ℕ → Bool → Store → Store × Response StatusChange
unfolding check_current_caller new_record
begin_tx c tx_id timeout_height is_failed s =
    if check_current_caller c then (s, err no_permission) else (
      record s { tx_info = put s.tx_info tx_id (new_record c timeout_height is_failed) },
      ok (new_change (new_record c timeout_height is_failed).status),
    )

-- BeginInterBitXHub. `proof` is the TxStatus of the proof's bytes, none where they are no proof. The
-- branch of a known transaction starts from a new record: the stored one is not decoded.
unfoldable pub begin_inter_bitxhub :
    FsmPackage
    → Context
    → String
    → ℕ
    → Option TransactionStatus
    → Bool
    → Store
    → Store × Response StatusChange
unfolding check_current_caller new_record
begin_inter_bitxhub p c tx_id timeout_height proof is_failed s =
    if check_current_caller c then (s, err no_permission) else elim (s.tx_info tx_id) [
      | some _ ↦ elim proof [
        | none ↦ (s, err state_err)
        | some tx_status ↦ elim (set_fsm p begin (tx_status_to_event tx_status)) [
          | none ↦ (s, err state_err)
          | some status ↦ (
            record s { tx_info = put s.tx_info tx_id (record { status = status; height = 0 }) },
            ok (record (new_change status) { prev_status = some begin }),
          )
        ]
      ]
      | none ↦ (
        record s { tx_info = put s.tx_info tx_id (new_record c timeout_height is_failed) },
        ok (new_change (new_record c timeout_height is_failed).status),
      )
    ]

-- The ids whose status is SUCCESS, in the order of the iteration.
unfoldable pub succeeded : List (String × TransactionStatus) → List String
succeeded [] = []
succeeded ((id, s) ∷ m) = if status_eq s success then id ∷ succeeded m else succeeded m

-- The first child of a global transaction.
unfoldable pub new_info : Context → String → ℕ → Bool → ℕ → TransactionInfo
unfolding timeout_at
new_info c ibtp_id timeout_height is_failed count = record {
  global_state = if is_failed then begin_failure else begin;
  height = timeout_at c.current_height timeout_height;
  child_tx_info = (ibtp_id, if is_failed then begin_failure else begin) ∷ [];
  child_tx_count = count;
}

-- The end of BeginMultiTXs: the info and the global id are stored, and the change is completed.
unfoldable pub store_multi :
    String
    → String
    → TransactionInfo
    → TransactionStatus
    → List String
    → List String
    → Store
    → Store × Response StatusChange
store_multi global_id ibtp_id info status notify_src notify_dst s = (
  record s {
    global_tx_info = put s.global_tx_info global_id info;
    global_id = put s.global_id ibtp_id global_id;
  },
  ok (record (new_change status) {
    notify_src_ibtp_ids = notify_src;
    notify_dst_ibtp_ids = notify_dst;
    child_ibtp_ids = keys info.child_tx_info;
  }),
)

-- A further child of a global transaction that is stored.
unfoldable pub begin_child :
    String → String → Bool → TransactionInfo → Store → Store × Response StatusChange
unfolding store_multi succeeded fill insert remove_from_timeout_list
begin_child global_id ibtp_id is_failed info s =
    if status_eq info.global_state begin
    then (if is_failed
        then elim (remove_from_timeout_list info.height global_id s) [
          | none ↦ (s, panicked)
          | some s' ↦
              store_multi global_id ibtp_id
                (record info {
                  global_state = begin_failure;
                  child_tx_info =
                      insert ibtp_id begin_failure (fill begin_failure info.child_tx_info);
                })
                begin_failure (keys info.child_tx_info) (succeeded info.child_tx_info) s'
        ]
        else store_multi global_id ibtp_id
            (record info { child_tx_info = insert ibtp_id begin info.child_tx_info }) begin [] [] s)
    else store_multi global_id ibtp_id
        (record info { child_tx_info = insert ibtp_id info.global_state info.child_tx_info })
        info.global_state [] [] s

-- BeginMultiTXs
unfoldable pub begin_multi_txs :
    Context → String → String → ℕ → Bool → ℕ → Store → Store × Response StatusChange
unfolding check_current_caller new_info store_multi add_to_timeout_list begin_child lookup
begin_multi_txs c global_id ibtp_id timeout_height is_failed count s =
    if check_current_caller c then (s, err no_permission) else elim (s.global_tx_info global_id) [
      | none ↦
          let info = new_info c ibtp_id timeout_height is_failed count in
          store_multi global_id ibtp_id info info.global_state [] []
            (if is_failed then s else add_to_timeout_list info.height global_id s)
      | some info ↦ elim (lookup ibtp_id info.child_tx_info) [
        | some _ ↦ (s, err existent_child_tx)
        | none ↦ begin_child global_id ibtp_id is_failed info s
      ]
    ]
