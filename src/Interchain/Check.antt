-- ===== src/Interchain/Check.antt =====
-- checkIBTP and the checks that it calls, of internal/executor/contracts/interchain.go. The texts of
-- the errors are not modelled.
use model_lib.Base.{
  ℕ, ◌+◌, ◌%◌, Bool, true, false, not, String, Option, none, some, ltb, if◌then◌else◌, str_eq,
  uint64_mod,
}
use model_lib.Protocol.{Protocol, Ibtp, Category, request, response, unknown}
use model_lib.Transactions.Status.{IbtpType, interchain, begin_failure, begin_rollback}
use model_lib.Interchain.ServiceId.{
  ChainService, parse_chain_service, get_full_service_id, get_chain_service_id,
}
use model_lib.Interchain.State.{
  Interchain, World, Service, Peers, InterchainError, Answer, ok, err, panicked, parse_source_error,
  parse_dest_error, internal_err, source_service_not_available, source_bitxhub_not_available,
  not_in_cur_bxh, ibtp_index_exist, ibtp_index_wrong, illegal_type, target_service_not_available,
  target_service_no_permission, target_bitxhub_not_available, get_interchain,
}

-- checkIndex; none for no error
unfoldable pub check_index : ℕ → ℕ → Option InterchainError
check_index exp cur =
    if ltb cur exp
    then some ibtp_index_exist
    else if ltb exp cur
    then some ibtp_index_wrong
    else none

-- The index that is expected next: a uint64 counter plus one.
abbrev pub next_index : ℕ → ℕ
next_index n = (n + 1) % uint64_mod

-- What checkIBTP returns where it refuses nothing.
pub record Checked : Type 0 where
  pub source : Interchain
  pub is_batch : Bool
  pub target_error : Option InterchainError

-- getServiceByID; none for its error, with which no service is returned
unfoldable pub get_service_by_id : Peers → String → Option Service
get_service_by_id e id = elim (e.service_cache id) [
  | some v ↦ some v
  | none ↦ e.get_service_info id
]

-- checkServiceAvailability, of which checkSourceAvailability keeps the error
unfoldable pub check_source_availability : Peers → ChainService → Option InterchainError
unfolding get_service_by_id get_chain_service_id
check_source_availability e src = elim (get_service_by_id e (get_chain_service_id src)) [
  | none ↦ some source_service_not_available
  | some v ↦ if v.is_available then none else some source_service_not_available
]

abbrev is_interchain : IbtpType → Bool
is_interchain interchain = true
is_interchain _ = false

-- checkTargetAvailability: whether the destination takes batches, and its error
unfoldable pub check_target_availability :
    Peers → ChainService → ChainService → IbtpType → Bool × Option InterchainError
unfolding get_service_by_id get_chain_service_id get_full_service_id
check_target_availability e src dst kind =
    if is_interchain kind
    then (if dst.is_local
        then (if str_eq dst.chain_id dst.bxh_id
            then (false, none)
            else elim (get_service_by_id e (get_chain_service_id dst)) [
              | none ↦ (false, some target_service_not_available)
              | some v ↦
                  if not v.is_available
                  then (false, some target_service_not_available)
                  else if not (v.check_permission (get_full_service_id src))
                  then (false, some target_service_no_permission)
                  else (not v.ordered, none)
            ])
        else (if e.is_available_bitxhub dst.bxh_id
            then (false, none)
            else (false, some target_bitxhub_not_available)))
    else (false, none)

-- The check of the index, where the destination takes no batches.
unfoldable pub check_order : Bool → ℕ → ℕ → Option InterchainError
unfolding check_index
check_order is_batch exp cur = if is_batch then none else check_index exp cur

abbrev pub refuse_or {ℓ} : {A : Type ℓ} → Option InterchainError → A → Answer A
refuse_or none a = ok a
refuse_or (some x) a = err x

module _ (p : Protocol) where
  -- checkTxStatusForSourceBxh; none for its error
  unfoldable pub check_tx_status_for_source_bxh : Ibtp → World → Option Bool
  check_tx_status_for_source_bxh m w =
      if str_eq (p.bitxhub_of m.sender) (p.bitxhub_of m.receiver)
      then some false
      else elim (p.category m.kind) [
        | response ↦ some false
        | _ ↦ elim (w.index_map (p.id m)) [
          | none ↦ some false
          | some _ ↦ elim m.proof [
            | none ↦ none
            | some begin_failure ↦ some true
            | some begin_rollback ↦ some true
            | some _ ↦ some false
          ]
        ]
      ]

module _ (p : Protocol) (e : Peers) where
  -- checkIBTP for a request that is no notification
  unfoldable pub check_request : Ibtp → ChainService → ChainService → Interchain → Answer Checked
  unfolding check_source_availability check_target_availability check_order get_full_service_id
  check_request m src dst ic =
      let (is_batch, target_error) = check_target_availability e src dst m.kind in
      let ordered =
        check_order is_batch (next_index (ic.interchain_counter (get_full_service_id dst)))
          m.index in
      let accepted : Answer Checked =
        refuse_or ordered
          (record { source = ic; is_batch = is_batch; target_error = target_error }) in
      if src.is_local
      then elim (check_source_availability e src) [ some x ↦ err x | none ↦ accepted ]
      else if not dst.is_local
      then err not_in_cur_bxh
      else if not (e.is_available_bitxhub src.bxh_id)
      then err source_bitxhub_not_available
      else accepted

  -- checkIBTP for a receipt or a notification. A local source whose service is not found is a nil
  -- pointer, which the code reads.
  unfoldable pub check_response : Ibtp → ChainService → ChainService → Interchain → Answer Checked
  unfolding get_service_by_id get_chain_service_id get_full_service_id check_index
  check_response m src dst ic =
      let ordered =
        check_index (next_index (ic.receipt_counter (get_full_service_id dst))) m.index in
      if src.is_local
      then elim (get_service_by_id e (get_chain_service_id src)) [
        | none ↦ panicked
        | some v ↦
            refuse_or ordered
              (record { source = ic; is_batch = not v.ordered; target_error = none })
      ]
      else if not dst.is_local
      then err not_in_cur_bxh
      else refuse_or ordered (record { source = ic; is_batch = false; target_error = none })

  -- checkIBTP by the category of the message and whether it is a notification
  unfoldable pub check_by :
      Category → Bool → Ibtp → ChainService → ChainService → Interchain → Answer Checked
  unfolding check_request check_response
  check_by request false m src dst ic = check_request m src dst ic
  check_by request true m src dst ic = check_response m src dst ic
  check_by response notification m src dst ic = check_response m src dst ic
  check_by unknown false m src dst ic = err illegal_type
  check_by unknown true m src dst ic = check_response m src dst ic

  -- checkIBTP
  unfoldable pub check_ibtp : Ibtp → World → Answer Checked
  unfolding parse_chain_service get_interchain get_full_service_id check_tx_status_for_source_bxh
      check_by
  check_ibtp m w = elim (parse_chain_service w.bitxhub_id m.sender) [
    | none ↦ err parse_source_error
    | some src ↦ elim (parse_chain_service w.bitxhub_id m.receiver) [
      | none ↦ err parse_dest_error
      | some dst ↦ elim (check_tx_status_for_source_bxh p m w) [
        | none ↦ err internal_err
        | some notification ↦
            check_by (p.category m.kind) notification m src dst
              (get_interchain (get_full_service_id src) w).0
      ]
    ]
  ]
