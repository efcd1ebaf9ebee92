-- ===== src/Interchain/Handle.antt =====
-- HandleIBTP, beginTransaction and reportTransaction of internal/executor/contracts/interchain.go.
-- The transaction contract is called through the stub, so its caller is this contract.
use model_lib.Base.{
  ℕ, ◌+◌, ◌-◌, ◌%◌, ℤ, pos, negsuc, Bool, true, false, not, String, Option, none, some,
  if◌then◌else◌, str_eq, uint64_mod, length,
}
use model_lib.Protocol.{Protocol, get_ibtp_id, Ibtp, Category, request, response, unknown}
use model_lib.Transactions.Fsm.{FsmPackage}
use model_lib.Transactions.State.{Store, Context, StatusChange, Response}
use model_lib.Transactions.Begin.{begin_tx, begin_inter_bitxhub, begin_multi_txs}
use model_lib.Transactions.Report.{report}
use model_lib.Interchain.ServiceId.{ChainService, parse_chain_service}
use model_lib.Interchain.State.{
  World, Call, Peers, InterchainError, Answer, ok, err, panicked, internal_err, post_audit,
}
use model_lib.Interchain.Check.{Checked, check_ibtp}
use model_lib.Interchain.Process.{process_ibtp, notify_src_dst}

-- uint64(ibtp.TimeoutHeight)
unfoldable pub to_uint64 : ℤ → ℕ
to_uint64 (pos n) = n % uint64_mod
to_uint64 (negsuc n) = uint64_mod - (n % uint64_mod + 1)

-- What the transaction contract learns of the call.
unfoldable pub tx_context : Peers → Call → Context
tx_context e c = record {
  current_caller = e.interchain_contract_addr;
  current_height = c.current_height;
  interchain_contract_addr = e.interchain_contract_addr;
}

-- The answer of the transaction contract, with the world that its store makes.
unfoldable pub with_txs : World → Store × Response StatusChange → World × Answer StatusChange
with_txs w (s, Response.ok change) = (record w { txs = s }, ok change)
with_txs w (s, Response.err _) = (record w { txs = s }, err internal_err)
with_txs w (s, Response.panicked) = (record w { txs = s }, panicked)

abbrev pub is_failed : Option InterchainError → Bool
is_failed none = false
is_failed (some _) = true

module _ (f : FsmPackage) (p : Protocol) (e : Peers) (gen_global_tx_id : Ibtp → String) where
  -- beginTransaction. genGlobalTxID is a hash of the sender and the group, a parameter here.
  unfoldable pub begin_transaction : Call → Ibtp → Bool → World → World × Answer StatusChange
  begin_transaction c m failed w =
      let tx_id = get_ibtp_id m.sender m.receiver m.index in
      let timeout = to_uint64 m.timeout_height in
      if str_eq (p.bitxhub_of m.sender) (p.bitxhub_of m.receiver)
      then elim m.group_keys [
        | none ↦ with_txs w (begin_tx (tx_context e c) tx_id timeout failed w.txs)
        | some ks ↦ with_txs w (
            begin_multi_txs (tx_context e c) (gen_global_tx_id m) (p.id m) timeout failed
              (length ks) w.txs)
      ]
      else elim w.bitxhub_id [
        | none ↦ (w, err internal_err)
        | some own ↦ with_txs w (
            begin_inter_bitxhub f (tx_context e c) tx_id
              (if str_eq own (p.bitxhub_of m.sender) then 0 else timeout) m.proof failed w.txs)
      ]

  -- reportTransaction
  unfoldable pub report_transaction : Call → Ibtp → World → World × Answer StatusChange
  report_transaction c m w =
      with_txs w (report f (tx_context e c) (get_ibtp_id m.sender m.receiver m.index) m.kind w.txs)

  -- The call of the transaction contract. For a category that is neither, the change stays nil, and
  -- the code that follows reads it.
  unfoldable pub transact : Category → Call → Ibtp → Bool → World → World × Answer StatusChange
  transact request c m failed w = begin_transaction c m failed w
  transact response c m failed w = report_transaction c m w
  transact unknown c m failed w = (w, panicked)

  -- The audit events at the end of HandleIBTP
  unfoldable pub audit_both : Call → Ibtp → String → World → World × Answer String
  audit_both c m ret w =
      let (w1, first) = post_audit c.enable_audit m.sender w in
      let (w2, second) = post_audit c.enable_audit m.receiver w1 in
      if not first
      then (w1, err internal_err)
      else if not second
      then (w2, err internal_err)
      else (w2, ok ret)

  -- HandleIBTP behind the call of the transaction contract
  unfoldable pub handle_answered :
      Call
      → Ibtp
      → ChainService
      → ChainService
      → Checked
      → World × Answer StatusChange
      → World × Answer String
  handle_answered c m src dst k (w, err x) = (w, err x)
  handle_answered c m src dst k (w, panicked) = (w, panicked)
  handle_answered c m src dst k (w, ok change) =
      let w1 = notify_src_dst p c src dst change k.is_batch w in
      let (w2, ret) =
        process_ibtp p e c m src dst k.source (is_failed k.target_error) k.is_batch
          change.cur_status change.child_ibtp_ids w1 in
      audit_both c m ret w2

  -- HandleIBTP behind the check
  unfoldable pub handle_checked :
      Call → Ibtp → ChainService → ChainService → Checked → World → World × Answer String
  handle_checked c m src dst k w =
      handle_answered c m src dst k (transact (p.category m.kind) c m (is_failed k.target_error) w)

  -- HandleIBTP. A check that passes has parsed both ids.
  unfoldable pub handle_ibtp : Call → Ibtp → World → World × Answer String
  handle_ibtp c m w = elim (check_ibtp p e m w) [
    | err x ↦ (w, err x)
    | panicked ↦ (w, panicked)
    | ok k ↦ elim (parse_chain_service w.bitxhub_id m.sender) [
      | none ↦ (w, panicked)
      | some src ↦ elim (parse_chain_service w.bitxhub_id m.receiver) [
        | none ↦ (w, panicked)
        | some dst ↦ handle_checked c m src dst k w
      ]
    ]
  ]
