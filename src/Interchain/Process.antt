-- ===== src/Interchain/Process.antt =====
-- ProcessIBTP and notifySrcDst, with what they call, of internal/executor/contracts/interchain.go.
use model_lib.Base.{
  ℕ, Bool, true, false, not, ◌&&◌, ◌||◌, String, List, [], ◌∷◌, ◌++◌, map, Option, none, some,
  if◌then◌else◌, str_eq, put, insert, lookup, ◌==◌,
}
use model_lib.Protocol.{Protocol, get_ibtp_id, Ibtp, Category, request}
use model_lib.Transactions.Status.{TransactionStatus, failure}
use model_lib.Transactions.Fsm.{status_eq}
use model_lib.Transactions.Report.{is_receipt_failure}
use model_lib.Transactions.State.{StatusChange}
use model_lib.Interchain.ServiceId.{ChainService}
use model_lib.Interchain.State.{
  Interchain, World, Call, Peers, get_interchain, set_interchain, count_set,
}
use model_lib.Interchain.Check.{check_tx_status_for_source_bxh, next_index}

-- setDestInterchain: the receipt counters of both services
unfoldable pub set_dest_interchain : String → String → ℕ → Interchain → World → World
unfolding get_interchain set_interchain
set_dest_interchain sender receiver index ic w =
    let w1 =
      set_interchain sender
        (record ic { receipt_counter = count_set ic.receipt_counter receiver index }) w in
    let dst = (get_interchain receiver w1).0 in
    set_interchain receiver
      (record dst { source_receipt_counter = count_set dst.source_receipt_counter sender index }) w1

-- recordService
unfoldable pub record_service : String → String → Bool → World → World
record_service sender receiver result w = record w {
  recorded = (receiver, sender, result) ∷ w.recorded;
}

-- The part of ProcessIBTP for a request: the counter of the pair goes up by one. A message to a
-- service of the bitxhub itself is handed on, and the result of that is the answer.
unfoldable pub process_request :
    Peers → Call → Ibtp → ChainService → Interchain → World → World × Option String
unfolding get_interchain set_interchain get_ibtp_id
process_request e c m dst ic w =
    let w1 =
      set_interchain m.sender
        (record ic {
          interchain_counter =
              count_set ic.interchain_counter m.receiver
                (next_index (ic.interchain_counter m.receiver));
        })
        w in
    let w2 = record w1 {
      index_map = put w1.index_map (get_ibtp_id m.sender m.receiver m.index) c.tx_hash;
    } in
    let other = (get_interchain m.receiver w2).0 in
    if str_eq dst.chain_id dst.bxh_id then (w2, some (e.invoke_interchain m)) else (
      set_interchain m.receiver
          (record other {
            source_interchain_counter = count_set other.source_interchain_counter m.sender m.index;
          })
          w2,
      none,
    )

-- addToMultiTxNotifyMap's append to one chain's list
unfoldable pub note_ids :
    String → List String → List (String × List String) → List (String × List String)
unfolding insert lookup
note_ids chain ids m = elim (lookup chain m) [
  | none ↦ insert chain ids m
  | some old ↦ insert chain (old ++ ids) m
]

unfoldable pub set_notify : ℕ → List (String × List String) → World → World
set_notify height m w = record w {
  multi_tx_notify = λ h. if height == h then m else w.multi_tx_notify h;
}

-- DEFAULT_UNION_PIER_ID
abbrev pub default_union_pier_id : String
default_union_pier_id = "default_union_pier_id"

-- m[chain] = wrapper, on the keys of the map
unfoldable pub add_chain : String → List String → List String
add_chain chain [] = chain ∷ []
add_chain chain (x ∷ xs) = if str_eq x chain then x ∷ xs else x ∷ add_chain chain xs

module _ (p : Protocol) where
  -- pb.ParseIBTPID and pb.ParseFullServiceID: the chain of an id's source, and of its destination;
  -- what does not parse is empty.
  unfoldable pub source_chain : String → String
  source_chain id = elim (p.parse_ibtp_id id) [
    | none ↦ chain_of ""
    | some (sender, _, _) ↦ chain_of sender
  ]
    where
      chain_of : String → String
      chain_of full = elim (p.parse_full_service_id full) [ none ↦ "" | some (_, chain, _) ↦ chain ]

  unfoldable pub dest_chain : String → String
  dest_chain id = elim (p.parse_ibtp_id id) [
    | none ↦ chain_of ""
    | some (_, receiver, _) ↦ chain_of receiver
  ]
    where
      chain_of : String → String
      chain_of full = elim (p.parse_full_service_id full) [ none ↦ "" | some (_, chain, _) ↦ chain ]

  -- The loop of addToMultiTxNotifyMap for destinations: each round reads the chain of the first id.
  unfoldable pub note_each :
      String → List String → List (String × List String) → List (String × List String)
  unfolding note_ids dest_chain
  note_each first [] m = m
  note_each first (id ∷ ids) m = note_each first ids (note_ids (dest_chain first) (id ∷ []) m)

  -- addToMultiTxNotifyMap
  unfoldable pub add_to_multi_tx_notify_map : ℕ → List String → Bool → World → World
  unfolding note_ids note_each source_chain set_notify
  add_to_multi_tx_notify_map height [] to_src w = w
  add_to_multi_tx_notify_map height (id ∷ ids) to_src w =
      set_notify height
        (if to_src
          then note_ids (source_chain id) (id ∷ ids) (w.multi_tx_notify height)
          else note_each id (id ∷ ids) (w.multi_tx_notify height))
        w

  -- handleMultiIbtpInterchain; false for its error, with what the rounds before have written
  unfoldable pub handle_multi :
      List String → ChainService → Ibtp → TransactionStatus → World → World × Bool
  unfolding set_dest_interchain get_interchain record_service status_eq
  handle_multi [] src m state w = (w, true)
  handle_multi (id ∷ ids) src m state w = elim (p.parse_ibtp_id id) [
    | none ↦ (w, false)
    | some (sender, receiver, index) ↦
        let w1 = set_dest_interchain sender receiver index (get_interchain sender w).0 w in
        let w2 =
          if str_eq src.chain_id src.bxh_id
          then record w1 { receipts_invoked = m ∷ w1.receipts_invoked }
          else w1 in
        handle_multi ids src m state
          (record_service sender receiver (not (status_eq state failure)) w2)
  ]

  -- The part of ProcessIBTP for a receipt or a notification; false where the answer is nil at once
  unfoldable pub process_receipt :
      Call
      → Ibtp
      → ChainService
      → Interchain
      → Bool
      → TransactionStatus
      → List String
      → World
      → World × Bool
  unfolding set_dest_interchain record_service handle_multi get_ibtp_id
  process_receipt c m src ic notification state child_ids w =
      let (w1, done) =
        (if p.is_final_status state
          then elim child_ids [
            | [] ↦ (
              record_service m.sender m.receiver (not (is_receipt_failure m.kind || notification))
                  (set_dest_interchain m.sender m.receiver m.index ic w),
              true,
            )
            | id ∷ ids ↦ handle_multi (id ∷ ids) src m state w
          ]
          else (w, true)) in
      if done
      then (
        record w1 {
          index_receipt_map =
              put w1.index_receipt_map (get_ibtp_id m.sender m.receiver m.index) c.tx_hash;
        },
        true,
      )
      else (w1, false)

  abbrev is_request : Category → Bool
  is_request request = true
  is_request _ = false

  -- The last lines of ProcessIBTP; the empty text is nil
  unfoldable pub batch_ret : Bool → Bool → String
  batch_ret is_batch is_target_fail =
      if is_batch then "batch_ibtp" else if is_target_fail then "begin_failure" else ""

  -- ProcessIBTP. The errors of checkTxStatusForSourceBxh are ignored, and it is false then.
  unfoldable pub process_ibtp :
      Peers
      → Call
      → Ibtp
      → ChainService
      → ChainService
      → Interchain
      → Bool
      → Bool
      → TransactionStatus
      → List String
      → World
      → World × String
  unfolding batch_ret
  process_ibtp e c m src dst ic is_target_fail is_batch state child_ids w =
      let notification : Bool = elim (check_tx_status_for_source_bxh p m w) [
        | none ↦ false
        | some b ↦ b
      ] in
      if is_request (p.category m.kind) && not notification
      then (let (w1, ret) = process_request e c m dst ic w in
          elim ret [ some r ↦ (w1, r) | none ↦ (w1, batch_ret is_batch is_target_fail) ])
      else (let (w1, go_on) = process_receipt c m src ic notification state child_ids w in
          (w1, if go_on then batch_ret is_batch is_target_fail else ""))

  -- The writes of notifySrcDst to the map of the children to notify
  unfoldable pub notify_children : Call → ChainService → ChainService → StatusChange → World → World
  unfolding add_to_multi_tx_notify_map
  notify_children c src dst change w =
      let (notify_src, notify_dst) = p.notify_flags change in
      let w1 =
        if notify_src && src.is_local
        then add_to_multi_tx_notify_map c.current_height change.notify_src_ibtp_ids true w
        else w in
      if notify_dst && dst.is_local
      then add_to_multi_tx_notify_map c.current_height change.notify_dst_ibtp_ids false w1
      else w1

  -- The chains of the map that notifySrcDst posts, each once
  unfoldable pub notified_chains : ChainService → ChainService → StatusChange → List String
  unfolding add_chain
  notified_chains src dst change =
      let (notify_src, notify_dst) = p.notify_flags change in
      let chains =
        if notify_src
        then (if src.is_local then src.chain_id else default_union_pier_id) ∷ []
        else [] in
      if not notify_dst
      then chains
      else if not dst.is_local
      then add_chain default_union_pier_id chains
      else if change.is_fail_child_ibtp
      then chains
      else add_chain dst.chain_id chains

  -- notifySrcDst
  unfoldable pub notify_src_dst :
      Call → ChainService → ChainService → StatusChange → Bool → World → World
  notify_src_dst c src dst change is_batch w =
      let w1 = notify_children c src dst change w in
      record w1 {
        posted =
            map (λ chain. record { chain = chain; is_batch = is_batch; tx_index = c.tx_index })
              (notified_chains src dst change)
            ∷ w1.posted;
      }
