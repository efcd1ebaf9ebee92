-- ===== src/Scenarios/Messages.antt =====
-- Messages through the interchain contract.
use model_lib.Base.{
  ◌≡◌, refl, Bool, true, false, none, [], ◌∷◌, arith, text_append, decimal, lookup, if◌then◌else◌,
  str_eq,
}
use model_lib.Protocol.{Ibtp, get_ibtp_id}
use model_lib.Transactions.Begin.{begin_tx}
use model_lib.Interchain.ServiceId.{parse_chain_service}
use model_lib.Interchain.State.{
  post_audit, World, ok, err, get_interchain, ibtp_index_exist, ibtp_index_wrong,
}
use model_lib.Interchain.Check.{Checked, check_ibtp, next_index}
use model_lib.Interchain.Process.{
  process_ibtp, process_request, add_to_multi_tx_notify_map, source_chain, dest_chain,
}
use model_lib.Interchain.Handle.{
  handle_ibtp, handle_checked, handle_answered, transact, begin_transaction, with_txs, tx_context,
  audit_both,
}
use model_lib.Interchain.Replay.{handle_ibtp-counter, handle_ibtp_once}
use model_lib.Interchain.Failures.{handle_ibtp_err-unchanged}
use model_lib.Interchain.Notices.{ids_of, add_to_multi_tx_notify_map_lem}
use model_lib.Scenarios.Data.{
  split_colon, machine, library, peers, global_of, fresh, call, message, service_a, service_b,
  first_id, second_id,
}

-- The world once the message has gone through.
abbrev sent : World
sent = (handle_ibtp machine library peers global_of call message fresh).0

abbrev passed : Checked
passed = record {
  source = (get_interchain service_a fresh).0;
  is_batch = false;
  target_error = none;
}

accepted : check_ibtp library peers message fresh ≡ ok passed
unfolding check_ibtp parse_chain_service split_colon
accepted = refl

goes_through : handle_ibtp machine library peers global_of call message fresh ≡ (sent, ok "")
unfolding handle_ibtp begin_tx get_ibtp_id text_append decimal check_ibtp handle_checked
    handle_answered transact begin_transaction with_txs tx_context audit_both post_audit
    process_ibtp process_request split_colon
goes_through = refl

handle_ibtp_once_example :
    handle_ibtp machine library peers global_of call message sent ≡ (sent, err ibtp_index_exist)
unfolding split_colon
handle_ibtp_once_example =
    handle_ibtp_once machine library peers global_of call call message fresh sent passed "" refl
      refl accepted refl (omega arith) goes_through

handle_ibtp-counter_example :
    (sent.bitxhub_id ≡ fresh.bitxhub_id)
    × ((get_interchain service_a sent).0.interchain_counter service_b
        ≡ next_index ((get_interchain service_a fresh).0.interchain_counter service_b))
unfolding split_colon
handle_ibtp-counter_example =
    handle_ibtp-counter machine library peers global_of call message fresh sent "" refl refl
      goes_through

-- A message that skips four indices.
abbrev early : Ibtp
early = record message { index = 5 }

handle_ibtp_err-unchanged_example :
    (handle_ibtp machine library peers global_of call early fresh).0 ≡ fresh
unfolding handle_ibtp check_ibtp split_colon
handle_ibtp_err-unchanged_example =
    handle_ibtp_err-unchanged machine library peers global_of call early fresh ibtp_index_wrong refl
      refl

-- Two children whose destinations are of different chains: only the first chain is told.
abbrev told : Bool → World
told to_src = add_to_multi_tx_notify_map library 100 (first_id ∷ second_id ∷ []) to_src fresh

add_to_multi_tx_notify_map_lem_example :
    (ids_of (lookup "chain_c" ((told true).multi_tx_notify 100)) ≡ (
      if str_eq (source_chain library first_id) "chain_c" then first_id ∷ second_id ∷ [] else []))
    × (ids_of (lookup "chain_c" ((told false).multi_tx_notify 100)) ≡ (
        if str_eq (dest_chain library first_id) "chain_c" then first_id ∷ second_id ∷ [] else []))
unfolding lookup
add_to_multi_tx_notify_map_lem_example =
    add_to_multi_tx_notify_map_lem library 100 first_id (second_id ∷ []) "chain_c" fresh
