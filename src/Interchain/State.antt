-- ===== src/Interchain/State.antt =====
-- The state of the interchain contract, what it calls of other contracts, and its errors.
use model_lib.Base.{
  ℕ, String, Bool, true, false, List, ◌∷◌, Option, none, some, if◌then◌else◌, str_eq, put, delete,
  text_append,
}
use model_lib.Interchain.ServiceId.{parse_chain_service}
use model_lib.Protocol.{Ibtp}
use model_lib.Transactions.State.{Store}

-- pb.Interchain; a missing key of a counter reads as 0, as in a map of Go.
pub record Interchain : Type 0 where
  pub id : String
  pub interchain_counter : String → ℕ
  pub receipt_counter : String → ℕ
  pub source_interchain_counter : String → ℕ
  pub source_receipt_counter : String → ℕ

-- The wrapper of an interchain event, with the chain that it is for.
pub record Notice : Type 0 where
  pub chain : String
  pub is_batch : Bool
  pub tx_index : ℕ

-- The contract's own keys by their families, the store of the transaction contract that it calls,
-- and what it hands to the other contracts and to the event feed, in order.
pub record World : Type 0 where
  pub bitxhub_id : Option String  -- BitXHubID
  pub interchains : String → Option Interchain  -- serviceKey
  pub index_map : String → Option String  -- IndexMapKey: the hash of a transaction
  pub index_receipt_map : String → Option String  -- IndexReceiptMapKey
  pub multi_tx_notify : ℕ → List (String × List String)  -- MultiTxNotifyKey; [] where there is none
  pub txs : Store
  pub recorded : List (String × String × Bool)  -- RecordInvokeService: to, from, result
  pub receipts_invoked : List Ibtp  -- InvokeReceipt
  pub posted : List (List Notice)  -- PostInterchainEvent
  pub audited : List String  -- PostEvent of an audit event: the id of the service

-- The call: the height, the hash and the index of the transaction.
pub record Call : Type 0 where
  pub current_height : ℕ
  pub tx_hash : String
  pub tx_index : ℕ
  pub enable_audit : Bool

-- service_mgr.Service, as far as the contract reads it
pub record Service : Type 0 where
  pub is_available : Bool
  pub ordered : Bool
  pub check_permission : String → Bool

-- The other contracts: the cache of services and GetServiceInfo of the service manager,
-- IsAvailableBitxhub of the appchain manager, InvokeInterchain of the inter-broker, and the address
-- of this contract.
pub record Peers : Type 0 where
  pub service_cache : String → Option Service
  pub get_service_info : String → Option Service
  pub is_available_bitxhub : String → Bool
  pub invoke_interchain : Ibtp → String
  pub interchain_contract_addr : String

-- The codes of boltvm.BxhError that the contract answers with.
pub data InterchainError : Type 0 where
  parse_source_error parse_dest_error internal_err source_service_not_available : InterchainError
  source_bitxhub_not_available not_in_cur_bxh ibtp_index_exist ibtp_index_wrong : InterchainError
  illegal_type target_service_not_available target_service_no_permission : InterchainError
  target_bitxhub_not_available : InterchainError

-- A result, an error, or a panic of the contract.
pub data Answer {ℓ} (A : Type ℓ) : Type ℓ where
  ok : A → Answer A
  err : InterchainError → Answer A
  panicked : Answer A

-- m[k] = v
abbrev pub count_set : (String → ℕ) → String → ℕ → String → ℕ
count_set m k v j = if str_eq k j then v else m j

-- The interchain of an id with no messages yet.
unfoldable pub new_interchain : String → Interchain
new_interchain id = record {
  id = id;
  interchain_counter = λ k. 0;
  receipt_counter = λ k. 0;
  source_interchain_counter = λ k. 0;
  source_receipt_counter = λ k. 0;
}

-- getInterchain
unfoldable pub get_interchain : String → World → Interchain × Bool
unfolding new_interchain
get_interchain id w = elim (w.interchains id) [
  | none ↦ (new_interchain id, false)
  | some ic ↦ (ic, true)
]

-- setInterchain
unfoldable pub set_interchain : String → Interchain → World → World
set_interchain id ic w = record w { interchains = put w.interchains id ic }

-- postAuditInterchainEvent, with the audit's switch; false for its error
unfoldable pub post_audit : Bool → String → World → World × Bool
unfolding parse_chain_service
post_audit enabled id w =
    if enabled
    then elim (w.interchains id) [
      | none ↦ (w, false)
      | some _ ↦ elim (parse_chain_service w.bitxhub_id id) [
        | none ↦ (w, false)
        | some _ ↦ (record w { audited = id ∷ w.audited }, true)
      ]
    ]
    else (w, true)

-- Register
unfoldable pub register : Call → String → World → World × Answer Interchain
unfolding get_interchain set_interchain post_audit text_append
register c chain_service_id w = elim w.bitxhub_id [
  | none ↦ (w, err internal_err)
  | some own ↦
      let id = text_append own (text_append ":" chain_service_id) in
      let (ic, found) = get_interchain id w in
      let w1 = if found then w else set_interchain id ic w in
      let (w2, posted) = post_audit c.enable_audit id w1 in
      (w2, if posted then ok ic else err internal_err)
]

-- DeleteInterchain
unfoldable pub delete_interchain : Call → String → World → World × Answer (Unit {0})
unfolding post_audit
delete_interchain c id w =
    let w1 = record w { interchains = delete w.interchains id } in
    let (w2, posted) = post_audit c.enable_audit id w1 in
    (w2, if posted then ok tt else err internal_err)
