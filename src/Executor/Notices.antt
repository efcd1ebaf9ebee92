-- ===== src/Executor/Notices.antt =====
-- getTimeoutIBTPsMap of internal/executor/handle.go: the ids that each chain is told of when they time
-- out.
use model_lib.Base.{
  ℕ, String, List, [], ◌∷◌, none, some, if◌then◌else◌, str_eq, get_elem?, split_text,
}
use model_lib.Protocol.{Protocol}
use model_lib.Transactions.Status.{TransactionStatus}
use model_lib.Transactions.State.{Store}
use model_lib.Interchain.Process.{default_union_pier_id, note_ids}
use model_lib.Executor.Timeouts.{get_timeout_list, is_global_id}

-- What a step gives: a value, an error, or a panic
pub data Noted (A : Type 0) : Type 0 where
  noted : A → Noted A
  refused : Noted A
  panicked : Noted A

unfoldable pub and_then : {A B : Type 0} → Noted A → (A → Noted B) → Noted B
and_then (noted a) f = f a
and_then refused f = refused
and_then panicked f = panicked

-- timeoutIBTPsMap
abbrev pub IdsOfChains : Type 0
IdsOfChains = List (String × List String)

-- The protocol, the id of this bitxhub, and the values of NotifyChain, which index the parts of an id
pub record Notifier : Type 0 where
  pub protocol : Protocol
  pub bitxhub_id : String
  pub notify_src : ℕ
  pub notify_dest : ℕ

module _ (n : Notifier) where
  -- ParseFullServiceID of a part of the id: the chain, or the union pier for another bitxhub
  unfoldable pub parsed_chain : String → Noted String
  parsed_chain service = elim (n.protocol.parse_full_service_id service) [
    | none ↦ refused
    | some (bxh_id, chain_id, _) ↦
        noted (if str_eq bxh_id n.bitxhub_id then chain_id else default_union_pier_id)
  ]

  -- notifyChain; an id that has no such part is an index out of range
  unfoldable pub notify_chain : ℕ → String → Noted String
  unfolding parsed_chain
  notify_chain flag tx_id = elim (get_elem? (split_text "-" tx_id) flag) [
    | none ↦ panicked
    | some service ↦ parsed_chain service
  ]

  -- addTxIdToSrcTimeoutIBTPsMap
  unfoldable pub add_tx_id : ℕ → String → IdsOfChains → Noted IdsOfChains
  unfolding notify_chain and_then note_ids
  add_tx_id flag tx_id m =
      and_then (notify_chain flag tx_id) (λ chain. noted (note_ids chain (tx_id ∷ []) m))

  -- The loop over the children of a global transaction
  unfoldable pub add_children : List (String × TransactionStatus) → IdsOfChains → Noted IdsOfChains
  unfolding add_tx_id and_then
  add_children [] m = noted m
  add_children ((id, status) ∷ children) m = and_then (add_tx_id n.notify_src id m) (λ m1.
      and_then
        (if n.protocol.is_final_status status then add_tx_id n.notify_dest id m1 else noted m1)
        (add_children children))

  -- The body of the loop of getTimeoutIBTPsMap, with getTxInfoByGlobalID
  unfoldable pub add_value : Store → String → IdsOfChains → Noted IdsOfChains
  unfolding is_global_id add_children add_tx_id
  add_value s value m =
      if is_global_id value
      then elim (s.global_tx_info value) [
        | none ↦ refused
        | some info ↦ add_children info.child_tx_info m
      ]
      else add_tx_id n.notify_src value m

  unfoldable pub add_values : Store → List String → IdsOfChains → Noted IdsOfChains
  unfolding add_value and_then
  add_values s [] m = noted m
  add_values s (value ∷ values) m = and_then (add_value s value m) (add_values s values)

  -- getTimeoutIBTPsMap
  unfoldable pub get_timeout_ibtps_map : ℕ → Store → Noted IdsOfChains
  unfolding add_values get_timeout_list
  get_timeout_ibtps_map height s = add_values s (get_timeout_list height s) []
