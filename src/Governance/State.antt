-- ===== src/Governance/State.antt =====
-- The data of the governance contract.
use model_lib.Base.{ℕ, ℤ, String, Bool, List, Option}

-- ProposalType
pub data ProposalType : Type 0 where
  appchain_mgr rule_mgr node_mgr service_mgr role_mgr proposal_strategy_mgr dapp_mgr bns_mgr :
      ProposalType
  other_module : String → ProposalType

-- ProposalStatus
pub data ProposalStatus : Type 0 where
  proposed approved rejected paused : ProposalStatus

-- governance.EventType of bitxhub-core; `approve` and `reject` are the texts of the statuses APPROVED and
-- REJECTED, and `no_event` is the empty text.
pub data EventType : Type 0 where
  register update freeze activate bind unbind logout pause unpause clear : EventType
  approve reject no_event : EventType
  other_event : String → EventType

-- EndReason; `priority_reason` holds the id of the proposal that has forced the end.
pub data EndReason : Type 0 where
  no_reason normal_reason zero_permission_reason withdrawn_reason electorate_reason : EndReason
  clear_reason : EndReason
  priority_reason : String → EndReason
  other_reason : String → EndReason

-- ProposalStrategyType
pub data StrategyType : Type 0 where
  super_majority_approve super_majority_against simple_majority zero_permission : StrategyType

-- Role, as far as the contract reads it
pub record Role : Type 0 where
  pub id : String
  pub weight : ℕ
  pub is_available : Bool

-- pb.Ballot
pub record Ballot : Type 0 where
  pub voter_addr : String
  pub approve : String
  pub num : ℕ
  pub reason : String
  pub vote_time : ℤ

pub record Proposal : Type 0 where
  pub id : String
  pub typ : ProposalType
  pub status : ProposalStatus
  pub obj_id : String
  pub obj_last_status : String
  pub ballot_map : List (String × Ballot)
  pub approve_num : ℕ
  pub against_num : ℕ
  pub electorate_list : List Role
  pub initial_electorate_num : ℕ
  pub available_electorate_num : ℕ
  pub threshold_approve_num : ℕ
  pub event_type : EventType
  pub end_reason : EndReason
  pub lock_proposal_id : String
  pub is_special : Bool
  pub is_super_admin_voted : Bool
  pub submit_reason : String
  pub withdraw_reason : String
  pub strategy_type : StrategyType
  pub strategy_expression : String
  pub create_time : ℤ
  pub extra : String

-- AuditRelatedObjInfo: the proposal, and the chain or the node that it is about.
pub data Audited : Type 0 where
  about_chain : Proposal → String → Audited
  about_node : Proposal → String → Audited
  about_none : Proposal → Audited

-- The contract's keys by their families. An ordered map of ids is the list of its keys; a missing one
-- reads as an empty map.
pub record Proposals : Type 0 where
  pub proposals : String → Option Proposal  -- ProposalKey
  pub by_from : String → List String  -- ProposalFromKey
  pub by_obj : String → List String  -- ProposalObjKey
  pub by_type : ProposalType → List String  -- ProposalTypKey
  pub by_status : ProposalStatus → List String  -- ProposalStatusKey
  pub audited : List Audited  -- PostEvent of an audit event

-- The codes of boltvm.BxhError that the contract answers with.
pub data GovernanceError : Type 0 where
  internal_err no_permission nonexistent_proposal end_ended_proposal : GovernanceError
  unavailable_admin_vote vote_end_proposal admin_repeat_vote illegal_vote_info : GovernanceError
  admin_no_vote_permission not_vote_admin illegal_proposal_type : GovernanceError

-- boltvm.Response, or a panic of the contract.
pub data Reply {ℓ} (A : Type ℓ) : Type ℓ where
  ok : A → Reply A
  err : GovernanceError → Reply A
  panicked : Reply A

-- The addresses of package constant that the contract compares with or calls.
pub record Addresses : Type 0 where
  pub appchain_mgr_addr : String
  pub rule_manager_addr : String
  pub node_manager_addr : String
  pub role_addr : String
  pub dapp_mgr_addr : String
  pub service_mgr_addr : String
  pub governance_addr : String
  pub strategy_mgr_addr : String
  pub service_registry_addr : String

-- The call: who calls, through which contract, and when.
pub record Calling : Type 0 where
  pub caller : String
  pub current_caller : String
  pub tx_time_stamp : ℤ
  pub enable_audit : Bool

-- The arguments of Manage, with the address of the contract that is called.
pub record Managing : Type 0 where
  pub contract : String
  pub event : EventType
  pub next_event : EventType
  pub last_status : String
  pub obj : String
  pub extra : String

-- What the contract asks of others: GetRolesByType, IsAnyAvailableAdmin and GetAdminRoles of the role
-- contract, GetProposalStrategy of the strategy manager, none for an answer that is not ok, and Manage
-- of the contract of a proposal's type, which may call this contract again and tells whether it is ok.
pub record Offices : Type 0 where
  pub addresses : Addresses
  pub governance_admins : Option (List Role)
  pub is_any_available_admin : String → Option Bool
  pub admin_roles : Option (List String)
  pub get_proposal_strategy : ProposalType → Option (StrategyType × String)
  pub manage : Managing → Proposals → Proposals × Bool
