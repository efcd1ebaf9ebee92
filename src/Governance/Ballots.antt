-- ===== src/Governance/Ballots.antt =====
-- SubmitProposal, Vote and UpdateAvailableElectorateNum of internal/executor/contracts/governance.go.
use model_lib.Base.{
  ℕ, String, true, false, not, List, [], ◌∷◌, none, some, if◌then◌else◌, put, length, text_append,
  decimal,
}
use model_lib.Governance.State.{
  ProposalType, proposed, EventType, no_reason, electorate_reason, StrategyType, Role, Proposal,
  Proposals, Reply, ok, err, panicked, internal_err, no_permission, nonexistent_proposal,
  unavailable_admin_vote, Calling, Offices, Addresses,
}
use model_lib.Governance.Strategy.{
  Evaluate, make_strategy_decision, get_cur_threshold_approve_num, check_manage_module,
}
use model_lib.Governance.Indices.{add_proposal, get_proposals_by_from, audited_reply}
use model_lib.Governance.Voting.{set_vote, count_vote, end_vote}
use model_lib.Governance.Priorities.{lock_low_priority_proposal}
use model_lib.Governance.Handlers.{
  is_one_of, is_special_proposal, get_electorate, strategy_of, is_zero_permission, finish,
}

-- What SubmitProposal is called with.
pub record Submission : Type 0 where
  pub from : String
  pub event : EventType
  pub typ : ProposalType
  pub obj : String
  pub obj_last_status : String
  pub reason : String
  pub extra : String

-- The addresses that may submit
abbrev pub submitters : Addresses → List String
submitters a =
    a.appchain_mgr_addr ∷ a.rule_manager_addr ∷ a.node_manager_addr ∷ a.role_addr ∷ a.dapp_mgr_addr
    ∷ a.service_mgr_addr ∷ a.governance_addr ∷ a.strategy_mgr_addr ∷ a.service_registry_addr ∷ []

-- The proposal that SubmitProposal stores. `earlier` counts the proposals of its sponsor.
unfoldable pub new_proposal :
    Calling → Submission → ℕ → List Role → String × StrategyType × ℕ → String → Proposal
unfolding is_special_proposal text_append decimal
new_proposal c m earlier electorate (expression, typ, threshold) lock_id = record {
  id = text_append m.from (text_append "-" (decimal 20 earlier));
  typ = m.typ;
  status = proposed;
  obj_id = m.obj;
  obj_last_status = m.obj_last_status;
  ballot_map = [];
  approve_num = 0;
  against_num = 0;
  electorate_list = electorate;
  initial_electorate_num = length electorate;
  available_electorate_num = length electorate;
  threshold_approve_num = threshold;
  event_type = m.event;
  end_reason = no_reason;
  lock_proposal_id = lock_id;
  is_special = is_special_proposal m.typ m.event;
  is_super_admin_voted = false;
  submit_reason = m.reason;
  withdraw_reason = "";
  strategy_type = typ;
  strategy_expression = expression;
  create_time = c.tx_time_stamp;
  extra = m.extra;
}

module _ (evaluate : Evaluate) (o : Offices) where
  -- getStrategyInfo: the expression, the type and the number of votes that are needed
  unfoldable pub get_strategy_info : ProposalType → ℕ → Reply (String × StrategyType × ℕ)
  unfolding check_manage_module strategy_of get_cur_threshold_approve_num
  get_strategy_info t electorate =
      if not (check_manage_module t)
      then err internal_err
      else (let (typ, expression) = strategy_of o t in
          if is_zero_permission typ
          then ok (expression, typ, 0)
          else elim (get_cur_threshold_approve_num evaluate expression 0 0 electorate electorate) [
            | err e ↦ err e
            | panicked ↦ panicked
            | ok n ↦ ok (expression, typ, n)
          ])

  -- SubmitProposal: the id of the proposal
  unfoldable pub submit_proposal : Calling → Submission → Proposals → Proposals × Reply String
  unfolding is_one_of get_proposals_by_from get_electorate get_strategy_info
      lock_low_priority_proposal new_proposal add_proposal audited_reply
  submit_proposal c m s =
      if not (is_one_of c.current_caller (submitters o.addresses))
      then (s, err no_permission)
      else elim (get_proposals_by_from m.from s) [
        | none ↦ (s, err internal_err)
        | some earlier ↦ elim (get_electorate o) [
          | none ↦ (s, err internal_err)
          | some electorate ↦ elim (get_strategy_info m.typ (length electorate)) [
            | err _ ↦ (s, err internal_err)
            | panicked ↦ (s, panicked)
            | ok info ↦
                let (s1, locked) = lock_low_priority_proposal c m.obj m.event s in
                elim locked [
                  | none ↦ (s1, err internal_err)
                  | some lock_id ↦
                      let p = new_proposal c m (length earlier) electorate info lock_id in
                      audited_reply c p.id p.id (add_proposal p s1)
                ]
          ]
        ]
      ]

  -- The part of Vote behind setVote
  unfoldable pub after_vote : Calling → Proposal → Proposals → Proposals × Reply (Unit {0})
  unfolding count_vote finish audited_reply
  after_vote c p s =
      let ((p1, s1), r) = count_vote evaluate p s in
      elim r [
        | err _ ↦ (s1, err internal_err)
        | panicked ↦ (s1, panicked)
        | ok false ↦ audited_reply c p1.id tt s1
        | ok true ↦ finish o c p1 tt s1
      ]

  -- Vote
  unfoldable pub vote :
      Calling → String → String → String → Proposals → Proposals × Reply (Unit {0})
  unfolding set_vote after_vote
  vote c id ballot reason s = elim (o.is_any_available_admin c.caller) [
    | none ↦ (s, err internal_err)
    | some false ↦ (s, err unavailable_admin_vote)
    | some true ↦ elim (s.proposals id) [
      | none ↦ (s, err nonexistent_proposal)
      | some p ↦
          let (s1, r) = set_vote evaluate c p c.caller ballot reason s in
          elim r [ err e ↦ (s1, err e) | panicked ↦ (s1, panicked) | ok p1 ↦ after_vote c p1 s1 ]
    ]
  ]

  -- The decision of UpdateAvailableElectorateNum for a proposal with its new numbers
  unfoldable pub redecide : Calling → Proposal → Proposals → Proposals × Reply ℕ
  unfolding make_strategy_decision end_vote finish audited_reply
  redecide c p s =
      elim (make_strategy_decision evaluate p.strategy_expression p.approve_num p.against_num
        p.initial_electorate_num p.available_electorate_num) [
          | err _ ↦ (s, err internal_err)
          | panicked ↦ (s, panicked)
          | ok (true, is_approve) ↦
              let (p1, s1) = end_vote electorate_reason is_approve p s in
              finish o c p1 p.available_electorate_num s1
          | ok (false, _) ↦
              audited_reply c p.id p.available_electorate_num
                (record s { proposals = put s.proposals p.id p })
        ]

  -- UpdateAvailableElectorateNum. For a strategy without votes the new number is not stored.
  unfoldable pub update_available_electorate_num :
      Calling → String → ℕ → Proposals → Proposals × Reply ℕ
  unfolding is_one_of get_cur_threshold_approve_num redecide
  update_available_electorate_num c id num s =
      if not (is_one_of c.current_caller (o.addresses.role_addr ∷ []))
      then (s, err no_permission)
      else elim (s.proposals id) [
        | none ↦ (s, err nonexistent_proposal)
        | some p ↦
            if is_zero_permission p.strategy_type
            then (s, ok num)
            else elim (get_cur_threshold_approve_num evaluate p.strategy_expression p.approve_num
                p.against_num p.initial_electorate_num num) [
                  | err _ ↦ (s, err internal_err)
                  | panicked ↦ (s, panicked)
                  | ok n ↦
                      redecide c
                        (record p { available_electorate_num = num; threshold_approve_num = n }) s
                ]
      ]
