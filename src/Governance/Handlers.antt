-- ===== src/Governance/Handlers.antt =====
-- The handlers of internal/executor/contracts/governance.go. The texts of the errors are not modelled.
use model_lib.Base.{
  String, Bool, true, false, ◌||◌, not, List, [], ◌∷◌, Option, none, some, str_eq, if◌then◌else◌,
  split_text,
}
use model_lib.Governance.State.{
  ProposalType, rule_mgr, node_mgr, service_mgr, role_mgr, proposal_strategy_mgr, dapp_mgr, bns_mgr,
  ProposalStatus, proposed, approved, rejected, paused, EventType, freeze, activate, logout,
  approve, reject, other_event, EndReason, no_reason, zero_permission_reason, withdrawn_reason,
  priority_reason, StrategyType, simple_majority, zero_permission, Role, Proposal, Proposals, Reply,
  ok, err, panicked, internal_err, no_permission, nonexistent_proposal, end_ended_proposal,
  Addresses, Calling, Offices,
}
use model_lib.Governance.Indices.{
  status_is, dash, change_proposal_status, get_proposals_by_obj_id, post_audit_proposal_event,
  audited_reply,
}
use model_lib.Governance.Priorities.{
  lock_low_priority_proposal, unlock_low_priority_proposal,
  get_highest_priority_paused_proposal_by_obj_id,
}

-- PermissionSpecific of checkPermission in internal/executor/contracts/common.go
unfoldable pub is_one_of : String → List String → Bool
is_one_of addr [] = false
is_one_of addr (x ∷ xs) = str_eq x addr || is_one_of addr xs

-- EventType(status)
abbrev pub event_of : ProposalStatus → EventType
event_of proposed = other_event "proposed"
event_of approved = approve
event_of rejected = reject
event_of paused = EventType.pause

-- isSpecialProposal
unfoldable pub is_special_proposal : ProposalType → EventType → Bool
is_special_proposal role_mgr e = true
is_special_proposal proposal_strategy_mgr e = true
is_special_proposal t freeze = true
is_special_proposal t activate = true
is_special_proposal t logout = true
is_special_proposal t e = false

unfoldable pub available_of : List Role → List Role
available_of [] = []
available_of (a ∷ admins) = if a.is_available then a ∷ available_of admins else available_of admins

-- getElectorate
unfoldable pub get_electorate : Offices → Option (List Role)
unfolding available_of
get_electorate o = elim o.governance_admins [
  | none ↦ none
  | some admins ↦ some (available_of admins)
]

-- The strategy of a module, or the simple majority of defaultStrategy in
-- internal/executor/contracts/proposal_strategy.go
unfoldable pub strategy_of : Offices → ProposalType → StrategyType × String
strategy_of o t = elim (o.get_proposal_strategy t) [
  | some s ↦ s
  | none ↦ (simple_majority, "a > 0.5 * t")
]

abbrev pub is_zero_permission : StrategyType → Bool
is_zero_permission zero_permission = true
is_zero_permission _ = false

-- The contract of the type of a proposal
unfoldable pub manager_of : Addresses → ProposalType → String
manager_of a role_mgr = a.role_addr
manager_of a service_mgr = a.service_mgr_addr
manager_of a node_mgr = a.node_manager_addr
manager_of a rule_mgr = a.rule_manager_addr
manager_of a dapp_mgr = a.dapp_mgr_addr
manager_of a proposal_strategy_mgr = a.strategy_mgr_addr
manager_of a bns_mgr = a.service_registry_addr
manager_of a _ = a.appchain_mgr_addr

module _ (o : Offices) where
  -- manageObj; false for its error
  unfoldable pub manage_obj :
      ProposalType → EventType → EventType → String → String → String → Proposals → Proposals × Bool
  unfolding manager_of
  manage_obj t event next_event last_status obj extra s =
      o.manage
        (record {
          contract = manager_of o.addresses t;
          event = event;
          next_event = next_event;
          last_status = last_status;
          obj = obj;
          extra = extra;
        })
        s

  -- The unlocking in handleResult: the next event, or none for its error
  unfoldable pub unlock_for : Proposal → Proposals → Proposals × Option EventType
  unfolding unlock_low_priority_proposal
  unlock_for p s =
      if str_eq p.lock_proposal_id ""
      then (s, some (event_of p.status))
      else if status_is p.status approved
      then (let (s1, r) =
            unlock_low_priority_proposal p.lock_proposal_id false (priority_reason p.id) s in
          (s1, elim r [ none ↦ none | some _ ↦ some (event_of p.status) ]))
      else unlock_low_priority_proposal p.lock_proposal_id true no_reason s

  -- handleResult; false for its error
  unfoldable pub handle_result : Proposal → Proposals → Proposals × Bool
  unfolding unlock_for manage_obj
  handle_result p s =
      let (s1, r) = unlock_for p s in
      elim r [
        | none ↦ (s1, false)
        | some next ↦ manage_obj p.typ p.event_type next p.obj_last_status p.obj_id p.extra s1
      ]

  -- handleResult at the end of a handler, with the audit event
  unfoldable pub finish {ℓ} :
      {A : Type ℓ} → Calling → Proposal → A → Proposals → Proposals × Reply A
  unfolding handle_result audited_reply
  finish c p a s =
      let (s1, handled) = handle_result p s in
      if handled then audited_reply c p.id a s1 else (s1, err internal_err)

  -- ZeroPermission
  unfoldable pub zero_permission_end : Calling → String → Proposals → Proposals × Reply (Unit {0})
  unfolding change_proposal_status finish
  zero_permission_end c id s = elim (s.proposals id) [
    | none ↦ (s, err nonexistent_proposal)
    | some p ↦
        if is_zero_permission p.strategy_type
        then (let (p1, s1) =
              change_proposal_status (record p { end_reason = zero_permission_reason }) approved
                s in
            finish c p1 tt s1)
        else (s, ok tt)
  ]

-- endProposal
unfoldable pub end_proposal : String → EndReason → String → Proposals → Proposals × Reply Proposal
unfolding change_proposal_status
end_proposal id why extra s = elim (s.proposals id) [
  | none ↦ (s, err nonexistent_proposal)
  | some p ↦
      if status_is p.status approved || status_is p.status rejected
      then (s, err end_ended_proposal)
      else (let p1 = record p {
        end_reason = why;
        withdraw_reason = withdrawn why p.withdraw_reason;
      } in
          let (p2, s1) = change_proposal_status p1 rejected s in (s1, ok p2))
]
  where
    withdrawn : EndReason → String → String
    withdrawn withdrawn_reason old = extra
    withdrawn _ old = old

-- The loop of EndObjProposal over the proposals as they were read
unfoldable pub end_each :
    Calling → EndReason → String → List Proposal → Proposals → Proposals × Reply (Unit {0})
unfolding end_proposal post_audit_proposal_event
end_each c why extra [] s = (s, ok tt)
end_each c why extra (p ∷ ps) s =
    if status_is p.status paused || status_is p.status proposed
    then (let (s1, r) = end_proposal p.id why extra s in
        elim r [
          | err e ↦ (s1, err e)
          | panicked ↦ (s1, panicked)
          | ok _ ↦
              let (s2, posted) = post_audit_proposal_event c p.id s1 in
              elim posted [ true ↦ end_each c why extra ps s2 | false ↦ (s2, err internal_err) ]
        ])
    else end_each c why extra ps s

module _ (o : Offices) where
  -- WithdrawProposal: an id without a dash is sliced out of its bounds
  unfoldable pub withdraw_proposal :
      Calling → String → String → Proposals → Proposals × Reply (Unit {0})
  unfolding end_proposal finish split_text
  withdraw_proposal c id why s = elim (split_text dash id) [
    | [] ↦ (s, panicked)
    | from ∷ rest ↦ elim rest [
      | [] ↦ (s, panicked)
      | _ ∷ _ ↦
          if not (str_eq from c.current_caller)
          then (s, err no_permission)
          else (let (s1, r) = end_proposal id withdrawn_reason why s in
              elim r [
                | err e ↦ (s1, err e)
                | panicked ↦ (s1, panicked)
                | ok p ↦ finish o c p tt s1
              ])
    ]
  ]

  -- EndObjProposal
  unfoldable pub end_obj_proposal :
      Calling → String → EndReason → String → Proposals → Proposals × Reply (Unit {0})
  unfolding is_one_of get_proposals_by_obj_id end_each
  end_obj_proposal c obj why extra s =
      let a = o.addresses in
      if not
        (is_one_of c.current_caller (a.rule_manager_addr ∷ a.role_addr ∷ a.service_mgr_addr ∷ []))
      then (s, err no_permission)
      else elim (get_proposals_by_obj_id obj s) [
        | none ↦ (s, err internal_err)
        | some ps ↦ end_each c why extra ps s
      ]

  unfoldable pub may_lock : Calling → Bool
  unfolding is_one_of
  may_lock c =
      let a = o.addresses in
      is_one_of c.current_caller (a.service_mgr_addr ∷ a.role_addr ∷ a.rule_manager_addr ∷ [])

  -- LockLowPriorityProposal
  unfoldable pub lock_low_priority :
      Calling → String → EventType → Proposals → Proposals × Reply String
  unfolding may_lock lock_low_priority_proposal
  lock_low_priority c obj event s =
      if not (may_lock c)
      then (s, err no_permission)
      else (let (s1, r) = lock_low_priority_proposal c obj event s in
          (s1, elim r [ none ↦ err internal_err | some id ↦ ok id ]))

  -- UnLockLowPriorityProposal
  unfoldable pub unlock_low_priority :
      Calling → String → EventType → Proposals → Proposals × Reply (Unit {0})
  unfolding may_lock get_highest_priority_paused_proposal_by_obj_id unlock_low_priority_proposal
      manage_obj audited_reply
  unlock_low_priority c obj event s =
      if not (may_lock c)
      then (s, err no_permission)
      else elim (get_highest_priority_paused_proposal_by_obj_id obj s) [
        | none ↦ (s, err internal_err)
        | some none ↦ (s, ok tt)
        | some (some p) ↦
            let (s1, r) = unlock_low_priority_proposal p.id true no_reason s in
            elim r [
              | none ↦ (s1, err internal_err)
              | some next ↦
                  let (s2, managed) = manage_obj o p.typ event next "" p.obj_id "" s1 in
                  if managed then audited_reply c p.id tt s2 else (s2, err internal_err)
            ]
      ]
