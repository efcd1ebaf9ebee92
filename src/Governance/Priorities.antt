-- ===== src/Governance/Priorities.antt =====
-- The locks between the proposals of one object, of internal/executor/contracts/governance.go.
use model_lib.Base.{ℕ, String, Bool, ◌&&◌, List, [], ◌∷◌, Option, none, some, ltb, if◌then◌else◌}
use model_lib.Governance.State.{
  Proposal, proposed, rejected, paused, EventType, register, update, freeze, activate, bind, unbind,
  logout, pause, unpause, clear, no_event, EndReason, Proposals, Calling,
}
use model_lib.Governance.Indices.{
  status_is, change_proposal_status, get_proposals_by_obj_id, get_proposals_by_obj_status,
  post_audit_proposal_event,
}

-- priority; an event that is no key reads as 0
unfoldable pub priority : EventType → ℕ
priority register = 1
priority update = 2
priority freeze = 2
priority activate = 1
priority bind = 1
priority unbind = 1
priority logout = 3
priority pause = 3
priority unpause = 1
priority clear = 3
priority _ = 0

-- The first proposal of the list that is proposed and has a lower priority than the event
unfoldable pub find_lower : EventType → List Proposal → Option Proposal
unfolding priority
find_lower event [] = none
find_lower event (p ∷ ps) =
    let rest = find_lower event ps in
    if status_is p.status proposed && ltb (priority p.event_type) (priority event)
    then some p
    else rest

-- lockLowPriorityProposal: the id of the proposal that is paused, empty where there is none; none for
-- its error
unfoldable pub lock_low_priority_proposal :
    Calling → String → EventType → Proposals → Proposals × Option String
unfolding get_proposals_by_obj_id find_lower change_proposal_status post_audit_proposal_event
lock_low_priority_proposal c obj event s = elim (get_proposals_by_obj_id obj s) [
  | none ↦ (s, none)
  | some ps ↦ elim (find_lower event ps) [
    | none ↦ (s, some "")
    | some p ↦
        let s1 = (change_proposal_status p paused s).1 in
        let (s2, posted) = post_audit_proposal_event c p.id s1 in
        (s2, if posted then some p.id else none)
  ]
]

-- unlockLowPriorityProposal: the event type of a proposal that is restored; none for its error
unfoldable pub unlock_low_priority_proposal :
    String → Bool → EndReason → Proposals → Proposals × Option EventType
unfolding change_proposal_status
unlock_low_priority_proposal id restore reason s = elim (s.proposals id) [
  | none ↦ (s, none)
  | some p ↦
      if restore
      then ((change_proposal_status p proposed s).1, some p.event_type)
      else ((change_proposal_status (record p { end_reason = reason }) rejected s).1, some no_event)
]

-- The loop of getHightestPriorityPausedProposalByObjId over the proposals behind the first
unfoldable pub highest_of : Proposal → List Proposal → Proposal
unfolding priority
highest_of best [] = best
highest_of best (p ∷ ps) =
    highest_of (if ltb (priority best.event_type) (priority p.event_type) then p else best) ps

-- getHightestPriorityPausedProposalByObjId: none for its error, and some none for nil
unfoldable pub get_highest_priority_paused_proposal_by_obj_id :
    String → Proposals → Option (Option Proposal)
unfolding get_proposals_by_obj_status highest_of
get_highest_priority_paused_proposal_by_obj_id obj s =
    elim (get_proposals_by_obj_status obj paused s) [
      | none ↦ none
      | some ps ↦ elim ps [ [] ↦ some none | p ∷ qs ↦ some (some (highest_of p qs)) ]
    ]
