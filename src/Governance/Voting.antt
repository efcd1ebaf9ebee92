-- ===== src/Governance/Voting.antt =====
-- setVote and countVote of internal/executor/contracts/governance.go.
use model_lib.Base.{
  ℕ, ◌+◌, ◌%◌, ◌==◌, String, Bool, true, false, ◌&&◌, not, List, [], ◌∷◌, Option, none, some,
  str_eq, if◌then◌else◌, put, lookup, insert, uint64_mod,
}
use model_lib.Governance.State.{
  Role, Proposal, proposed, approved, rejected, Proposals, Reply, ok, err, panicked, internal_err,
  vote_end_proposal, admin_repeat_vote, illegal_vote_info, admin_no_vote_permission, Calling,
  normal_reason, EndReason,
}
use model_lib.Governance.Strategy.{Evaluate, make_strategy_decision, get_cur_threshold_approve_num}
use model_lib.Governance.Indices.{status_is, change_proposal_status}

-- repo.SuperAdminWeight
abbrev pub super_admin_weight : ℕ
super_admin_weight = 2

-- The first elector with the address
unfoldable pub find_elector : String → List Role → Option Role
find_elector addr [] = none
find_elector addr (e ∷ es) =
    let rest = find_elector addr es in if str_eq addr e.id then some e else rest

-- The ballot of `addr` in the proposal: BallotMap, the numbers of votes, and the super administrator's
-- flag; none for a ballot that is neither in favour nor against.
unfoldable pub with_ballot : Calling → Role → String → String → Proposal → Option Proposal
unfolding insert
with_ballot c e approve reason p =
    let p1 = record p {
      ballot_map =
          insert e.id
            (record {
              voter_addr = e.id;
              approve = approve;
              num = e.weight;
              reason = reason;
              vote_time = c.tx_time_stamp;
            })
            p.ballot_map;
      is_super_admin_voted =
          if super_admin_weight == e.weight then true else p.is_super_admin_voted;
    } in
    if str_eq approve "approve"
    then some (record p1 { approve_num = (p.approve_num + 1) % uint64_mod })
    else if str_eq approve "reject"
    then some (record p1 { against_num = (p.against_num + 1) % uint64_mod })
    else none

-- The change of status at the end of a vote, with its reason
unfoldable pub end_vote : EndReason → Bool → Proposal → Proposals → Proposal × Proposals
unfolding change_proposal_status
end_vote reason is_approve p s =
    change_proposal_status (record p { end_reason = reason })
      (if is_approve then approved else rejected) s

module _ (evaluate : Evaluate) where
  -- setVote: the proposal with the vote, which is stored
  unfoldable pub set_vote :
      Calling → Proposal → String → String → String → Proposals → Proposals × Reply Proposal
  unfolding find_elector with_ballot get_cur_threshold_approve_num lookup
  set_vote c p addr approve reason s =
      if not (status_is p.status proposed)
      then (s, err vote_end_proposal)
      else elim (find_elector addr p.electorate_list) [
        | none ↦ (s, err admin_no_vote_permission)
        | some e ↦ elim (lookup addr p.ballot_map) [
          | some _ ↦ (s, err admin_repeat_vote)
          | none ↦ elim (with_ballot c e approve reason p) [
            | none ↦ (s, err illegal_vote_info)
            | some p1 ↦
                elim (get_cur_threshold_approve_num evaluate p1.strategy_expression p1.approve_num
                  p1.against_num p1.initial_electorate_num p1.available_electorate_num) [
                    | err _ ↦ (s, err internal_err)
                    | panicked ↦ (s, panicked)
                    | ok n ↦
                        let p2 = record p1 { threshold_approve_num = n } in
                        (record s { proposals = put s.proposals p2.id p2 }, ok p2)
                  ]
          ]
        ]
      ]

  -- countVote: the proposal, the store, and whether the vote is over
  unfoldable pub count_vote : Proposal → Proposals → (Proposal × Proposals) × Reply Bool
  unfolding make_strategy_decision end_vote
  count_vote p s =
      if p.is_special && not p.is_super_admin_voted
      then ((p, s), ok false)
      else elim (make_strategy_decision evaluate p.strategy_expression p.approve_num p.against_num
          p.initial_electorate_num p.available_electorate_num) [
            | err e ↦ ((p, s), err e)
            | panicked ↦ ((p, s), panicked)
            | ok (false, _) ↦ ((p, s), ok false)
            | ok (true, is_approve) ↦ (end_vote normal_reason is_approve p s, ok true)
          ]
