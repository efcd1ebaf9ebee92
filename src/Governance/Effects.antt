-- ===== src/Governance/Effects.antt =====
-- The sums of the proposals through setVote, countVote, endProposal and SubmitProposal of
-- internal/executor/contracts/governance.go.
use model_lib.Base.{
  some-injective, Option-cases, Bool-cases, subst, sym, ◌&&◌, ◌||◌, not, ℕ, ◌<◌, ◌≤◌, ◌≡◌, refl,
  String, Bool, true, false, List, [], ◌∷◌, some, arith, inl, inr, length, uint64_mod,
}
use model_lib.Governance.State.{
  proposed, paused, rejected, approved, Proposal, Proposals, Calling, EndReason, Offices, Role,
  normal_reason, StrategyType,
}
use model_lib.Governance.Strategy.{Evaluate, make_strategy_decision}
use model_lib.Governance.Indices.{status_is, post_audit_proposal_event, get_proposals_by_from}
use model_lib.Governance.Voting.{set_vote, count_vote, end_vote}
use model_lib.Governance.Priorities.{lock_low_priority_proposal}
use model_lib.Governance.Handlers.{is_one_of, available_of, get_electorate, end_proposal, end_each}
use model_lib.Governance.Ballots.{
  submitters, Submission, new_proposal, submit_proposal, get_strategy_info,
}
use model_lib.Governance.Tally.{Tallied}
use model_lib.Governance.Counting.{set_vote-accepted, Reply-cases, set_vote-cases, set_vote-Tallied}
use model_lib.Governance.Tallies.{
  Tallies, put-Tallies, change-Tallies, audit-Tallies, audited_reply-Tallies, add-Tallies,
  lock_low-Tallies,
}
use model_lib.Governance.Kept.{stored}

pub end_proposal-Tallies :
    (id : String) (why : EndReason) (extra : String) (s : Proposals)
    → Tallies s
    → Tallies (end_proposal id why extra s).0
unfolding end_proposal
end_proposal-Tallies id why extra s h = elim (Option-cases (s.proposals id)) [
  | inl n ↦ rw (end_proposal, n) h
  | inr (p, e) ↦ elim (Bool-cases (status_is p.status approved || status_is p.status rejected)) [
    | inl b ↦ rw (end_proposal, e, b) h
    | inr b ↦
        rw (end_proposal, e, b)
          (change-Tallies _ rejected s h (unfold Tallied in stored s id p h e))
  ]
]

pub end_each-Tallies :
    (c : Calling) (why : EndReason) (extra : String) (ps : List Proposal) (s : Proposals)
    → Tallies s
    → Tallies (end_each c why extra ps s).0
unfolding end_each
end_each-Tallies c why extra [] s h = h
end_each-Tallies c why extra (p ∷ ps) s h =
    elim (Bool-cases (status_is p.status paused || status_is p.status proposed)) [
      | inr b ↦ rw (end_each, b) (end_each-Tallies c why extra ps s h)
      | inl b ↦
          let ended = end_proposal-Tallies p.id why extra s h in
          elim (Reply-cases (end_proposal p.id why extra s).1) [
            | inr (inl (_, r)) ↦ rw (end_each, b, r) ended
            | inr (inr r) ↦ rw (end_each, b, r) ended
            | inl (_, r) ↦
                let s1 = (end_proposal p.id why extra s).0 in
                let audited = audit-Tallies c p.id s1 ended in
                elim (Bool-cases (post_audit_proposal_event c p.id s1).1) [
                  | inl t ↦ rw (end_each, b, r, t) (end_each-Tallies c why extra ps _ audited)
                  | inr f ↦ rw (end_each, b, r, f) audited
                ]
          ]
    ]

length-available : (admins : List Role) → length (available_of admins) ≤ length admins
unfolding available_of
length-available [] = ground arith
length-available (a ∷ admins) = ground (arith, length-available admins)

pub new_proposal-Tallied :
    (c : Calling) (m : Submission) (earlier : ℕ) (electorate : List Role)
    (info : String × StrategyType × ℕ) (lock_id : String)
    → length electorate < uint64_mod
    → Tallied (new_proposal c m earlier electorate info lock_id)
unfolding new_proposal Tallied
new_proposal-Tallied c m earlier electorate info lock_id h = (refl, refl, refl, refl, tt, tt, h)

pub submit_proposal-Tallies :
    (evaluate : Evaluate) (o : Offices) (c : Calling) (m : Submission) (s : Proposals)
    → ((admins : List Role) → o.governance_admins ≡ some admins → length admins < uint64_mod)
    → Tallies s
    → Tallies (submit_proposal evaluate o c m s).0
unfolding submit_proposal
submit_proposal-Tallies evaluate o c m s few h =
    elim (Bool-cases (is_one_of c.current_caller (submitters o.addresses))) [
      | inr b ↦ rw (submit_proposal, b) h
      | inl b ↦ elim (Option-cases (get_proposals_by_from m.from s)) [
        | inl n ↦ rw (submit_proposal, b, n) h
        | inr (earlier, f) ↦ elim (Option-cases (get_electorate o)) [
          | inl n ↦ rw (submit_proposal, b, f, n) h
          | inr (electorate, g) ↦
              elim (Reply-cases (get_strategy_info evaluate o m.typ (length electorate))) [
                | inr (inl (_, n)) ↦ rw (submit_proposal, b, f, g, n) h
                | inr (inr n) ↦ rw (submit_proposal, b, f, g, n) h
                | inl (info, i) ↦
                    let locked = lock_low-Tallies c m.obj m.event s h in
                    elim (Option-cases (lock_low_priority_proposal c m.obj m.event s).1) [
                      | inl n ↦ rw (submit_proposal, b, f, g, i, n) locked
                      | inr (lock_id, l) ↦
                          rw (submit_proposal, b, f, g, i, l)
                            (audited_reply-Tallies c _ _ _ (
                              add-Tallies _ _ locked (
                                new_proposal-Tallied c m (length earlier) electorate info lock_id
                                  (few_electors electorate g))))
                    ]
              ]
        ]
      ]
    ]
  where
    few_electors :
        (electorate : List Role)
        → get_electorate o ≡ some electorate
        → length electorate < uint64_mod
    few_electors electorate g = elim (Option-cases o.governance_admins) [
      | inl n ↦ absurd (unfold get_electorate in ground (arith, g, n))
      | inr (admins, e) ↦
          subst (λ x. length x < uint64_mod) (some-injective (rw (get_electorate, e) at g))
            (omega (arith, few admins e, length-available admins))
    ]

pub set_vote-Tallies :
    (evaluate : Evaluate) (c : Calling) (p : Proposal) (addr ballot why : String) (s : Proposals)
    → Tallies s
    → Tallied p
    → Tallies (set_vote evaluate c p addr ballot why s).0
set_vote-Tallies evaluate c p addr ballot why s h t =
    elim (set_vote-cases evaluate c p addr ballot why s) [
      | inr same ↦ subst Tallies (sym same) h
      | inl (q, r) ↦
          subst Tallies (sym (set_vote-accepted evaluate c p addr ballot why s q r).8)
            (put-Tallies s q h (set_vote-Tallied evaluate c p addr ballot why s q t r))
    ]

pub decided-Tallies :
    (why : EndReason) (is_approve : Bool) (p : Proposal) (s : Proposals)
    → Tallies s
    → Tallied p
    → Tallies (end_vote why is_approve p s).1
unfolding end_vote
decided-Tallies why is_approve p s h t = change-Tallies _ _ s h (unfold Tallied in t)

pub count_vote-Tallies :
    (evaluate : Evaluate) (p : Proposal) (s : Proposals)
    → Tallies s
    → Tallied p
    → Tallies (count_vote evaluate p s).0.1
unfolding count_vote
count_vote-Tallies evaluate p s h t =
    elim (Bool-cases (p.is_special && not p.is_super_admin_voted)) [
      | inl b ↦ rw (count_vote, b) h
      | inr b ↦
          elim (Reply-cases (
            make_strategy_decision evaluate p.strategy_expression p.approve_num p.against_num
              p.initial_electorate_num p.available_electorate_num)) [
                | inr (inl (_, r)) ↦ rw (count_vote, b, r) h
                | inr (inr r) ↦ rw (count_vote, b, r) h
                | inl ((false, _), r) ↦ rw (count_vote, b, r) h
                | inl ((true, a), r) ↦
                    rw (count_vote, b, r) (decided-Tallies normal_reason a p s h t)
              ]
    ]
