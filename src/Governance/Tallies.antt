-- ===== src/Governance/Tallies.antt =====
-- Every handler of internal/executor/contracts/governance.go keeps the sums of every proposal.
use model_lib.Base.{
  some-injective, Option-cases, Bool-cases, All, subst, ◌&&◌, ltb, ◌≡◌, String, Bool, List, [], ◌∷◌,
  some, eq_iff, put, arith, inl, inr,
}
use model_lib.Governance.State.{
  ProposalStatus, proposed, paused, rejected, Proposal, Proposals, Calling, EndReason, EventType,
}
use model_lib.Governance.Indices.{
  status_is, collect_proposals, get_proposals_by_obj_id, add_proposal, change_proposal_status,
  post_audit_proposal_event, audited_reply,
}
use model_lib.Governance.Priorities.{
  priority, find_lower, lock_low_priority_proposal, unlock_low_priority_proposal,
}
use model_lib.Governance.Tally.{Tallied}

-- Every proposal stands under its id and has the numbers of its ballots.
unfoldable pub Tallies : Proposals → Type 0
unfolding Tallied
Tallies s = (id : String) (p : Proposal) → s.proposals id ≡ some p → (p.id ≡ id) × Tallied p

pub put-Tallies :
    (s : Proposals) (p : Proposal)
    → Tallies s
    → Tallied p
    → Tallies (record s { proposals = put s.proposals p.id p })
unfolding Tallies
put-Tallies s p h t id q e = ground (arith, h id q, eq_iff p.id id)

pub change-Tallies :
    (p : Proposal) (st : ProposalStatus) (s : Proposals)
    → Tallies s
    → Tallied p
    → Tallies (change_proposal_status p st s).1
unfolding Tallies Tallied change_proposal_status
change-Tallies p st s h t id q e = ground (arith, h id q, eq_iff p.id id)

pub audit-Tallies :
    (c : Calling) (id : String) (s : Proposals)
    → Tallies s
    → Tallies (post_audit_proposal_event c id s).0
unfolding post_audit_proposal_event Tallies
audit-Tallies c id s h j p e = h j p (ground (arith, e))

pub audited_reply-Tallies {ℓ} :
    {A : Type ℓ} (c : Calling) (id : String) (a : A) (s : Proposals)
    → Tallies s
    → Tallies (audited_reply c id a s).0
unfolding audited_reply
audited_reply-Tallies c id a s h = ground (arith, audit-Tallies c id s h)

pub add-Tallies :
    (p : Proposal) (s : Proposals) → Tallies s → Tallied p → Tallies (add_proposal p s)
unfolding Tallies add_proposal
add-Tallies p s h t id q e = ground (arith, h id q, eq_iff p.id id)

pub unlock_low-Tallies :
    (id : String) (restore : Bool) (why : EndReason) (s : Proposals)
    → Tallies s
    → Tallies (unlock_low_priority_proposal id restore why s).0
unfolding unlock_low_priority_proposal
unlock_low-Tallies id restore why s h = elim (Option-cases (s.proposals id)) [
  | inl n ↦ rw (unlock_low_priority_proposal, n) h
  | inr (p, e) ↦
      let t : Tallied p = unfold Tallies in (h id p e).1 in
      ground (
        arith,
        e,
        h,
        change-Tallies p proposed s h t,
        change-Tallies (record p { end_reason = why }) rejected s h (unfold Tallied in t),
      )
]

collect-Tallied :
    (ids : List String) (s : Proposals) (ps : List Proposal)
    → Tallies s
    → collect_proposals ids s ≡ some ps
    → All Tallied ps
unfolding collect_proposals
collect-Tallied [] s ps h e = subst (All Tallied) (some-injective e) tt
collect-Tallied (id ∷ ids) s ps h e = elim (Option-cases (s.proposals id)) [
  | inl n ↦ absurd (ground (arith, e, n))
  | inr (p, f) ↦ elim (Option-cases (collect_proposals ids s)) [
    | inl n ↦ absurd (ground (arith, e, f, n))
    | inr (qs, g) ↦
        let t : Tallied p = unfold Tallies in (h id p f).1 in
        subst (All Tallied) (some-injective (rw (collect_proposals, f, g) at e))
          (t, collect-Tallied ids s qs h g)
  ]
]

find_lower-Tallied :
    (event : EventType) (ps : List Proposal) (p : Proposal)
    → All Tallied ps
    → find_lower event ps ≡ some p
    → Tallied p
unfolding find_lower
find_lower-Tallied event [] p h e = absurd (ground (arith, e))
find_lower-Tallied event (x ∷ ps) p h e =
    elim (Bool-cases
      (status_is x.status proposed && ltb (priority x.event_type) (priority event))) [
        | inl b ↦ subst Tallied (some-injective (rw (find_lower, b) at e)) h.0
        | inr b ↦ find_lower-Tallied event ps p h.1 (rw (find_lower, b) at e)
      ]

pub lock_low-Tallies :
    (c : Calling) (obj : String) (event : EventType) (s : Proposals)
    → Tallies s
    → Tallies (lock_low_priority_proposal c obj event s).0
unfolding lock_low_priority_proposal get_proposals_by_obj_id
lock_low-Tallies c obj event s h = elim (Option-cases (get_proposals_by_obj_id obj s)) [
  | inl n ↦ rw (lock_low_priority_proposal, n) h
  | inr (ps, e) ↦ elim (Option-cases (find_lower event ps)) [
    | inl n ↦ rw (lock_low_priority_proposal, e, n) h
    | inr (p, f) ↦
        let t = find_lower-Tallied event ps p (collect-Tallied (s.by_obj obj) s ps h e) f in
        rw (lock_low_priority_proposal, e, f)
          (audit-Tallies c p.id _ (change-Tallies p paused s h t))
  ]
]
