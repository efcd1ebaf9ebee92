-- ===== src/Governance/Kept.antt =====
-- The sums of the proposals through the handlers of internal/executor/contracts/governance.go. The
-- contracts that are called keep them by hypothesis.
use model_lib.Base.{
  Option-cases, Bool-cases, ◌≡◌, String, Bool, true, false, none, some, if◌then◌else◌, arith, inl,
  inr,
}
use model_lib.Governance.State.{
  approved, Proposal, Proposals, err, internal_err, Calling, EventType, Offices, Managing,
  priority_reason, no_reason, zero_permission_reason,
}
use model_lib.Governance.Indices.{change_proposal_status, audited_reply}
use model_lib.Governance.Priorities.{
  unlock_low_priority_proposal, get_highest_priority_paused_proposal_by_obj_id,
}
use model_lib.Governance.Handlers.{
  manage_obj, unlock_for, handle_result, finish, zero_permission_end, unlock_low_priority, may_lock,
}
use model_lib.Governance.Tally.{Tallied}
use model_lib.Governance.Tallies.{
  Tallies, change-Tallies, audited_reply-Tallies, unlock_low-Tallies,
}

-- A stored proposal has the numbers of its ballots.
pub stored :
    (s : Proposals) (id : String) (p : Proposal) → Tallies s → s.proposals id ≡ some p → Tallied p
unfolding Tallies
stored s id p h e = (h id p e).1

-- The end of a handler behind a call of another contract
asked-Tallies {ℓ} :
    {A : Type ℓ} (asked : Proposals × Bool) (c : Calling) (id : String) (a : A)
    → Tallies asked.0
    → Tallies (if asked.1 then audited_reply c id a asked.0 else (asked.0, err internal_err)).0
asked-Tallies (s, true) c id a h = audited_reply-Tallies c id a s h
asked-Tallies (s, false) c id a h = h

module _ (o : Offices)
    (manage-Tallies : (m : Managing) (s : Proposals) → Tallies s → Tallies (o.manage m s).0) where
  unlock_for-Tallies : (p : Proposal) (s : Proposals) → Tallies s → Tallies (unlock_for o p s).0
  unfolding unlock_for
  unlock_for-Tallies p s h = ground (
    arith,
    unlock_low-Tallies p.lock_proposal_id false (priority_reason p.id) s h,
    unlock_low-Tallies p.lock_proposal_id true no_reason s h,
  )

  handle_result-Tallies :
      (p : Proposal) (s : Proposals) → Tallies s → Tallies (handle_result o p s).0
  unfolding handle_result manage_obj
  handle_result-Tallies p s h = elim (Option-cases (unlock_for o p s).1) [
    | inl n ↦ rw (handle_result, n) (unlock_for-Tallies p s h)
    | inr (e, f) ↦ rw (handle_result, f) (manage-Tallies _ _ (unlock_for-Tallies p s h))
  ]

  pub finish-Tallies {ℓ} :
      {A : Type ℓ} (c : Calling) (p : Proposal) (a : A) (s : Proposals)
      → Tallies s
      → Tallies (finish o c p a s).0
  unfolding finish
  finish-Tallies c p a s h =
      asked-Tallies (handle_result o p s) c p.id a (handle_result-Tallies p s h)

  pub zero_permission-Tallies :
      (c : Calling) (id : String) (s : Proposals)
      → Tallies s
      → Tallies (zero_permission_end o c id s).0
  unfolding zero_permission_end
  zero_permission-Tallies c id s h = elim (Option-cases (s.proposals id)) [
    | inl n ↦ rw (zero_permission_end, n) h
    | inr (p, e) ↦
        let t = stored s id p h e in
        let q = record p { end_reason = zero_permission_reason } in
        ground (
          arith,
          e,
          h,
          finish-Tallies {0} c (change_proposal_status q approved s).0 tt _
              (change-Tallies q approved s h (unfold Tallied in t)),
        )
  ]

  pub unlock_low_priority-Tallies :
      (c : Calling) (obj : String) (event : EventType) (s : Proposals)
      → Tallies s
      → Tallies (unlock_low_priority o c obj event s).0
  unfolding unlock_low_priority manage_obj
  unlock_low_priority-Tallies c obj event s h = elim (Bool-cases (may_lock o c)) [
    | inr f ↦ rw (unlock_low_priority, f) h
    | inl m ↦ elim (Option-cases (get_highest_priority_paused_proposal_by_obj_id obj s)) [
      | inl n ↦ rw (unlock_low_priority, m, n) h
      | inr (none, e) ↦ rw (unlock_low_priority, m, e) h
      | inr (some p, e) ↦
          let unlocked = unlock_low-Tallies p.id true no_reason s h in
          elim (Option-cases (unlock_low_priority_proposal p.id true no_reason s).1) [
            | inl n ↦ rw (unlock_low_priority, m, e, n) unlocked
            | inr (next, f) ↦
                rw (unlock_low_priority, m, e, f)
                  (asked-Tallies (manage_obj o p.typ event next "" p.obj_id "" _) c p.id tt
                    (manage-Tallies _ _ unlocked))
          ]
    ]
  ]
