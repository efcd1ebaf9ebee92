-- ===== src/Governance/Invariant.antt =====
-- The numbers of a proposal are those of its ballots, whatever is called: the invariant of
-- internal/executor/contracts/governance.go.
use model_lib.Base.{
  Option-cases, split_text, List-cases, Bool-cases, ℕ, ◌<◌, ◌≡◌, String, true, false, List, [], ◌∷◌,
  some, str_eq, inl, inr, length, uint64_mod,
}
use model_lib.Governance.State.{
  Proposal, Proposals, Calling, EndReason, Offices, Managing, Role, withdrawn_reason,
  electorate_reason,
}
use model_lib.Governance.Strategy.{Evaluate, make_strategy_decision, get_cur_threshold_approve_num}
use model_lib.Governance.Indices.{dash, get_proposals_by_obj_id}
use model_lib.Governance.Voting.{set_vote, count_vote, end_vote}
use model_lib.Governance.Handlers.{
  is_one_of, is_zero_permission, end_proposal, withdraw_proposal, end_obj_proposal,
  lock_low_priority, may_lock,
}
use model_lib.Governance.Ballots.{after_vote, vote, redecide, update_available_electorate_num}
use model_lib.Governance.Tally.{Tallied}
use model_lib.Governance.Counting.{Reply-cases, set_vote-Tallied}
use model_lib.Governance.Tallies.{Tallies, put-Tallies, audited_reply-Tallies, lock_low-Tallies}
use model_lib.Governance.Kept.{
  stored, finish-Tallies, zero_permission-Tallies, unlock_low_priority-Tallies,
}
use model_lib.Governance.Requests.{
  Request, submitting, zero_permission_of, withdrawing, ending_obj, voting, locking, unlocking,
  resizing, handle,
}
use model_lib.Governance.Effects.{
  end_proposal-Tallies, end_each-Tallies, submit_proposal-Tallies, set_vote-Tallies,
  decided-Tallies, count_vote-Tallies,
}

module _ (o : Offices)
    (manage-Tallies : (m : Managing) (s : Proposals) → Tallies s → Tallies (o.manage m s).0) where
  withdraw-Tallies :
      (c : Calling) (id why : String) (s : Proposals)
      → Tallies s
      → Tallies (withdraw_proposal o c id why s).0
  unfolding withdraw_proposal
  withdraw-Tallies c id why s h = elim (List-cases (split_text dash id)) [
    | inl n ↦ rw (withdraw_proposal, n) h
    | inr (from, rest, e) ↦ elim (List-cases rest) [
      | inl n ↦ rw (withdraw_proposal, e, n) h
      | inr (x, xs, f) ↦ elim (Bool-cases (str_eq from c.current_caller)) [
        | inr b ↦ rw (withdraw_proposal, e, f, b) h
        | inl b ↦
            let ended = end_proposal-Tallies id withdrawn_reason why s h in
            elim (Reply-cases (end_proposal id withdrawn_reason why s).1) [
              | inr (inl (_, r)) ↦ rw (withdraw_proposal, e, f, b, r) ended
              | inr (inr r) ↦ rw (withdraw_proposal, e, f, b, r) ended
              | inl (p, r) ↦
                  rw (withdraw_proposal, e, f, b, r)
                    (finish-Tallies {0} o manage-Tallies c p tt _ ended)
            ]
      ]
    ]
  ]

  after_vote-Tallies :
      (evaluate : Evaluate) (c : Calling) (p : Proposal) (s : Proposals)
      → Tallies s
      → Tallied p
      → Tallies (after_vote evaluate o c p s).0
  unfolding after_vote
  after_vote-Tallies evaluate c p s h t =
      let counted = count_vote-Tallies evaluate p s h t in
      elim (Reply-cases (count_vote evaluate p s).1) [
        | inr (inl (_, r)) ↦ rw (after_vote, r) counted
        | inr (inr r) ↦ rw (after_vote, r) counted
        | inl (false, r) ↦ rw (after_vote, r) (audited_reply-Tallies {0} c _ tt _ counted)
        | inl (true, r) ↦
            rw (after_vote, r)
              (finish-Tallies {0} o manage-Tallies c (count_vote evaluate p s).0.0 tt _ counted)
      ]

  vote-Tallies :
      (evaluate : Evaluate) (c : Calling) (id ballot why : String) (s : Proposals)
      → Tallies s
      → Tallies (vote evaluate o c id ballot why s).0
  unfolding vote
  vote-Tallies evaluate c id ballot why s h =
      elim (Option-cases (o.is_any_available_admin c.caller)) [
        | inl n ↦ rw (vote, n) h
        | inr (false, a) ↦ rw (vote, a) h
        | inr (true, a) ↦ elim (Option-cases (s.proposals id)) [
          | inl n ↦ rw (vote, a, n) h
          | inr (p, e) ↦
              let t = stored s id p h e in
              let voted = set_vote-Tallies evaluate c p c.caller ballot why s h t in
              elim (Reply-cases (set_vote evaluate c p c.caller ballot why s).1) [
                | inr (inl (_, r)) ↦ rw (vote, a, e, r) voted
                | inr (inr r) ↦ rw (vote, a, e, r) voted
                | inl (q, r) ↦
                    rw (vote, a, e, r)
                      (after_vote-Tallies evaluate c q _ voted
                        (set_vote-Tallied evaluate c p c.caller ballot why s q t r))
              ]
        ]
      ]

  redecide-Tallies :
      (evaluate : Evaluate) (c : Calling) (p : Proposal) (s : Proposals)
      → Tallies s
      → Tallied p
      → Tallies (redecide evaluate o c p s).0
  unfolding redecide
  redecide-Tallies evaluate c p s h t =
      elim (Reply-cases (
        make_strategy_decision evaluate p.strategy_expression p.approve_num p.against_num
          p.initial_electorate_num p.available_electorate_num)) [
            | inr (inl (_, r)) ↦ rw (redecide, r) h
            | inr (inr r) ↦ rw (redecide, r) h
            | inl ((false, _), r) ↦
                rw (redecide, r) (audited_reply-Tallies c p.id _ _ (put-Tallies s p h t))
            | inl ((true, a), r) ↦
                rw (redecide, r)
                  (finish-Tallies {0} o manage-Tallies {A = ℕ} c
                    (end_vote electorate_reason a p s).0 p.available_electorate_num _
                    (decided-Tallies electorate_reason a p s h t))
          ]

  update-Tallies :
      (evaluate : Evaluate) (c : Calling) (id : String) (num : ℕ) (s : Proposals)
      → Tallies s
      → Tallies (update_available_electorate_num evaluate o c id num s).0
  unfolding update_available_electorate_num
  update-Tallies evaluate c id num s h =
      elim (Bool-cases (is_one_of c.current_caller (o.addresses.role_addr ∷ []))) [
        | inr b ↦ rw (update_available_electorate_num, b) h
        | inl b ↦ elim (Option-cases (s.proposals id)) [
          | inl n ↦ rw (update_available_electorate_num, b, n) h
          | inr (p, e) ↦ elim (Bool-cases (is_zero_permission p.strategy_type)) [
            | inl z ↦ rw (update_available_electorate_num, b, e, z) h
            | inr z ↦
                elim (Reply-cases (
                  get_cur_threshold_approve_num evaluate p.strategy_expression p.approve_num
                    p.against_num p.initial_electorate_num num)) [
                      | inr (inl (_, r)) ↦ rw (update_available_electorate_num, b, e, z, r) h
                      | inr (inr r) ↦ rw (update_available_electorate_num, b, e, z, r) h
                      | inl (n, r) ↦
                          rw (update_available_electorate_num, b, e, z, r)
                            (redecide-Tallies evaluate c _ s h
                              (unfold Tallied in stored s id p h e))
                    ]
          ]
        ]
      ]

  end_obj-Tallies :
      (c : Calling) (obj : String) (why : EndReason) (extra : String) (s : Proposals)
      → Tallies s
      → Tallies (end_obj_proposal o c obj why extra s).0
  unfolding end_obj_proposal
  end_obj-Tallies c obj why extra s h =
      let a = o.addresses in
      elim (Bool-cases (
        is_one_of c.current_caller (a.rule_manager_addr ∷ a.role_addr ∷ a.service_mgr_addr ∷ []))) [
          | inr b ↦ rw (end_obj_proposal, b) h
          | inl b ↦ elim (Option-cases (get_proposals_by_obj_id obj s)) [
            | inl n ↦ rw (end_obj_proposal, b, n) h
            | inr (ps, e) ↦ rw (end_obj_proposal, b, e) (end_each-Tallies c why extra ps s h)
          ]
        ]

  -- After every call the numbers of every proposal are those of its ballots, where the administrators
  -- are fewer than 2 ^ 64 and the contracts that are called keep this.
  pub handle-Tallies :
      (evaluate : Evaluate) (c : Calling) (request : Request) (s : Proposals)
      → ((admins : List Role) → o.governance_admins ≡ some admins → length admins < uint64_mod)
      → Tallies s
      → Tallies (handle evaluate o c request s)
  unfolding handle
  handle-Tallies evaluate c (submitting m) s few h = submit_proposal-Tallies evaluate o c m s few h
  handle-Tallies evaluate c (zero_permission_of id) s few h =
      zero_permission-Tallies o manage-Tallies c id s h
  handle-Tallies evaluate c (withdrawing id why) s few h = withdraw-Tallies c id why s h
  handle-Tallies evaluate c (ending_obj obj why extra) s few h = end_obj-Tallies c obj why extra s h
  handle-Tallies evaluate c (voting id ballot why) s few h =
      vote-Tallies evaluate c id ballot why s h
  handle-Tallies evaluate c (locking obj event) s few h = elim (Bool-cases (may_lock o c)) [
    | inr b ↦ rw (handle, lock_low_priority, b) h
    | inl b ↦ rw (handle, lock_low_priority, b) (lock_low-Tallies c obj event s h)
  ]
  handle-Tallies evaluate c (unlocking obj event) s few h =
      unlock_low_priority-Tallies o manage-Tallies c obj event s h
  handle-Tallies evaluate c (resizing id num) s few h = update-Tallies evaluate c id num s h
