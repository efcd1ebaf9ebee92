-- ===== src/Governance/Endings.antt =====
-- How votes end: countVote, setVote, endProposal and the locks of
-- internal/executor/contracts/governance.go.
use model_lib.Base.{
  ◌≤◌, ◌≡◌, refl, sym, ap, ◌∙◌, String, Bool, true, false, List, [], ◌∷◌, ◌&&◌, ◌||◌, not, some,
  length, if◌then◌else◌, arith, inl, inr, Bool-cases, str_eq, eq_iff, All, lookup, insert, put_self,
  ltb, lookup-insert,
}
use model_lib.Governance.State.{
  Proposal, Proposals, ProposalStatus, ok, err, approved, rejected, proposed, paused, Role, Ballot,
  Calling, EndReason, end_ended_proposal, vote_end_proposal, admin_repeat_vote, normal_reason,
}
use model_lib.Governance.Strategy.{Evaluate, holds, sub_uint64, make_strategy_decision}
use model_lib.Governance.Indices.{status_is, change_proposal_status}
use model_lib.Governance.Priorities.{priority, highest_of, unlock_low_priority_proposal}
use model_lib.Governance.Voting.{find_elector, with_ballot, set_vote, count_vote, end_vote}
use model_lib.Governance.Handlers.{end_proposal}
use model_lib.Governance.Tally.{Tallied}
use model_lib.Governance.Counting.{find_elector-id, set_vote-accepted}

-- When every available elector has voted, the vote ends: the proposal is approved where the expression
-- of its strategy holds for the votes, and rejected otherwise, if the expression has a truth value and,
-- for a special proposal, a super administrator has voted.
pub count_vote-end :
    (evaluate : Evaluate) (p : Proposal) (s : Proposals) (b : Bool)
    → Tallied p
    → p.available_electorate_num ≡ length p.ballot_map
    → (p.is_special && not p.is_super_admin_voted) ≡ false
    → evaluate p.strategy_expression p.approve_num p.against_num p.initial_electorate_num ≡ holds b
    → ((count_vote evaluate p s).1 ≡ ok true)
      × ((count_vote evaluate p s).0.1.proposals p.id
          ≡ some
              (record p { status = if b then approved else rejected; end_reason = normal_reason }))
unfolding count_vote end_vote change_proposal_status
count_vote-end evaluate p s b h all special value =
    rw (count_vote, special, decided b value)
      (
        refl,
        put_self s.proposals p.id
            (record p { status = if b then approved else rejected; end_reason = normal_reason }),
      )
  where
    decided :
        (b : Bool)
        → evaluate p.strategy_expression p.approve_num p.against_num p.initial_electorate_num
          ≡ holds b
        → make_strategy_decision evaluate p.strategy_expression p.approve_num p.against_num
            p.initial_electorate_num p.available_electorate_num
          ≡ ok (true, b)
    decided true v = rw (make_strategy_decision, v) refl
    decided false v =
        let same : sub_uint64 p.available_electorate_num p.against_num ≡ p.approve_num =
          unfold sub_uint64 Tallied in ground (arith, all, h.2) in
        rw (make_strategy_decision, v, same, v) refl

pub entered :
    (c : Calling) (e : Role) (t why : String) (p q : Proposal)
    → with_ballot c e t why p ≡ some q
    → (q.status ≡ p.status)
      × (q.electorate_list ≡ p.electorate_list)
      × (b : Ballot) × (q.ballot_map ≡ insert e.id b p.ballot_map)
unfolding with_ballot
entered c e t why p q w =
    let b : Ballot = record {
      voter_addr = e.id;
      approve = t;
      num = e.weight;
      reason = why;
      vote_time = c.tx_time_stamp;
    } in
    (ground (arith, w), ground (arith, w), b, ground (arith, w))

-- An administrator whose vote has been counted is refused a second one, whatever it is.
pub set_vote-repeat :
    (evaluate : Evaluate) (c c' : Calling) (p : Proposal) (addr t why t' why' : String)
    (s s' : Proposals) (q : Proposal)
    → (set_vote evaluate c p addr t why s).1 ≡ ok q
    → set_vote evaluate c' q addr t' why' s' ≡ (s', err admin_repeat_vote)
unfolding set_vote with_ballot
set_vote-repeat evaluate c c' p addr t why t' why' s s' q r =
    let (e, p1, live, f, l, w, g, same, st) = set_vote-accepted evaluate c p addr t why s q r in
    let (status, electors, b, ballots) = entered c e t why p p1 w in
    let named : e.id ≡ addr = (find_elector-id addr p.electorate_list e f).0 in
    let open_still : status_is q.status proposed ≡ true =
      ap (λ x. status_is x.status proposed) same ∙ (rw status live) in
    let elector : find_elector addr q.electorate_list ≡ some e =
      ap (λ x. find_elector addr x.electorate_list) same ∙ (rw electors f) in
    let counted : lookup addr q.ballot_map ≡ some b =
      ap (λ x. lookup addr x.ballot_map) same
      ∙ (ap (lookup addr) ballots
          ∙ (lookup-insert e.id addr b p.ballot_map ∙ ground (arith, named, eq_iff e.id addr))) in
    rw (set_vote, open_still, elector, counted) refl

-- A closed proposal can be neither ended nor voted on, and the store stays as it is.
pub closed_lem :
    (evaluate : Evaluate) (c : Calling) (p : Proposal) (addr t why extra : String)
    (because : EndReason) (s : Proposals)
    → s.proposals p.id ≡ some p
    → (status_is p.status approved || status_is p.status rejected) ≡ true
    → (set_vote evaluate c p addr t why s ≡ (s, err vote_end_proposal))
      × (end_proposal p.id because extra s ≡ (s, err end_ended_proposal))
unfolding set_vote end_proposal
closed_lem evaluate c p addr t why extra because s e h =
    (ground (arith, h), rw (end_proposal, e, h) refl)

greater :
    (a b : Proposal)
    → (let next = if ltb (priority a.event_type) (priority b.event_type) then b else a in
        priority a.event_type ≤ priority next.event_type
        × priority b.event_type ≤ priority next.event_type)
greater a b = elim (Bool-cases (ltb (priority a.event_type) (priority b.event_type))) [
  | inl t ↦ rw t (ground (arith, t), omega arith)
  | inr f ↦ rw f (omega arith, ground (arith, f))
]

-- Among the proposals from which it chooses, the one that is unlocked has the greatest priority.
pub highest_of-greatest :
    (best : Proposal) (ps : List Proposal)
    → priority best.event_type ≤ priority (highest_of best ps).event_type
      × All (λ p. priority p.event_type ≤ priority (highest_of best ps).event_type) ps
unfolding highest_of
highest_of-greatest best [] = (omega arith, tt)
highest_of-greatest best (p ∷ ps) =
    let next = if ltb (priority best.event_type) (priority p.event_type) then p else best in
    let (above, all) = highest_of-greatest next ps in
    let chosen : priority best.event_type ≤ priority next.event_type
        × priority p.event_type ≤ priority next.event_type =
      greater best p in
    (omega (arith, chosen.0, above), (omega (arith, chosen.1, above), all))

status-proposed : (st : ProposalStatus) → status_is st proposed ≡ true → st ≡ proposed
status-proposed proposed h = refl
status-proposed approved h = absurd (ground (arith, h))
status-proposed rejected h = absurd (ground (arith, h))
status-proposed paused h = absurd (ground (arith, h))

-- A proposal that is locked and then unlocked is what it was before, as all the others are.
pub unlock-lock :
    (p : Proposal) (why : EndReason) (s : Proposals) (id : String)
    → s.proposals p.id ≡ some p
    → status_is p.status proposed ≡ true
    → (unlock_low_priority_proposal p.id true why (change_proposal_status p paused s).1).0.proposals
        id
      ≡ s.proposals id
unfolding unlock_low_priority_proposal change_proposal_status
unlock-lock p why s id e h =
    let was : p.status ≡ proposed = status-proposed p.status h in
    let same : record p { status = proposed } ≡ p = ap (λ x. record p { status = x }) (sym was) in
    rw (unlock_low_priority_proposal, put_self s.proposals p.id (record p { status = paused }))
      (elim (Bool-cases (str_eq p.id id)) [
        | inr f ↦ rw f refl
        | inl t ↦ rw t (ap some same ∙ (sym e ∙ ap s.proposals ((eq_iff p.id id).0 t)))
      ])
