-- ===== src/Governance/Bounds.antt =====
-- How far the numbers of votes grow under setVote of internal/executor/contracts/governance.go.
use model_lib.Base.{suc, ◌+◌, ◌≤◌, ◌<◌, ◌≡◌, ap, ◌∙◌, String, length, uint64_mod, arith}
use model_lib.Governance.State.{Proposal, Proposals, ok, Calling}
use model_lib.Governance.Strategy.{Evaluate}
use model_lib.Governance.Voting.{set_vote}
use model_lib.Governance.Tally.{Tallied, ballots-electors}
use model_lib.Governance.Counting.{
  set_vote-accepted, set_vote-Tallied, length-insert, find_elector-id,
}
use model_lib.Governance.Endings.{entered}

-- A vote that is accepted makes the votes in favour and against one more together, without a wrap, and
-- there are never more of them than electors.
pub set_vote-one_more :
    (evaluate : Evaluate) (c : Calling) (p : Proposal) (addr t why : String) (s : Proposals)
    (q : Proposal)
    → Tallied p
    → (set_vote evaluate c p addr t why s).1 ≡ ok q
    → (q.approve_num + q.against_num ≡ suc (p.approve_num + p.against_num))
      × q.approve_num + q.against_num ≤ length q.electorate_list
      × length q.electorate_list < uint64_mod
unfolding Tallied
set_vote-one_more evaluate c p addr t why s q h r =
    let after = set_vote-Tallied evaluate c p addr t why s q h r in
    let (e, p1, live, f, l, w, g, same, st) = set_vote-accepted evaluate c p addr t why s q r in
    let (status, electors, b, ballots) = entered c e t why p p1 w in
    let named : e.id ≡ addr = (find_elector-id addr p.electorate_list e f).0 in
    let more : length q.ballot_map ≡ suc (length p.ballot_map) =
      ap (λ x. length x.ballot_map) same
      ∙ (ap length ballots ∙ length-insert e.id b p.ballot_map (rw named l)) in
    (
      omega (arith, after.2, h.2, more),
      omega (arith, after.2, ballots-electors q.electorate_list q.ballot_map after.4 after.5),
      after.6,
    )
