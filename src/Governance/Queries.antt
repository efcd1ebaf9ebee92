-- ===== src/Governance/Queries.antt =====
-- The queries of internal/executor/contracts/governance.go that read one proposal.
use model_lib.Base.{
  ℕ, ◌+◌, ◌≡◌, refl, sym, ap, ◌∙◌, String, List, [], ◌∷◌, none, some, str_eq, if◌then◌else◌, lookup,
  length, arith,
}
use model_lib.Governance.State.{
  Ballot, Proposal, Proposals, Reply, ok, err, panicked, nonexistent_proposal, not_vote_admin,
  Offices,
}
use model_lib.Governance.Tally.{Ballots, votes, Tallied}
use model_lib.Governance.Tallies.{Tallies}
use model_lib.Governance.Kept.{stored}

-- The head of every query: the proposal, or the error that it does not exist
unfoldable pub queried {ℓ} : {A : Type ℓ} → (Proposal → Reply A) → String → Proposals → Reply A
queried f id s = elim (s.proposals id) [ none ↦ err nonexistent_proposal | some p ↦ f p ]

-- GetProposal
unfoldable pub get_proposal : String → Proposals → Reply Proposal
unfolding queried
get_proposal = queried ok

-- GetBallot
unfoldable pub get_ballot : String → String → Proposals → Reply Ballot
unfolding queried lookup
get_ballot voter =
    queried (λ p. elim (lookup voter p.ballot_map) [ none ↦ err not_vote_admin | some b ↦ ok b ])

-- The ballots with the text, the loop of GetApprove and GetAgainst
unfoldable pub ballots_with : String → Ballots → Ballots
ballots_with t [] = []
ballots_with t (b ∷ bs) = if str_eq b.1.approve t then b ∷ ballots_with t bs else ballots_with t bs

-- GetApprove and GetAgainst
unfoldable pub get_approve : String → Proposals → Reply Ballots
unfolding queried ballots_with
get_approve = queried (λ p. ok (ballots_with "approve" p.ballot_map))

unfoldable pub get_against : String → Proposals → Reply Ballots
unfolding queried ballots_with
get_against = queried (λ p. ok (ballots_with "reject" p.ballot_map))

-- strconv.Itoa(int(n)): a number of uint64 read as int, from which the text is made
unfoldable pub get_approve_num : String → Proposals → Reply ℕ
unfolding queried
get_approve_num = queried (λ p. ok p.approve_num)

unfoldable pub get_against_num : String → Proposals → Reply ℕ
unfolding queried
get_against_num = queried (λ p. ok p.against_num)

unfoldable pub get_primary_electorate_num : String → Proposals → Reply ℕ
unfolding queried
get_primary_electorate_num = queried (λ p. ok p.initial_electorate_num)

unfoldable pub get_available_electorate_num : String → Proposals → Reply ℕ
unfolding queried
get_available_electorate_num = queried (λ p. ok p.available_electorate_num)

-- GetVoted and GetVotedNum
unfoldable pub get_voted : String → Proposals → Reply Ballots
unfolding queried
get_voted = queried (λ p. ok p.ballot_map)

unfoldable pub get_voted_num : String → Proposals → Reply ℕ
unfolding queried
get_voted_num = queried (λ p. ok (length p.ballot_map))

-- The administrators without a ballot, the loop of getUnvote
unfoldable pub not_voted : List String → Ballots → List String
unfolding lookup
not_voted [] bs = []
not_voted (a ∷ admins) bs = elim (lookup a bs) [
  | none ↦ a ∷ not_voted admins bs
  | some _ ↦ not_voted admins bs
]

-- GetUnvote and GetUnvoteNum, with getUnvote. Every error has the code of a proposal that does not exist.
unfoldable pub get_unvote : Offices → String → Proposals → Reply (List String)
unfolding queried not_voted
get_unvote o = queried (λ p. elim o.admin_roles [
  | none ↦ err nonexistent_proposal
  | some admins ↦ ok (not_voted admins p.ballot_map)
])

unfoldable pub get_unvote_num : Offices → String → Proposals → Reply ℕ
unfolding get_unvote
get_unvote_num o id s = elim (get_unvote o id s) [
  | ok admins ↦ ok (length admins)
  | err e ↦ err e
  | panicked ↦ panicked
]

length-ballots_with : (t : String) (bs : Ballots) → length (ballots_with t bs) ≡ votes t bs
unfolding ballots_with votes
length-ballots_with t [] = refl
length-ballots_with t (b ∷ bs) = ground (arith, length-ballots_with t bs)

-- The answers of a query that counts and of the query that lists agree.
unfoldable pub Counted {ℓ} : {A : Type ℓ} → Reply (List A) → Reply ℕ → Type 0
Counted (ok xs) (ok n) = length xs ≡ n
Counted (err e) (err f) = e ≡ f
Counted _ _ = ⊥

-- For a proposal that exists, the queries that count votes agree with those that list them: the votes in
-- favour, the votes against and all the votes, which are as many as the first two together.
pub counts_lem :
    (id : String) (s : Proposals) (p : Proposal)
    → Tallies s
    → s.proposals id ≡ some p
    → Counted (get_approve id s) (get_approve_num id s)
      × Counted (get_against id s) (get_against_num id s)
      × Counted (get_voted id s) (get_voted_num id s)
      × (get_voted_num id s ≡ ok (p.approve_num + p.against_num))
unfolding Counted get_approve get_against get_approve_num get_against_num get_voted get_voted_num
    Tallied
counts_lem id s p h e =
    let t = stored s id p h e in
    (
      rw (Counted, queried, e) (length-ballots_with "approve" p.ballot_map ∙ sym t.0),
      rw (Counted, queried, e) (length-ballots_with "reject" p.ballot_map ∙ sym t.1),
      rw (Counted, queried, e) refl,
      rw (queried, e) (ap ok (sym t.2)),
    )
