-- ===== src/Governance/Tally.antt =====
-- The count of the ballots of a proposal, which setVote of internal/executor/contracts/governance.go
-- keeps.
use model_lib.Base.{
  ℕ, suc, ◌+◌, ◌≤◌, ◌<◌, ◌==◌, ◌≡◌, refl, String, Bool, true, false, ◌||◌, List, [], ◌∷◌, none,
  str_eq, eq_iff, if◌then◌else◌, lookup, length, All, uint64_mod, arith,
}
use model_lib.Governance.State.{Role, Ballot, Proposal}
use model_lib.Governance.Voting.{super_admin_weight}

abbrev pub Ballots : Type 0
Ballots = List (String × Ballot)

-- The number of ballots with the text.
unfoldable pub votes : String → Ballots → ℕ
votes t [] = 0
votes t (b ∷ bs) = (if str_eq b.1.approve t then 1 else 0) + votes t bs

-- Whether a super administrator has a ballot.
unfoldable pub has_super : Ballots → Bool
has_super [] = false
has_super (b ∷ bs) = super_admin_weight == b.1.num || has_super bs

unfoldable pub is_elector : String → List Role → Bool
is_elector addr [] = false
is_elector addr (e ∷ es) = str_eq addr e.id || is_elector addr es

-- Nobody has two ballots.
unfoldable pub Once : Ballots → Type 0
unfolding lookup
Once [] = Unit
Once (b ∷ bs) = (lookup b.0 bs ≡ none) × Once bs

-- Every ballot is an elector's.
abbrev pub ByElectors : List Role → Ballots → Type 0
ByElectors es bs = All (λ b. is_elector b.0 es ≡ true) bs

-- The numbers of a proposal are those of its ballots.
unfoldable pub Tallied : Proposal → Type 0
unfolding votes has_super is_elector Once
Tallied p =
    (p.approve_num ≡ votes "approve" p.ballot_map)
    × (p.against_num ≡ votes "reject" p.ballot_map)
    × (p.approve_num + p.against_num ≡ length p.ballot_map)
    × (p.is_super_admin_voted ≡ has_super p.ballot_map)
    × Once p.ballot_map
    × ByElectors p.electorate_list p.ballot_map
    × length p.electorate_list < uint64_mod

-- The ballots of all but one address.
unfoldable without : String → Ballots → Ballots
without k [] = []
without k (b ∷ bs) = if str_eq b.0 k then without k bs else b ∷ without k bs

lookup-without : (k j : String) (bs : Ballots) → lookup j bs ≡ none → lookup j (without k bs) ≡ none
unfolding lookup without
lookup-without k j [] h = refl
lookup-without k j (b ∷ bs) h = ground (arith, lookup-without k j bs)

without-Once : (k : String) (bs : Ballots) → Once bs → Once (without k bs)
unfolding Once without lookup
without-Once k [] h = tt
without-Once k (b ∷ bs) h = ground (arith, lookup-without k b.0 bs, without-Once k bs)

without-absent :
    (k : String) (bs : Ballots) → lookup k bs ≡ none → length (without k bs) ≡ length bs
unfolding without lookup
without-absent k [] h = refl
without-absent k (b ∷ bs) h = ground (arith, without-absent k bs, eq_iff b.0 k)

-- One ballot at most is lost.
length-without : (k : String) (bs : Ballots) → Once bs → length bs ≤ suc (length (without k bs))
unfolding Once without lookup
length-without k [] h = ground arith
length-without k (b ∷ bs) h = ground (arith, length-without k bs, without-absent k bs, eq_iff b.0 k)

without-ByElectors :
    (e : Role) (es : List Role) (bs : Ballots)
    → ByElectors (e ∷ es) bs
    → ByElectors es (without e.id bs)
unfolding without is_elector
without-ByElectors e es [] h = tt
without-ByElectors e es (b ∷ bs) h = ground (arith, without-ByElectors e es bs, eq_iff b.0 e.id)

-- There are no more ballots than electors.
pub ballots-electors :
    (es : List Role) (bs : Ballots) → Once bs → ByElectors es bs → length bs ≤ length es
unfolding is_elector
ballots-electors [] [] o h = ground arith
ballots-electors [] (b ∷ bs) o h = ground arith
ballots-electors (e ∷ es) bs o h = omega (
  arith,
  length-without e.id bs o,
  ballots-electors es (without e.id bs) (without-Once e.id bs o) (without-ByElectors e es bs h),
)
