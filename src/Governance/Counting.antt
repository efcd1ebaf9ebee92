-- ===== src/Governance/Counting.antt =====
-- What setVote of internal/executor/contracts/governance.go keeps of a proposal, and whom it refuses.
use model_lib.Base.{
  ℕ, suc, ◌+◌, ◌%◌, ◌≤◌, ◌==◌, ◌≡◌, refl, sym, ap, ◌∙◌, String, true, false, List, [], ◌∷◌, none,
  some, str_eq, eq_iff, if◌then◌else◌, lookup, insert, length, put, uint64_mod, ◌⊎◌, subst, arith,
  Bool-cases, Option-cases, inl, inr,
}
use model_lib.Governance.State.{
  Role, Ballot, Proposal, proposed, Proposals, Reply, ok, err, panicked, GovernanceError, Calling,
}
use model_lib.Governance.Strategy.{Evaluate, get_cur_threshold_approve_num}
use model_lib.Governance.Indices.{status_is}
use model_lib.Governance.Voting.{super_admin_weight, find_elector, with_ballot, set_vote}
use model_lib.Governance.Tally.{
  Ballots, votes, has_super, is_elector, Once, ByElectors, Tallied, ballots-electors,
}

pub find_elector-id :
    (a : String) (es : List Role) (e : Role)
    → find_elector a es ≡ some e
    → (e.id ≡ a) × (is_elector a es ≡ true)
unfolding find_elector is_elector
find_elector-id a [] e h = ground (arith, h)
find_elector-id a (x ∷ es) e h = ground (arith, find_elector-id a es e, eq_iff a x.id)

votes-insert :
    (t k : String) (b : Ballot) (bs : Ballots)
    → lookup k bs ≡ none
    → votes t (insert k b bs) ≡ votes t bs + (if str_eq b.approve t then 1 else 0)
unfolding votes lookup insert
votes-insert t k b [] h = ground arith
votes-insert t k b (x ∷ bs) h = ground (arith, votes-insert t k b bs)

pub length-insert :
    (k : String) (b : Ballot) (bs : Ballots)
    → lookup k bs ≡ none
    → length (insert k b bs) ≡ suc (length bs)
unfolding lookup insert
length-insert k b [] h = refl
length-insert k b (x ∷ bs) h = ground (arith, length-insert k b bs)

has_super-insert :
    (k : String) (b : Ballot) (bs : Ballots)
    → lookup k bs ≡ none
    → has_super (insert k b bs) ≡ (if super_admin_weight == b.num then true else has_super bs)
unfolding has_super lookup insert
has_super-insert k b [] h = ground arith
has_super-insert k b (x ∷ bs) h = ground (arith, has_super-insert k b bs)

lookup-insert-other :
    (k j : String) (b : Ballot) (bs : Ballots)
    → lookup j bs ≡ none
    → str_eq k j ≡ false
    → lookup j (insert k b bs) ≡ none
unfolding lookup insert
lookup-insert-other k j b [] h n = ground arith
lookup-insert-other k j b (x ∷ bs) h n = ground (arith, lookup-insert-other k j b bs)

insert-Once :
    (k : String) (b : Ballot) (bs : Ballots) → lookup k bs ≡ none → Once bs → Once (insert k b bs)
unfolding Once lookup insert
insert-Once k b [] h o = (refl, tt)
insert-Once k b (x ∷ bs) h o =
    ground (arith, insert-Once k b bs, lookup-insert-other k x.0 b bs, eq_iff k x.0, eq_iff x.0 k)

insert-ByElectors :
    (k : String) (b : Ballot) (es : List Role) (bs : Ballots)
    → lookup k bs ≡ none
    → is_elector k es ≡ true
    → ByElectors es bs
    → ByElectors es (insert k b bs)
unfolding lookup insert
insert-ByElectors k b es [] h e o = (e, tt)
insert-ByElectors k b es (x ∷ bs) h e o = ground (arith, insert-ByElectors k b es bs)

-- The ballot that is entered
abbrev ballot_of : Calling → Role → String → String → Ballot
ballot_of c e approve reason = record {
  voter_addr = e.id;
  approve = approve;
  num = e.weight;
  reason = reason;
  vote_time = c.tx_time_stamp;
}

abbrev one_if : String → String → ℕ
one_if s t = if str_eq s t then 1 else 0

-- The sums of a proposal in which one more elector has voted.
entered-Tallied :
    (e : Role) (b : Ballot) (p q : Proposal)
    → Tallied p
    → lookup e.id p.ballot_map ≡ none
    → is_elector e.id p.electorate_list ≡ true
    → q.ballot_map ≡ insert e.id b p.ballot_map
    → q.electorate_list ≡ p.electorate_list
    → q.is_super_admin_voted
      ≡ (if super_admin_weight == b.num then true else p.is_super_admin_voted)
    → one_if b.approve "approve" + one_if b.approve "reject" ≡ 1
    → q.approve_num ≡ (p.approve_num + one_if b.approve "approve") % uint64_mod
    → q.against_num ≡ (p.against_num + one_if b.approve "reject") % uint64_mod
    → Tallied q
unfolding Tallied
entered-Tallied e b p q h l i ballots electors super one in_favour against =
    let entered = insert e.id b p.ballot_map in
    let once : Once entered = insert-Once e.id b p.ballot_map l h.4 in
    let by_electors : ByElectors p.electorate_list entered =
      insert-ByElectors e.id b p.electorate_list p.ballot_map l i h.5 in
    let few : length entered ≤ length p.electorate_list =
      ballots-electors p.electorate_list entered once by_electors in
    let more : length entered ≡ suc (length p.ballot_map) = length-insert e.id b p.ballot_map l in
    rw (ballots, electors)
      (
        omega (arith, votes-insert "approve" e.id b p.ballot_map l),
        omega (arith, votes-insert "reject" e.id b p.ballot_map l),
        omega arith,
        (super ∙ rw (h.3) (sym (has_super-insert e.id b p.ballot_map l))),
        once,
        by_electors,
        h.6,
      )

not_both : (t : String) → str_eq t "approve" ≡ true → str_eq t "reject" ≡ false
not_both t h = rw ((eq_iff t "approve").0 h) refl

with_ballot-Tallied :
    (c : Calling) (e : Role) (t why : String) (p q : Proposal)
    → Tallied p
    → lookup e.id p.ballot_map ≡ none
    → is_elector e.id p.electorate_list ≡ true
    → with_ballot c e t why p ≡ some q
    → Tallied q
unfolding with_ballot Tallied
with_ballot-Tallied c e t why p q h l i w =
    let b = ballot_of c e t why in
    let few : length p.ballot_map ≤ length p.electorate_list =
      ballots-electors p.electorate_list p.ballot_map h.4 h.5 in
    entered-Tallied e b p q h l i (ground (arith, w)) (ground (arith, w)) (ground (arith, w))
      (ground (arith, w, not_both t)) (ground (arith, w, few, h.2, h.6, not_both t))
      (ground (arith, w, few, h.2, h.6, not_both t))

pub Reply-cases {ℓ} :
    {A : Type ℓ} (r : Reply A)
    → ((a : A) × (r ≡ ok a)) ⊎ (((e : GovernanceError) × (r ≡ err e)) ⊎ (r ≡ panicked))
Reply-cases (ok a) = inl (a, refl)
Reply-cases (err e) = inr (inl (e, refl))
Reply-cases panicked = inr (inr refl)

pub ok-injective : {p q : Proposal} → Path (Reply Proposal) (ok p) (ok q) → p ≡ q
ok-injective {p = p} h = ap (λ r. elim r [ ok x ↦ x | _ ↦ p ]) h

-- What an accepted vote has been through: the elector, the ballot, and the threshold.
pub set_vote-accepted :
    (evaluate : Evaluate) (c : Calling) (p : Proposal) (addr t why : String) (s : Proposals)
    (q : Proposal)
    → (set_vote evaluate c p addr t why s).1 ≡ ok q
    → (e : Role) × (p1 : Proposal) × (status_is p.status proposed ≡ true)
      × (find_elector addr p.electorate_list ≡ some e)
      × (lookup addr p.ballot_map ≡ none)
      × (with_ballot c e t why p ≡ some p1)
      × (get_cur_threshold_approve_num evaluate p1.strategy_expression p1.approve_num p1.against_num
            p1.initial_electorate_num p1.available_electorate_num
          ≡ ok q.threshold_approve_num)
      × (q ≡ record p1 { threshold_approve_num = q.threshold_approve_num })
      × ((set_vote evaluate c p addr t why s).0 ≡ record s { proposals = put s.proposals q.id q })
unfolding set_vote
set_vote-accepted evaluate c p addr t why s q h = elim (Bool-cases (status_is p.status proposed)) [
  | inr closed ↦ absurd (ground (arith, h, closed))
  | inl live ↦ elim (Option-cases (find_elector addr p.electorate_list)) [
    | inl n ↦ absurd (ground (arith, h, live, n))
    | inr (e, f) ↦ elim (Option-cases (lookup addr p.ballot_map)) [
      | inr (b, l) ↦ absurd (ground (arith, h, live, f, l))
      | inl l ↦ elim (Option-cases (with_ballot c e t why p)) [
        | inl n ↦ absurd (ground (arith, h, live, f, l, n))
        | inr (p1, w) ↦
            elim (Reply-cases (
              get_cur_threshold_approve_num evaluate p1.strategy_expression p1.approve_num
                p1.against_num p1.initial_electorate_num p1.available_electorate_num)) [
                  | inr (inl (_, n)) ↦ absurd (ground (arith, h, live, f, l, w, n))
                  | inr (inr n) ↦ absurd (ground (arith, h, live, f, l, w, n))
                  | inl (n, g) ↦
                      let same : record p1 { threshold_approve_num = n } ≡ q =
                        ok-injective (ground (arith, h, live, f, l, w, g)) in
                      (
                        e,
                        p1,
                        live,
                        f,
                        l,
                        w,
                        g ∙ ap (λ x. ok x.threshold_approve_num) same,
                        subst
                            (λ x. x ≡ record p1 { threshold_approve_num = x.threshold_approve_num })
                            same refl,
                        rw (live, f, l, w, g)
                            (ap (λ x. record s { proposals = put s.proposals x.id x }) same),
                      )
                ]
      ]
    ]
  ]
]

-- setVote keeps the sums of a proposal.
pub set_vote-Tallied :
    (evaluate : Evaluate) (c : Calling) (p : Proposal) (addr t why : String) (s : Proposals)
    (q : Proposal)
    → Tallied p
    → (set_vote evaluate c p addr t why s).1 ≡ ok q
    → Tallied q
unfolding Tallied
set_vote-Tallied evaluate c p addr t why s q h r =
    let (e, p1, live, f, l, w, g, same, stored) = set_vote-accepted evaluate c p addr t why s q r in
    let (named, elected) = find_elector-id addr p.electorate_list e f in
    subst Tallied (sym same)
      (with_ballot-Tallied c e t why p p1 h (rw named l) (rw named elected) w)

-- A refused vote leaves the store as it is.
pub set_vote-cases :
    (evaluate : Evaluate) (c : Calling) (p : Proposal) (addr t why : String) (s : Proposals)
    → ((q : Proposal) × ((set_vote evaluate c p addr t why s).1 ≡ ok q))
      ⊎ ((set_vote evaluate c p addr t why s).0 ≡ s)
set_vote-cases evaluate c p addr t why s =
    elim (Reply-cases (set_vote evaluate c p addr t why s).1) [
      | inl (q, h) ↦ inl (q, h)
      | inr (inl (e, h)) ↦ inr (unfold set_vote in ground (arith, h))
      | inr (inr h) ↦ inr (unfold set_vote in ground (arith, h))
    ]
