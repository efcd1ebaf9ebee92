-- ===== src/Scenarios/Voting.antt =====
-- A vote of three administrators, one of them a super administrator, by the simple majority.
use model_lib.Base.{
  some-injective, ◌+◌, ◌*◌, ◌≤◌, ◌<◌, ◌≡◌, ◌↔◌, refl, pos, String, true, false, List, [], ◌∷◌,
  Option, none, some, ltb, put, length, suc, uint64_mod, subst, arith,
}
use model_lib.Governance.State.{
  node_mgr, proposed, approved, register, no_reason, normal_reason, simple_majority, Role, Ballot,
  Proposal, Proposals, Calling, Addresses, Offices, ok,
}
use model_lib.Governance.Strategy.{Evaluate, holds, get_cur_threshold_approve_num}
use model_lib.Governance.Voting.{set_vote, count_vote}
use model_lib.Governance.Tally.{Tallied}
use model_lib.Governance.Tallies.{Tallies, put-Tallies}
use model_lib.Governance.Requests.{handle, voting}
use model_lib.Governance.Invariant.{handle-Tallies}
use model_lib.Governance.Endings.{count_vote-end}
use model_lib.Governance.Bounds.{set_vote-one_more}
use model_lib.Governance.Thresholds.{IsThreshold, get_cur_threshold_lem}

-- a > 0.5 * t
abbrev majority : Evaluate
majority expression a r t = holds (ltb t (a * 2))

abbrev expression : String
expression = "a > 0.5 * t"

abbrev admins : List Role
admins =
    record { id = "0x1"; weight = 2; is_available = true }
    ∷ record { id = "0x2"; weight = 1; is_available = true }
    ∷ record { id = "0x3"; weight = 1; is_available = true }
    ∷ []

abbrev fresh : Proposal
fresh = record {
  id = "0xf-0";
  typ = node_mgr;
  status = proposed;
  obj_id = "node4";
  obj_last_status = "available";
  ballot_map = [];
  approve_num = 0;
  against_num = 0;
  electorate_list = admins;
  initial_electorate_num = 3;
  available_electorate_num = 3;
  threshold_approve_num = 2;
  event_type = register;
  end_reason = no_reason;
  lock_proposal_id = "";
  is_special = false;
  is_super_admin_voted = false;
  submit_reason = "more nodes";
  withdraw_reason = "";
  strategy_type = simple_majority;
  strategy_expression = expression;
  create_time = pos 5;
  extra = "";
}

abbrev calling : Calling
calling = record {
  caller = "0x1";
  current_caller = "0x1";
  tx_time_stamp = pos 7;
  enable_audit = true;
}

abbrev empty : Proposals
empty = record {
  proposals = λ id. none;
  by_from = λ from. [];
  by_obj = λ obj. [];
  by_type = λ t. [];
  by_status = λ st. [];
  audited = [];
}

abbrev first_ballot : Ballot
first_ballot = record {
  voter_addr = "0x1";
  approve = "approve";
  num = 2;
  reason = "yes";
  vote_time = pos 7;
}

abbrev once_voted : Proposal
once_voted = record fresh {
  ballot_map = ("0x1", first_ballot) ∷ [];
  approve_num = 1;
  is_super_admin_voted = true;
}

abbrev addresses : Addresses
addresses = record {
  appchain_mgr_addr = "0xa1";
  rule_manager_addr = "0xa2";
  node_manager_addr = "0xa3";
  role_addr = "0xa4";
  dapp_mgr_addr = "0xa5";
  service_mgr_addr = "0xa6";
  governance_addr = "0xa7";
  strategy_mgr_addr = "0xa8";
  service_registry_addr = "0xa9";
}

-- The other contracts: every administrator is available, and Manage always succeeds.
abbrev offices : Offices
offices = record {
  addresses = addresses;
  governance_admins = some admins;
  is_any_available_admin = λ addr. some true;
  admin_roles = some ("0x1" ∷ "0x2" ∷ "0x3" ∷ []);
  get_proposal_strategy = λ t. some (simple_majority, expression);
  manage = λ m s. (s, true);
}

abbrev started : Proposals
started = record empty { proposals = put (λ id. none) "0xf-0" fresh }

fresh-Tallied : Tallied fresh
unfolding Tallied
fresh-Tallied = (refl, refl, refl, refl, tt, tt, omega arith)

started-Tallies : Tallies started
unfolding Tallies
started-Tallies = put-Tallies empty fresh (λ id p e. absurd (ground (arith, e))) fresh-Tallied

voted : (set_vote majority calling fresh "0x1" "approve" "yes" started).1 ≡ ok once_voted
unfolding set_vote
voted = refl

handle-Tallies_example :
    Tallies (handle majority offices calling (voting "0xf-0" "approve" "yes") started)
handle-Tallies_example =
    handle-Tallies offices (λ m s h. h) majority calling (voting "0xf-0" "approve" "yes") started
      few started-Tallies
  where
    few : (a : List Role) → Path (Option (List Role)) (some admins) (some a) → length a < uint64_mod
    few a e = subst (λ x. length x < uint64_mod) (some-injective e) (omega arith)

-- Two of the three administrators are still available, and both have voted.
abbrev second_ballot : Ballot
second_ballot = record {
  voter_addr = "0x2";
  approve = "approve";
  num = 1;
  reason = "yes";
  vote_time = pos 8;
}

abbrev twice_voted : Proposal
twice_voted = record fresh {
  ballot_map = ("0x1", first_ballot) ∷ ("0x2", second_ballot) ∷ [];
  approve_num = 2;
  is_super_admin_voted = true;
  available_electorate_num = 2;
}

count_vote-end_example :
    ((count_vote majority twice_voted started).1 ≡ ok true)
    × ((count_vote majority twice_voted started).0.1.proposals "0xf-0"
        ≡ some (record twice_voted { status = approved; end_reason = normal_reason }))
count_vote-end_example = count_vote-end majority twice_voted started true tallied refl refl refl
  where
    tallied : Tallied twice_voted
    tallied =
        unfold Tallied in
        (refl, refl, refl, refl, (refl, (refl, tt)), (refl, (refl, tt)), omega arith)

set_vote-one_more_example :
    (once_voted.approve_num + once_voted.against_num ≡ suc 0)
    × once_voted.approve_num + once_voted.against_num ≤ 3
    × 3 < uint64_mod
set_vote-one_more_example =
    set_vote-one_more majority calling fresh "0x1" "approve" "yes" started once_voted fresh-Tallied
      voted

get_cur_threshold_lem_example :
    (get_cur_threshold_approve_num majority "a > 0.5 * t" 0 1 3 3 ≡ ok 2)
    ↔ IsThreshold majority "a > 0.5 * t" 1 3 3 0 2
get_cur_threshold_lem_example = get_cur_threshold_lem majority "a > 0.5 * t" 1 3 3 0 2
