-- ===== src/Governance/Indices.antt =====
-- addProposal, changeProposalStatus and the queries over the ordered maps of ids, of
-- internal/executor/contracts/governance.go.
use Prim.Native.Char.{Char}
use model_lib.Base.{
  ℕ, ◌==◌, String, Bool, true, false, List, [], ◌∷◌, ◌++◌, Option, none, some, str_eq,
  if◌then◌else◌, put, split_text,
}
use model_lib.Governance.State.{
  ProposalType, appchain_mgr, rule_mgr, node_mgr, service_mgr, role_mgr, proposal_strategy_mgr,
  dapp_mgr, bns_mgr, other_module, ProposalStatus, proposed, approved, rejected, paused, Proposal,
  Audited, about_chain, about_node, about_none, Proposals, Reply, ok, err, internal_err, Calling,
}

abbrev pub status_number : ProposalStatus → ℕ
status_number proposed = 0
status_number approved = 1
status_number rejected = 2
status_number paused = 3

abbrev pub status_is : ProposalStatus → ProposalStatus → Bool
status_is a b = status_number a == status_number b

abbrev type_number : ProposalType → ℕ
type_number appchain_mgr = 0
type_number rule_mgr = 1
type_number node_mgr = 2
type_number service_mgr = 3
type_number role_mgr = 4
type_number proposal_strategy_mgr = 5
type_number dapp_mgr = 6
type_number bns_mgr = 7
type_number (other_module _) = 8

abbrev pub type_is : ProposalType → ProposalType → Bool
type_is (other_module a) (other_module b) = str_eq a b
type_is a b = type_number a == type_number b

-- orderedmap's Set on the keys
unfoldable pub set_key : String → List String → List String
set_key id [] = id ∷ []
set_key id (x ∷ xs) = elim (str_eq x id) [ true ↦ x ∷ xs | false ↦ x ∷ set_key id xs ]

-- orderedmap's Delete on the keys
unfoldable pub delete_key : String → List String → List String
delete_key id [] = []
delete_key id (x ∷ xs) = elim (str_eq x id) [ true ↦ xs | false ↦ x ∷ delete_key id xs ]

abbrev pub put_status :
    (ProposalStatus → List String) → ProposalStatus → List String → ProposalStatus → List String
put_status m s ids t = if status_is s t then ids else m t

abbrev pub dash : Char
dash = "-"

abbrev pub first_of : List String → String
first_of [] = ""
first_of (x ∷ xs) = x

-- addProposal
unfoldable pub add_proposal : Proposal → Proposals → Proposals
unfolding set_key split_text
add_proposal p s =
    let from = first_of (split_text dash p.id) in
    record s {
      proposals = put s.proposals p.id p;
      by_from = λ x. if str_eq from x then set_key p.id (s.by_from x) else s.by_from x;
      by_obj = λ x. if str_eq p.obj_id x then set_key p.id (s.by_obj x) else s.by_obj x;
      by_type = λ t. if type_is p.typ t then set_key p.id (s.by_type t) else s.by_type t;
      by_status = put_status s.by_status p.status (set_key p.id (s.by_status p.status));
    }

-- changeProposalStatus: the proposal with its new status, and the store
unfoldable pub change_proposal_status : Proposal → ProposalStatus → Proposals → Proposal × Proposals
unfolding set_key delete_key
change_proposal_status p new s =
    let m1 = put_status s.by_status p.status (delete_key p.id (s.by_status p.status)) in
    let m2 = put_status m1 new (set_key p.id (m1 new)) in
    let p1 = record p { status = new } in
    (p1, record s { proposals = put s.proposals p.id p1; by_status = m2 })

-- The loop of the queries: none where an id has no proposal
unfoldable pub collect_proposals : List String → Proposals → Option (List Proposal)
collect_proposals [] s = some []
collect_proposals (id ∷ ids) s =
    let rest = collect_proposals ids s in
    elim (s.proposals id) [
      | none ↦ none
      | some p ↦ elim rest [ none ↦ none | some ps ↦ some (p ∷ ps) ]
    ]

-- getProposalsByObjId, getProposalsByFrom, getProposalsByType and getProposalsByStatus
unfoldable pub get_proposals_by_obj_id : String → Proposals → Option (List Proposal)
unfolding collect_proposals
get_proposals_by_obj_id obj s = collect_proposals (s.by_obj obj) s

unfoldable pub get_proposals_by_from : String → Proposals → Option (List Proposal)
unfolding collect_proposals
get_proposals_by_from from s = collect_proposals (s.by_from from) s

unfoldable pub get_proposals_by_type : ProposalType → Proposals → Option (List Proposal)
unfolding collect_proposals
get_proposals_by_type t s = collect_proposals (s.by_type t) s

unfoldable pub get_proposals_by_status : ProposalStatus → Proposals → Option (List Proposal)
unfolding collect_proposals
get_proposals_by_status st s = collect_proposals (s.by_status st) s

unfoldable pub with_status : ProposalStatus → List Proposal → List Proposal
with_status st [] = []
with_status st (p ∷ ps) = if status_is st p.status then p ∷ with_status st ps else with_status st ps

-- getProposalsByObjStatus
unfoldable pub get_proposals_by_obj_status :
    String → ProposalStatus → Proposals → Option (List Proposal)
unfolding get_proposals_by_obj_id with_status
get_proposals_by_obj_status obj st s = elim (get_proposals_by_obj_id obj s) [
  | none ↦ none
  | some ps ↦ some (with_status st ps)
]

-- GetNotClosedProposals: the proposals that are proposed, then those that are paused
unfoldable pub get_not_closed_proposals : Proposals → Option (List Proposal)
unfolding get_proposals_by_status
get_not_closed_proposals s = elim (get_proposals_by_status proposed s) [
  | none ↦ none
  | some ps ↦ elim (get_proposals_by_status paused s) [ none ↦ none | some qs ↦ some (ps ++ qs) ]
]

abbrev colon : Char
colon = ":"

unfoldable pub about : Proposal → Audited
unfolding split_text
about p = about_typ p.typ
  where
    about_typ : ProposalType → Audited
    about_typ appchain_mgr = about_chain p p.obj_id
    about_typ rule_mgr = about_chain p (first_of (split_text colon p.obj_id))
    about_typ service_mgr = about_chain p (first_of (split_text colon p.obj_id))
    about_typ node_mgr = about_node p p.obj_id
    about_typ _ = about_none p

-- postAuditProposalEvent behind its switch; false for its error
unfoldable pub post_audit_proposal_event : Calling → String → Proposals → Proposals × Bool
unfolding about
post_audit_proposal_event c id s =
    if c.enable_audit
    then elim (s.proposals id) [
      | none ↦ (s, false)
      | some p ↦ (record s { audited = about p ∷ s.audited }, true)
    ]
    else (s, true)

-- The answer at the end of a handler: the audit event, then the result.
unfoldable pub audited_reply {ℓ} :
    {A : Type ℓ} → Calling → String → A → Proposals → Proposals × Reply A
unfolding post_audit_proposal_event
audited_reply c id a s =
    let (s1, posted) = post_audit_proposal_event c id s in
    if posted then (s1, ok a) else (s1, err internal_err)
