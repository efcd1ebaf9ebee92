-- ===== src/Governance/StatusIndex.antt =====
-- The ordered maps of ids by status that addProposal and changeProposalStatus of
-- internal/executor/contracts/governance.go keep.
use model_lib.Base.{
  has_key, Distinct, ◌≡◌, ◌↔◌, ◌&&◌, refl, sym, ap, ◌∙◌, subst, String, Bool, true, false, ◌||◌,
  List, [], ◌∷◌, Option, none, some, str_eq, eq_iff, if◌then◌else◌, put, arith, inl, inr,
  Bool-cases,
}
use model_lib.Governance.State.{
  ProposalStatus, proposed, approved, rejected, paused, Proposal, Proposals,
}
use model_lib.Governance.Indices.{
  status_is, set_key, delete_key, put_status, change_proposal_status, add_proposal,
}

has-set_key :
    (id j : String) (xs : List String) → has_key j (set_key id xs) ≡ (str_eq id j || has_key j xs)
unfolding has_key set_key
has-set_key id j [] = refl
has-set_key id j (x ∷ xs) =
    ground (arith, has-set_key id j xs, eq_iff x id, eq_iff id j, eq_iff x j)

has-delete_key :
    (id j : String) (xs : List String)
    → Distinct xs
    → has_key j (delete_key id xs) ≡ (if str_eq id j then false else has_key j xs)
unfolding has_key delete_key Distinct
has-delete_key id j [] d = ground arith
has-delete_key id j (x ∷ xs) d =
    ground (arith, has-delete_key id j xs, eq_iff x id, eq_iff id j, eq_iff x j)

set_key-Distinct : (id : String) (xs : List String) → Distinct xs → Distinct (set_key id xs)
unfolding set_key Distinct
set_key-Distinct id [] d = (refl, tt)
set_key-Distinct id (x ∷ xs) d =
    ground (arith, set_key-Distinct id xs, has-set_key id x xs, eq_iff x id, eq_iff id x)

delete_key-Distinct : (id : String) (xs : List String) → Distinct xs → Distinct (delete_key id xs)
unfolding delete_key Distinct
delete_key-Distinct id [] d = tt
delete_key-Distinct id (x ∷ xs) d =
    ground (arith, delete_key-Distinct id xs, has-delete_key id x xs, eq_iff x id, eq_iff id x)

-- Whether the proposal that is stored has the status.
unfoldable pub stored_with : ProposalStatus → Option Proposal → Bool
stored_with st none = false
stored_with st (some p) = status_is st p.status

-- The maps list every proposal under its status, once, and nothing else.
unfoldable pub Indexed : Proposals → Type 0
unfolding has_key Distinct stored_with
Indexed s =
    ((st : ProposalStatus) → Distinct (s.by_status st))
    × ((st : ProposalStatus) (id : String)
        → has_key id (s.by_status st) ≡ stored_with st (s.proposals id))

status_iff : (a b : ProposalStatus) → (status_is a b ≡ true) ↔ (a ≡ b)
status_iff a b = (same a b, λ e. subst (λ x. status_is a x ≡ true) e (self a))
  where
    self : (a : ProposalStatus) → status_is a a ≡ true
    self proposed = refl
    self approved = refl
    self rejected = refl
    self paused = refl

    same : (a b : ProposalStatus) → status_is a b ≡ true → a ≡ b
    same proposed proposed h = refl
    same approved approved h = refl
    same rejected rejected h = refl
    same paused paused h = refl
    same proposed approved h = absurd (ground (arith, h))
    same proposed rejected h = absurd (ground (arith, h))
    same proposed paused h = absurd (ground (arith, h))
    same approved proposed h = absurd (ground (arith, h))
    same approved rejected h = absurd (ground (arith, h))
    same approved paused h = absurd (ground (arith, h))
    same rejected proposed h = absurd (ground (arith, h))
    same rejected approved h = absurd (ground (arith, h))
    same rejected paused h = absurd (ground (arith, h))
    same paused proposed h = absurd (ground (arith, h))
    same paused approved h = absurd (ground (arith, h))
    same paused rejected h = absurd (ground (arith, h))

module _ (m : ProposalStatus → List String) (d : (st : ProposalStatus) → Distinct (m st))
    (id : String) where
  -- The maps without the id under one status
  removed-Distinct : (st t : ProposalStatus) → Distinct (put_status m st (delete_key id (m st)) t)
  removed-Distinct st t = elim (Bool-cases (status_is st t)) [
    | inl b ↦ rw b (delete_key-Distinct id (m st) (d st))
    | inr b ↦ rw b (d t)
  ]

  has-removed :
      (st t : ProposalStatus) (j : String)
      → has_key j (put_status m st (delete_key id (m st)) t) ≡ (
          if str_eq id j
          then (if status_is st t then false else has_key j (m t))
          else has_key j (m t))
  has-removed st t j = elim (Bool-cases (status_is st t)) [
    | inl b ↦
        let e : st ≡ t = (status_iff st t).0 b in
        rw b (ground (arith, has-delete_key id j (m st) (d st), ap (λ x. has_key j (m x)) e))
    | inr b ↦ rw b (ground arith)
  ]

  -- The maps with the id under one status
  entered-Distinct : (st t : ProposalStatus) → Distinct (put_status m st (set_key id (m st)) t)
  entered-Distinct st t = elim (Bool-cases (status_is st t)) [
    | inl b ↦ rw b (set_key-Distinct id (m st) (d st))
    | inr b ↦ rw b (d t)
  ]

  has-entered :
      (st t : ProposalStatus) (j : String)
      → has_key j (put_status m st (set_key id (m st)) t)
        ≡ ((str_eq id j && status_is st t) || has_key j (m t))
  has-entered st t j = elim (Bool-cases (status_is st t)) [
    | inl b ↦
        let e : st ≡ t = (status_iff st t).0 b in
        rw b (ground (arith, has-set_key id j (m st), ap (λ x. has_key j (m x)) e))
    | inr b ↦ rw b (ground arith)
  ]

-- A change of the status of a proposal that is stored keeps the maps of ids by status exact: every
-- proposal is listed under its status, once, and nothing else is.
pub change_status-Indexed :
    (p : Proposal) (st : ProposalStatus) (s : Proposals)
    → Indexed s
    → s.proposals p.id ≡ some p
    → Indexed (change_proposal_status p st s).1
unfolding Indexed change_proposal_status
change_status-Indexed p st s (d, i) e = (changed-Distinct, changed-has)
  where
    without : ProposalStatus → List String
    without = put_status s.by_status p.status (delete_key p.id (s.by_status p.status))

    changed-Distinct :
        (t : ProposalStatus) → Distinct (put_status without st (set_key p.id (without st)) t)
    changed-Distinct =
        entered-Distinct without (removed-Distinct s.by_status d p.id p.status) p.id st

    changed-has :
        (t : ProposalStatus) (id : String)
        → has_key id (put_status without st (set_key p.id (without st)) t)
          ≡ stored_with t (put s.proposals p.id (record p { status = st }) id)
    changed-has t id = elim (Bool-cases (str_eq p.id id)) [
      | inl b ↦
          let same : s.proposals id ≡ some p = ap s.proposals (sym ((eq_iff p.id id).0 b)) ∙ e in
          ground (
            arith,
            has-entered without (removed-Distinct s.by_status d p.id p.status) p.id st t id,
            has-removed s.by_status d p.id p.status t id,
            i t id,
            ap (stored_with t) same,
            b,
          )
      | inr b ↦ ground (
        arith,
        has-entered without (removed-Distinct s.by_status d p.id p.status) p.id st t id,
        has-removed s.by_status d p.id p.status t id,
        i t id,
        b,
      )
    ]

-- So does a new proposal under an id that is not taken.
pub add-Indexed :
    (p : Proposal) (s : Proposals)
    → Indexed s
    → s.proposals p.id ≡ none
    → Indexed (add_proposal p s)
unfolding Indexed add_proposal
add-Indexed p s (d, i) e = (entered-Distinct s.by_status d p.id p.status, new-has)
  where
    new-has :
        (t : ProposalStatus) (id : String)
        → has_key id (put_status s.by_status p.status (set_key p.id (s.by_status p.status)) t)
          ≡ stored_with t (put s.proposals p.id p id)
    new-has t id = elim (Bool-cases (str_eq p.id id)) [
      | inl b ↦
          let free : s.proposals id ≡ none = ap s.proposals (sym ((eq_iff p.id id).0 b)) ∙ e in
          ground (
            arith,
            has-entered s.by_status d p.id p.status t id,
            i t id,
            ap (stored_with t) free,
            b,
          )
      | inr b ↦ ground (arith, has-entered s.by_status d p.id p.status t id, i t id, b)
    ]
