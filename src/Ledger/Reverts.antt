-- ===== src/Ledger/Reverts.antt =====
-- Snapshots and their reverts (internal/ledger/state_accessor.go and state_changer.go).
use model_lib.Base.{
  ℕ, String, str_eq, delete, if◌then◌else◌, ◌-◌, ◌<◌, ◌≡◌, refl, sym, ap, ◌∙◌, List, [], ◌∷◌, ◌++◌,
  some, arith, All, length, ==_iff, take, drop, take-append, drop-append, Option-cases, inl, inr,
}
use mathlib.Core.List.{append_assoc}
use model_lib.Ledger.State.{
  Kit, Disk, SimpleAccount, SimpleLedger, Change, create_object, suicide_change, balance_change,
  nonce_change, storage_change, code_change, refund_change, add_log_change, add_preimage_change,
}
use model_lib.Ledger.Operations.{found_account, loaded_account, set_account, dirtied}
use model_lib.Ledger.Accounts.{new_account, store_state, write_balance, write_nonce, write_code}
use model_lib.Ledger.Undo.{account_at-set}
use model_lib.Ledger.Snapshots.{
  revert_change, on_account, undirty, without_last, snapshot, find_revision, revert,
  revert_to_snapshot, undo,
}
use model_lib.Ledger.Views.{account_at, Current, Same, Same-refl, Same-trans}
use model_lib.Ledger.Steps.{Undoable}
use model_lib.Ledger.Undone.{Same-shown, Current-shown}
use model_lib.Ledger.Performed.{Operation, operate_all, operate_all-Undoable}

module _ (kit : Kit) (d : Disk) where
  pub reverted :
      (added old : List Change) (l1 l2 : SimpleLedger)
      → l1.changes ≡ added ++ old
      → undo kit d added l1 ≡ some l2
      → revert kit d (length old) l1 ≡ some (record l2 { changes = old })
  unfolding revert
  reverted added old l1 l2 c e =
      let undone : take (length l1.changes - length old) l1.changes ≡ added =
        rw c (take-append added old) in
      let left : drop (length l1.changes - length old) l1.changes ≡ old =
        rw c (drop-append added old) in
      rw (undone, revert, e, left)

  pub find_revision_at :
      (id index : ℕ) (before more : List (ℕ × ℕ))
      → All (λ r. r.0 < id) before
      → find_revision id (before ++ (id, index) ∷ more) ≡ some (before, (id, index))
  unfolding find_revision
  find_revision_at id index [] more a = ground arith
  find_revision_at id index (r ∷ rs) more a = ground (arith, find_revision_at id index rs more a.1)

  revert_change_next :
      (ch : Change) (l m : SimpleLedger)
      → revert_change kit d ch l ≡ some m
      → m.next_revision_id ≡ l.next_revision_id
  unfolding revert_change on_account set_account
  revert_change_next (create_object addr) l m h = ground arith
  revert_change_next (suicide_change addr prev balance) l m h = ground arith
  revert_change_next (balance_change addr prev) l m h = ground arith
  revert_change_next (nonce_change addr prev) l m h = ground arith
  revert_change_next (storage_change addr key prev) l m h = ground arith
  revert_change_next (code_change addr prev) l m h = ground arith
  revert_change_next (refund_change prev) l m h = ground arith
  revert_change_next (add_log_change hash) l m h = ground arith
  revert_change_next (add_preimage_change hash) l m h = ground arith

  undo_next :
      (cs : List Change) (l m : SimpleLedger)
      → undo kit d cs l ≡ some m
      → m.next_revision_id ≡ l.next_revision_id
  unfolding undo
  undo_next [] l m h = ground arith
  undo_next (ch ∷ cs) l m h = elim (Option-cases (revert_change kit d ch l)) [
    | inl e ↦ absurd (ground arith)
    | inr (l1, e) ↦
        undo_next cs (record l1 { dirties = undirty (dirtied ch) l1.dirties }) m (ground arith)
        ∙ revert_change_next ch l l1 e
  ]

  -- A change of the accounts is taken back by a write to the account that is found.
  on_account-Current :
      (addr : String) (f : SimpleAccount → SimpleAccount) (l m : SimpleLedger)
      → ((a : SimpleAccount) → (f a).changer ≡ a.changer)
      → on_account kit d addr f l ≡ some m
      → Current d l
      → Current d m
  unfolding on_account set_account
  on_account-Current addr f l m keep h cur x = elim (Option-cases (found_account d addr l)) [
    | inl e ↦ absurd (ground arith)
    | inr (a, e) ↦
        let same : m ≡ set_account addr (f a) l = ground arith in
        let at : account_at d l addr ≡ a = unfold account_at in rw e in
        let own : (f a).changer ≡ l.changer = keep a ∙ (ap (λ b. b.changer) (sym at) ∙ cur addr) in
        rw same (ground (arith, account_at-set d addr x (f a) l, own, cur x))
  ]

  revert_change-Current :
      (ch : Change) (l m : SimpleLedger)
      → revert_change kit d ch l ≡ some m
      → Current d l
      → Current d m
  unfolding revert_change store_state write_balance write_nonce write_code
  revert_change-Current (create_object addr) l m h cur =
      λ x. unfold account_at found_account loaded_account new_account in ground (arith, h, cur x)
  revert_change-Current (suicide_change addr prev balance) l m h cur =
      on_account-Current addr _ l m (λ a. refl) h cur
  revert_change-Current (balance_change addr prev) l m h cur =
      on_account-Current addr _ l m (λ a. refl) h cur
  revert_change-Current (nonce_change addr prev) l m h cur =
      on_account-Current addr _ l m (λ a. refl) h cur
  revert_change-Current (storage_change addr key prev) l m h cur =
      on_account-Current addr _ l m (λ a. refl) h cur
  revert_change-Current (code_change addr prev) l m h cur =
      on_account-Current addr _ l m (λ a. refl) h cur
  revert_change-Current (refund_change prev) l m h cur =
      let l1 = record l { refund = prev } in
      let same : m ≡ l1 = ground arith in rw same (Current-shown kit d l l1 refl refl refl cur)
  revert_change-Current (add_log_change hash) l m h cur =
      let l1 = record l {
        logs = λ x. if str_eq hash x then without_last (l.logs x) else l.logs x;
        log_size = l.log_size - 1;
      } in
      let same : m ≡ l1 = ground arith in rw same (Current-shown kit d l l1 refl refl refl cur)
  revert_change-Current (add_preimage_change hash) l m h cur =
      let l1 = record l { preimages = delete l.preimages hash } in
      let same : m ≡ l1 = ground arith in rw same (Current-shown kit d l l1 refl refl refl cur)

  undo-Current :
      (cs : List Change) (l m : SimpleLedger) → undo kit d cs l ≡ some m → Current d l → Current d m
  unfolding undo
  undo-Current [] l m h cur = let same : m ≡ l = ground arith in rw same cur
  undo-Current (ch ∷ cs) l m h cur = elim (Option-cases (revert_change kit d ch l)) [
    | inl e ↦ absurd (ground arith)
    | inr (l1, e) ↦
        let l2 = record l1 { dirties = undirty (dirtied ch) l1.dirties } in
        undo-Current cs l2 m (ground arith)
          (Current-shown kit d l1 l2 refl refl refl (revert_change-Current ch l l1 e cur))
  ]

  -- The revert to a snapshot behind steps that can be undone
  pub undone_to_snapshot :
      (l l1 : SimpleLedger)
      → All (λ r. r.0 < l.next_revision_id) l.valid_revisions
      → Undoable kit d (snapshot l).1 l1
      → (l2 : SimpleLedger) × (revert_to_snapshot kit d (snapshot l).0 l1 ≡ some l2)
        × Same d l2 l
        × (l2.changes ≡ l.changes)
        × (l2.valid_revisions ≡ l.valid_revisions)
        × (l2.next_revision_id ≡ l1.next_revision_id)
        × (Current d l1 → Current d l2)
  unfolding snapshot revert_to_snapshot
  undone_to_snapshot l l1 ids u = (
    l2,
    rw (found, revert_to_snapshot, (==_iff id id).1 refl, back),
    Same-trans d l2 m l (Same-shown kit d m l2 refl refl refl refl) (
        Same-trans d m (snapshot l).1 l undone.2
          (Same-shown kit d l (snapshot l).1 refl refl refl refl)),
    refl,
    refl,
    undo_next u.added l1 m undone.1,
    λ cur. Current-shown kit d m l2 refl refl refl (undo-Current u.added l1 m undone.1 cur),
  )
    where
      id : ℕ
      id = l.next_revision_id

      undone : (m : SimpleLedger) × (undo kit d u.added l1 ≡ some m) × Same d m (snapshot l).1
      undone = u.taken_back l1 (Same-refl d l1)

      m : SimpleLedger
      m = undone.0

      l2 : SimpleLedger
      l2 = record m { changes = l.changes; valid_revisions = l.valid_revisions }

      back : revert kit d (length l.changes) l1 ≡ some (record m { changes = l.changes })
      back = reverted u.added l.changes l1 m u.are_added undone.1

      found : find_revision id l1.valid_revisions ≡ some (l.valid_revisions, (id, length l.changes))
      found =
          ap (find_revision id) (
            u.continued.1
            ∙ append_assoc l.valid_revisions ((id, length l.changes) ∷ []) u.continued.0)
          ∙ find_revision_at id (length l.changes) l.valid_revisions u.continued.0 ids

  -- While the accounts that are loaded have the changer that the ledger has now, as they have from the
  -- start of a block until the changer is first replaced: whatever a transaction does after a snapshot
  -- by reads of states and codes, SetState without another changer, SetBalance, AddBalance, SubBalance,
  -- SetNonce, SetCode, Suiside, AddRefund, SubRefund, AddPreimage, AddLog and further snapshots, the
  -- revert to the snapshot ends, and afterwards every address shows the state, the balance and the
  -- nonce that it showed when the snapshot was taken, and the refund, the changes and the revisions are
  -- those of that time. The ids of the revisions that are there lie below the next id. AddState, the
  -- access list and GetCommittedState are not among the operations.
  pub revert_to_snapshot-Same :
      (xs : List Operation) (l l1 : SimpleLedger)
      → Current d l
      → All (λ r. r.0 < l.next_revision_id) l.valid_revisions
      → operate_all kit d xs (snapshot l).1 ≡ some l1
      → (l2 : SimpleLedger) × (revert_to_snapshot kit d (snapshot l).0 l1 ≡ some l2)
        × Same d l2 l
        × (l2.changes ≡ l.changes)
        × (l2.valid_revisions ≡ l.valid_revisions)
  unfolding snapshot
  revert_to_snapshot-Same xs l l1 cur ids h =
      let taken : Current d (snapshot l).1 =
        Current-shown kit d l (snapshot l).1 refl refl refl cur in
      let u = operate_all-Undoable kit d xs (snapshot l).1 l1 taken h in
      let (l2, eq, same, changes, revisions, next, kept) = undone_to_snapshot l l1 ids u in
      (l2, eq, same, changes, revisions)
