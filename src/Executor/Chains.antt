-- ===== src/Executor/Chains.antt =====
-- The snapshots that the state ledger of internal/ledger holds: each one can be reverted to.
use model_lib.Base.{
  ℕ, ◌+◌, ◌<◌, ◌≤◌, ◌≡◌, refl, sym, subst, ℤ, String, List, [], ◌∷◌, ◌++◌, some, arith, All,
  All-map, length,
}
use model_lib.Ledger.State.{Kit, Disk, SimpleLedger}
use model_lib.Ledger.Operations.{
  append_by, get_or_create, get_balance, set_balance, change_balance, set_account, append,
}
use model_lib.Ledger.Snapshots.{snapshot, revert_to_snapshot}
use model_lib.Ledger.Views.{Current, balance_at, Same-refl}
use model_lib.Ledger.Steps.{Undoable, Undoable-trans, quiet, unchanged}
use model_lib.Ledger.Created.{get_or_create-Undoable}
use model_lib.Ledger.Undone.{Same-shown, Current-shown}
use model_lib.Ledger.Performed.{set_balance-Undoable}
use model_lib.Ledger.Reverts.{undone_to_snapshot}

-- PrepareEVM, but for the index and the access list
unfoldable pub prepare_evm : String → ℕ → SimpleLedger → SimpleLedger
prepare_evm hash index l = record l { thash = hash }

module _ (kit : Kit) (d : Disk) where
  -- The revisions have ids below the next one.
  abbrev pub Ids : SimpleLedger → Type 0
  Ids l = All (λ r. r.0 < l.next_revision_id) l.valid_revisions

  Ids-kept :
      (l l1 : SimpleLedger)
      → l.next_revision_id ≤ l1.next_revision_id
      → l1.valid_revisions ≡ l.valid_revisions
      → Ids l
      → Ids l1
  Ids-kept l l1 n e ids =
      subst (All (λ r. r.0 < l1.next_revision_id)) (sym e)
        (All-map (λ r h. omega (arith, n, h)) l.valid_revisions ids)

  -- Each snapshot was taken in its state under its id, and the steps since then can be undone.
  unfoldable pub Chain : List (ℕ × SimpleLedger) → SimpleLedger → Type 0
  Chain [] l = Unit
  Chain ((id, t) ∷ r) l =
      (id ≡ t.next_revision_id)
      × Ids t
      × (t.next_revision_id ≤ l.next_revision_id)
      × Undoable kit d (snapshot t).1 l
      × Chain r t

  -- A step that can be undone and leaves the ids
  pub Chain-step :
      (r : List (ℕ × SimpleLedger)) (l l1 : SimpleLedger)
      → l.next_revision_id ≤ l1.next_revision_id
      → Undoable kit d l l1
      → Chain r l
      → Chain r l1
  unfolding Chain
  Chain-step [] l l1 n u c = tt
  Chain-step ((id, t) ∷ r) l l1 n u (e, ids, below, v, c) =
      (e, ids, omega (arith, n, below), Undoable-trans kit d (snapshot t).1 l l1 v u, c)

  get_or_create_next :
      (addr : String) (l : SimpleLedger)
      → ((get_or_create d addr l).1.next_revision_id ≡ l.next_revision_id)
        × ((get_or_create d addr l).1.valid_revisions ≡ l.valid_revisions)
  unfolding get_or_create append set_account
  get_or_create_next addr l = (ground arith, ground arith)

  Chain-below :
      (later : List (ℕ × SimpleLedger)) (id : ℕ) (t : SimpleLedger) (r : List (ℕ × SimpleLedger))
      (l : SimpleLedger)
      → Chain (later ++ (id, t) ∷ r) l
      → (id ≡ t.next_revision_id)
        × Ids t
        × (t.next_revision_id ≤ l.next_revision_id)
        × Undoable kit d (snapshot t).1 l
        × Chain r t
  unfolding Chain snapshot
  Chain-below [] id t r l c = c
  Chain-below ((i, m) ∷ later) id t r l (e, ids, below, u, c) =
      let (e1, ids1, below1, u1, c1) = Chain-below later id t r m c in
      let taken =
        quiet kit d m (snapshot m).1 refl ((m.next_revision_id, length m.changes) ∷ [], refl)
          (Same-shown kit d m (snapshot m).1 refl refl refl refl)
          (Current-shown kit d m (snapshot m).1 refl refl refl) in
      (
        e1,
        ids1,
        omega (arith, below, below1),
        Undoable-trans kit d (snapshot t).1 m l u1
            (Undoable-trans kit d m (snapshot m).1 l taken u),
        c1,
      )

  pub reverted-Chain :
      (later : List (ℕ × SimpleLedger)) (id : ℕ) (r : List (ℕ × SimpleLedger)) (t l : SimpleLedger)
      → Current d l
      → Chain (later ++ (id, t) ∷ r) l
      → (l2 : SimpleLedger) × (revert_to_snapshot kit d id l ≡ some l2)
        × (Ids l2 × Current d l2 × Chain r l2)
        × ((x : String) → balance_at d l2 x ≡ balance_at d t x)
  unfolding snapshot
  reverted-Chain later id r t l cur c =
      let (e, ids, below, u, rest) = Chain-below later id t r l c in
      let (l2, eq, same, changes, revisions, next, kept) = undone_to_snapshot kit d t l ids u in
      (
        l2,
        subst (λ y. revert_to_snapshot kit d y l ≡ some l2) (sym e) eq,
        (
          Ids-kept t l2 (omega (arith, next, below)) revisions ids,
          kept cur,
          Chain-step r t l2 (omega (arith, next, below))
              (quiet kit d t l2 changes (unchanged t l2 revisions) same (λ _. kept cur)) rest,
        ),
        same.balances,
      )

  pub get_balance-Chain :
      (a : String) (r : List (ℕ × SimpleLedger)) (l : SimpleLedger)
      → Ids l × Current d l × Chain r l
      → Ids (get_balance d a l).1 × Current d (get_balance d a l).1 × Chain r (get_balance d a l).1
  unfolding get_balance
  get_balance-Chain a r l (ids, cur, c) =
      let l1 = (get_balance d a l).1 in
      let (next, revisions) = get_or_create_next a l in
      (
        Ids-kept l l1 (omega (arith, next)) revisions ids,
        (get_or_create-Undoable kit d a l).keeps cur,
        Chain-step r l l1 (omega (arith, next)) (get_or_create-Undoable kit d a l) c,
      )

  set_balance_next :
      (a : String) (b : ℤ) (l : SimpleLedger)
      → ((set_balance kit d a b l).next_revision_id ≡ l.next_revision_id)
        × ((set_balance kit d a b l).valid_revisions ≡ l.valid_revisions)
  unfolding set_balance change_balance append append_by set_account
  set_balance_next a b l =
      let (next, revisions) = get_or_create_next a l in
      (ground (arith, next), ground (arith, revisions))

  pub set_balance-Chain :
      (a : String) (b : ℤ) (r : List (ℕ × SimpleLedger)) (l : SimpleLedger)
      → Ids l × Current d l × Chain r l
      → Ids (set_balance kit d a b l)
        × Current d (set_balance kit d a b l)
        × Chain r (set_balance kit d a b l)
  set_balance-Chain a b r l (ids, cur, c) =
      let l1 = set_balance kit d a b l in
      let (next, revisions) = set_balance_next a b l in
      (
        Ids-kept l l1 (omega (arith, next)) revisions ids,
        (set_balance-Undoable kit d a b l cur).keeps cur,
        Chain-step r l l1 (omega (arith, next)) (set_balance-Undoable kit d a b l cur) c,
      )

  pub snapshot-Chain :
      (r : List (ℕ × SimpleLedger)) (l : SimpleLedger)
      → Ids l × Current d l × Chain r l
      → Ids (snapshot l).1
        × Current d (snapshot l).1
        × Chain (((snapshot l).0, l) ∷ r) (snapshot l).1
  unfolding snapshot Chain
  snapshot-Chain r l (ids, cur, c) = (
    later_ids l.valid_revisions ids,
    Current-shown kit d l (snapshot l).1 refl refl refl cur,
    (
      refl,
      ids,
      omega arith,
      quiet kit d (snapshot l).1 (snapshot l).1 refl (unchanged (snapshot l).1 (snapshot l).1 refl)
          (Same-refl d (snapshot l).1) (λ k. k),
      c,
    ),
  )
    where
      later_ids :
          (rs : List (ℕ × ℕ))
          → All (λ r. r.0 < l.next_revision_id) rs
          → All
              (λ r. r.0 < l.next_revision_id + 1)
              (rs ++ (l.next_revision_id, length l.changes) ∷ [])
      later_ids [] h = (omega arith, tt)
      later_ids (r1 ∷ rs) h = (omega (arith, h.0), later_ids rs h.1)

  pub prepare_evm-Chain :
      (h : String) (i : ℕ) (r : List (ℕ × SimpleLedger)) (l : SimpleLedger)
      → Ids l × Current d l × Chain r l
      → Ids (prepare_evm h i l) × Current d (prepare_evm h i l) × Chain r (prepare_evm h i l)
  unfolding prepare_evm
  prepare_evm-Chain h i r l (ids, cur, c) =
      let l1 = prepare_evm h i l in
      (
        ids,
        Current-shown kit d l l1 refl refl refl cur,
        Chain-step r l l1 (omega arith)
            (quiet kit d l l1 refl (unchanged l l1 refl) (Same-shown kit d l l1 refl refl refl refl)
              (Current-shown kit d l l1 refl refl refl))
            c,
      )
