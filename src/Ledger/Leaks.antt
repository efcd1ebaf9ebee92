-- ===== src/Ledger/Leaks.antt =====
-- Writes that the reverts of internal/ledger/state_changer.go do not take back.
use text.Mathlib.TextPositions.{eq_refl}
use model_lib.Base.{
  ℕ, ℤ, List, ◌∷◌, ◌+◌, ◌==◌, false, sym, subst, ◌<◌, ◌≡◌, refl, ap, ◌∙◌, String, [], Option, some,
  arith, All, length, ==_iff,
}
use model_lib.Ledger.State.{Kit, SimpleAccount, Disk, SimpleLedger, Change, balance_change}
use model_lib.Ledger.Accounts.{account_state, store_state, account_balance, write_balance}
use model_lib.Ledger.Operations.{
  found_account, loaded_account, set_account, get_or_create, add_state, append_by, set_balance,
  change_balance,
}
use model_lib.Ledger.Snapshots.{
  snapshot, revert_to_snapshot, find_revision, revert, undo, clear_changer_and_refund,
}
use model_lib.Ledger.Views.{account_at, state_at, balance_at}
use model_lib.Ledger.Undo.{store_state-parts, write_balance-parts}
use model_lib.Ledger.Reverts.{find_revision_at, reverted}

module _ (kit : Kit) (d : Disk) where
  -- The revert to a snapshot leaves what AddState has written to an account since then: AddState tells
  -- the changer nothing. The ids of the revisions that are there lie below the next id.
  pub add_state_kept :
      (addr key : String) (v : Option String) (l : SimpleLedger) (a : SimpleAccount)
      → All (λ r. r.0 < l.next_revision_id) l.valid_revisions
      → found_account d addr l ≡ some a
      → (l2 : SimpleLedger) × (revert_to_snapshot kit d
            (snapshot l).0
            (add_state d addr key v (snapshot l).1)
          ≡ some l2)
        × (state_at d l2 addr key ≡ v)
  unfolding snapshot revert_to_snapshot add_state get_or_create found_account loaded_account
      set_account undo state_at account_at
  add_state_kept addr key v l a ids f = (
    l2,
    ap (revert_to_snapshot kit d id) wrote ∙ went_back,
    ap (λ b. (account_state d addr key b).0) at
        ∙ ground (arith, store_state-parts d addr key key v a, eq_refl key),
  )
    where
      id : ℕ
      id = l.next_revision_id

      m : SimpleLedger
      m = (snapshot l).1

      l1 : SimpleLedger
      l1 = set_account addr (store_state key v a) (set_account addr a m)

      l2 : SimpleLedger
      l2 = record l1 { changes = l.changes; valid_revisions = l.valid_revisions }

      same : found_account d addr m ≡ some a
      same = f

      wrote : add_state d addr key v m ≡ l1
      wrote = rw (same, add_state, get_or_create)

      found : find_revision id l1.valid_revisions ≡ some (l.valid_revisions, (id, length l.changes))
      found = find_revision_at kit d id (length l.changes) l.valid_revisions [] ids

      back : revert kit d (length l.changes) l1 ≡ some (record l1 { changes = l.changes })
      back = reverted kit d [] l.changes l1 l1 refl refl

      at : account_at d l2 addr ≡ store_state key v a
      at = ground (arith, eq_refl addr)

      went_back : revert_to_snapshot kit d id l1 ≡ some l2
      went_back = rw (found, revert_to_snapshot, (==_iff id id).1 refl, back)

  -- A write of an account with another changer than the ledger's stays.
  stale_kept :
      (addr : String) (b : ℤ) (l : SimpleLedger) (a : SimpleAccount)
      → All (λ r. r.0 < l.next_revision_id) l.valid_revisions
      → found_account d addr l ≡ some a
      → (a.changer == l.changer) ≡ false
      → (l2 : SimpleLedger) × (revert_to_snapshot kit d
            (snapshot l).0
            (set_balance kit d addr b (snapshot l).1)
          ≡ some l2)
        × (balance_at d l2 addr ≡ b)
  unfolding snapshot revert_to_snapshot set_balance change_balance get_or_create found_account
      loaded_account append_by set_account undo balance_at account_at
  stale_kept addr b l a ids f stale = (
    l2,
    ap (revert_to_snapshot kit d id) wrote ∙ went_back,
    ap account_balance at ∙ (write_balance-parts kit d addr "" b a).0,
  )
    where
      id : ℕ
      id = l.next_revision_id

      m : SimpleLedger
      m = (snapshot l).1

      l1 : SimpleLedger
      l1 = set_account addr (write_balance kit b a) (set_account addr a m)

      l2 : SimpleLedger
      l2 = record l1 { changes = l.changes; valid_revisions = l.valid_revisions }

      same : found_account d addr m ≡ some a
      same = f

      made : get_or_create d addr m ≡ (a, set_account addr a m)
      made = rw (same, get_or_create)

      wrote : set_balance kit d addr b m ≡ l1
      wrote =
          ap (λ x. change_balance kit d addr b x.0 x.1) made
          ∙ ap (λ x. set_account addr (write_balance kit b a) x) (appended stale)
        where
          appended :
              (a.changer == l.changer) ≡ false
              → append_by a (balance_change addr (account_balance a)) (set_account addr a m)
                ≡ set_account addr a m
          appended e = rw e refl

      found : find_revision id l1.valid_revisions ≡ some (l.valid_revisions, (id, length l.changes))
      found = find_revision_at kit d id (length l.changes) l.valid_revisions [] ids

      back : revert kit d (length l.changes) l1 ≡ some (record l1 { changes = l.changes })
      back = reverted kit d [] l.changes l1 l1 refl refl

      at : account_at d l2 addr ≡ write_balance kit b a
      at = ground (arith, eq_refl addr)

      went_back : revert_to_snapshot kit d id l1 ≡ some l2
      went_back = rw (found, revert_to_snapshot, (==_iff id id).1 refl, back)

  -- Once ClearChangerAndRefund has replaced the changer, as it does between two transactions of a block
  -- where the first one has made changes, an account that was loaded before keeps the old one: what
  -- SetBalance writes to it behind a snapshot is still there behind the revert to the snapshot.
  pub set_balance_kept :
      (addr : String) (b : ℤ) (l : SimpleLedger) (a : SimpleAccount) (ch : Change)
      (chs : List Change)
      → l.changes ≡ ch ∷ chs
      → l.accounts addr ≡ some a
      → a.changer ≡ l.changer
      → (l2 : SimpleLedger) × (revert_to_snapshot kit d
            (snapshot (clear_changer_and_refund l)).0
            (set_balance kit d addr b (snapshot (clear_changer_and_refund l)).1)
          ≡ some l2)
        × (balance_at d l2 addr ≡ b)
  unfolding clear_changer_and_refund found_account
  set_balance_kept addr b l a ch chs c f own =
      let l0 = clear_changer_and_refund l in
      let replaced : l0.changer ≡ l.changer + 1 = rw c refl in
      let no_revisions : l0.valid_revisions ≡ [] = rw c refl in
      let kept : l0.accounts ≡ l.accounts = rw c refl in
      stale_kept addr b l0 a (subst (All (λ r. r.0 < l0.next_revision_id)) (sym no_revisions) tt)
        (in_accounts l0 (ap (λ g. g addr) kept ∙ f)) (ground (arith, own, replaced))
    where
      in_accounts : (m : SimpleLedger) → m.accounts addr ≡ some a → found_account d addr m ≡ some a
      in_accounts m e =
          ap (λ x. elim x [ some b ↦ some b | Option.none ↦ loaded_account d addr m ]) e
