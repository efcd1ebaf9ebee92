-- ===== src/Ledger/Writes.antt =====
-- The operations of internal/ledger/state_accessor.go on accounts, each with what the reverts of its
-- changes give.
use model_lib.Base.{ℕ, ℤ, ◌≡◌, refl, true, false, String, Option, arith, eq_iff}
use model_lib.Ledger.State.{
  Kit, SimpleAccount, Disk, SimpleLedger, suicide_change, balance_change, nonce_change,
  storage_change, code_change,
}
use model_lib.Ledger.Accounts.{
  account_state, account_balance, account_nonce, account_code, account_is_empty, store_state,
  write_balance, write_nonce, write_code,
}
use model_lib.Ledger.Operations.{set_account, append, append_by, change_balance}
use model_lib.Ledger.Snapshots.{revert_change}
use model_lib.Ledger.Views.{account_at}
use model_lib.Ledger.Undo.{
  SameParts, store_state-parts, write_balance-parts, write_nonce-parts, write_code-parts,
}
use model_lib.Ledger.Steps.{Undoable, written, written_by}

-- What a read leaves shows the same.
pub account_state-SameParts :
    (d : Disk) (addr key : String) (a : SimpleAccount)
    → SameParts d addr (account_state d addr key a).1 a
unfolding account_state account_balance account_nonce
account_state-SameParts d addr key a = record {
  part_state = λ k. ground (arith, eq_iff key k);
  part_balance = ground arith;
  part_nonce = ground arith;
}

pub account_code-SameParts :
    (d : Disk) (addr : String) (a : SimpleAccount) → SameParts d addr (account_code d addr a).1 a
unfolding account_code account_state account_balance account_nonce
account_code-SameParts d addr a = record {
  part_state = λ k. ground arith;
  part_balance = ground arith;
  part_nonce = ground arith;
}

pub account_is_empty-SameParts :
    (d : Disk) (addr : String) (a : SimpleAccount)
    → SameParts d addr (account_is_empty d addr a).1 a
unfolding account_is_empty account_code account_state account_balance account_nonce
account_is_empty-SameParts d addr a = record {
  part_state = λ k. ground arith;
  part_balance = ground arith;
  part_nonce = ground arith;
}

-- What a read leaves has the changer that the account had.
pub reads-changer :
    (d : Disk) (addr key : String) (a : SimpleAccount)
    → ((account_state d addr key a).1.changer ≡ a.changer)
      × ((account_code d addr a).1.changer ≡ a.changer)
      × ((account_is_empty d addr a).1.changer ≡ a.changer)
unfolding account_state account_code account_is_empty
reads-changer d addr key a = (ground arith, ground arith, ground arith)

module _ (kit : Kit) (d : Disk) where
  -- One write with its change, to an account that shows what the ledger holds.
  pub store_state-Undoable :
      (addr key : String) (v : Option String) (a : SimpleAccount) (l : SimpleLedger)
      → SameParts d addr a (account_at d l addr)
      → a.changer ≡ l.changer
      → Undoable kit d l (
          set_account addr (store_state key v a) (
            append_by a
              (storage_change addr key (account_state d addr key (account_at d l addr)).0)
              l))
  unfolding revert_change store_state
  store_state-Undoable addr key v a l p own =
      written_by kit d a (storage_change addr key prev) addr (store_state key prev)
        (store_state key v a) l own refl (λ m. refl)
        (λ a' q. record {
          part_state = λ k. ground (
            arith,
            store_state-parts d addr key k prev a',
            store_state-parts d addr key k v a,
            q.part_state k,
            p.part_state k,
            eq_iff key k,
          );
          part_balance = ground (
            arith,
            store_state-parts d addr key key prev a',
            store_state-parts d addr key key v a,
            q.part_balance,
            p.part_balance,
          );
          part_nonce = ground (
            arith,
            store_state-parts d addr key key prev a',
            store_state-parts d addr key key v a,
            q.part_nonce,
            p.part_nonce,
          );
        })
    where
      prev : Option String
      prev = (account_state d addr key (account_at d l addr)).0

  pub write_balance-Undoable :
      (addr : String) (b : ℤ) (a : SimpleAccount) (l : SimpleLedger)
      → SameParts d addr a (account_at d l addr)
      → a.changer ≡ l.changer
      → Undoable kit d l (change_balance kit d addr b a l)
  unfolding revert_change change_balance write_balance
  write_balance-Undoable addr b a l p own =
      written_by kit d a (balance_change addr prev) addr (write_balance kit prev)
        (write_balance kit b a) l own refl (λ m. refl)
        (λ a' q. record {
          part_state = λ k. ground (
            arith,
            write_balance-parts kit d addr k prev a',
            write_balance-parts kit d addr k b a,
            q.part_state k,
            p.part_state k,
          );
          part_balance = ground (arith, write_balance-parts kit d addr "" prev a', p.part_balance);
          part_nonce = ground (
            arith,
            write_balance-parts kit d addr "" prev a',
            write_balance-parts kit d addr "" b a,
            q.part_nonce,
            p.part_nonce,
          );
        })
    where
      prev : ℤ
      prev = account_balance a

  pub write_nonce-Undoable :
      (addr : String) (n : ℕ) (a : SimpleAccount) (l : SimpleLedger)
      → SameParts d addr a (account_at d l addr)
      → a.changer ≡ l.changer
      → Undoable kit d l (
          set_account addr
            (write_nonce kit n a)
            (append_by a (nonce_change addr (account_nonce a)) l))
  unfolding revert_change write_nonce
  write_nonce-Undoable addr n a l p own =
      written_by kit d a (nonce_change addr prev) addr (write_nonce kit prev) (write_nonce kit n a)
        l own refl (λ m. refl)
        (λ a' q. record {
          part_state = λ k. ground (
            arith,
            write_nonce-parts kit d addr k prev a',
            write_nonce-parts kit d addr k n a,
            q.part_state k,
            p.part_state k,
          );
          part_nonce = ground (arith, write_nonce-parts kit d addr "" prev a', p.part_nonce);
          part_balance = ground (
            arith,
            write_nonce-parts kit d addr "" prev a',
            write_nonce-parts kit d addr "" n a,
            q.part_balance,
            p.part_balance,
          );
        })
    where
      prev : ℕ
      prev = account_nonce a

  pub write_code-Undoable :
      (addr : String) (c prev : Option String) (a : SimpleAccount) (l : SimpleLedger)
      → SameParts d addr a (account_at d l addr)
      → a.changer ≡ l.changer
      → Undoable kit d l
          (set_account addr (write_code kit c a) (append_by a (code_change addr prev) l))
  unfolding revert_change write_code
  write_code-Undoable addr c prev a l p own =
      written_by kit d a (code_change addr prev) addr (write_code kit prev) (write_code kit c a) l
        own refl (λ m. refl)
        (λ a' q. record {
          part_state = λ k. ground (
            arith,
            write_code-parts kit d addr k prev a',
            write_code-parts kit d addr k c a,
            q.part_state k,
            p.part_state k,
          );
          part_nonce = ground (
            arith,
            write_code-parts kit d addr "" prev a',
            write_code-parts kit d addr "" c a,
            q.part_nonce,
            p.part_nonce,
          );
          part_balance = ground (
            arith,
            write_code-parts kit d addr "" prev a',
            write_code-parts kit d addr "" c a,
            q.part_balance,
            p.part_balance,
          );
        })

  -- The flag of a suicide shows nothing.
  pub flagged-Undoable :
      (addr : String) (a : SimpleAccount) (l : SimpleLedger)
      → SameParts d addr a (account_at d l addr)
      → a.changer ≡ l.changer
      → Undoable kit d l (
          set_account addr
            (record a { suicided = true })
            (append (suicide_change addr false (account_balance a)) l))
  unfolding revert_change account_state account_balance account_nonce
  flagged-Undoable addr a l p own =
      written kit d (suicide_change addr false prev) addr
        (λ x. write_balance kit prev (record x { suicided = false })) (record a { suicided = true })
        l (λ m. refl)
        (λ a' q. record {
          part_state = λ k. ground (
            arith,
            write_balance-parts kit d addr k prev (record a' { suicided = false }),
            q.part_state k,
            p.part_state k,
          );
          part_balance = ground (
            arith,
            write_balance-parts kit d addr "" prev (record a' { suicided = false }),
            p.part_balance,
          );
          part_nonce = ground (
            arith,
            write_balance-parts kit d addr "" prev (record a' { suicided = false }),
            q.part_nonce,
            p.part_nonce,
          );
        })
        own
    where
      prev : ℤ
      prev = account_balance a
