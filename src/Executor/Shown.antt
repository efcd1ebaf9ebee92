-- ===== src/Executor/Shown.antt =====
-- The balances and nonces that the state ledger of internal/ledger shows behind its operations.
use model_lib.Base.{
  ◌==◌, ℕ, ◌≡◌, refl, sym, ap, subst, ◌∙◌, ℤ, String, Bool, true, false, arith, Bool-cases, eq_iff,
  inl, inr, str_eq, if◌then◌else◌,
}
use text.Mathlib.TextPositions.{eq_refl}
use model_lib.Ledger.State.{
  Kit, Disk, SimpleAccount, SimpleLedger, Change, balance_change, nonce_change,
}
use model_lib.Ledger.Accounts.{account_balance, account_nonce, write_balance, write_nonce}
use model_lib.Ledger.Operations.{
  get_or_create, get_balance, set_balance, set_nonce, found_account, loaded_account, set_account,
  append, append_by,
}
use model_lib.Ledger.Snapshots.{clear_changer_and_refund}
use model_lib.Ledger.Views.{balance_at, nonce_at, account_at}
use model_lib.Ledger.Undo.{account_at-set, write_balance-parts, write_nonce-parts}
use model_lib.Ledger.Created.{get_or_create-found}

module _ (kit : Kit) (d : Disk) where
  account_kept :
      (a x : String) (l : SimpleLedger) → account_at d (get_or_create d a l).1 x ≡ account_at d l x
  unfolding get_or_create account_at found_account loaded_account set_account append
  account_kept a x l = elim (Bool-cases (str_eq a x)) [
    | inl e ↦
        subst (λ y. account_at d (get_or_create d a l).1 y ≡ account_at d l y) ((eq_iff a x).0 e)
          (ground (arith, eq_refl a))
    | inr e ↦ ground (arith, e)
  ]

  pub get_balance_at : (a : String) (l : SimpleLedger) → (get_balance d a l).0 ≡ balance_at d l a
  unfolding get_balance balance_at
  get_balance_at a l = ap account_balance (sym (get_or_create-found kit d a l) ∙ account_kept a a l)

  pub balance_kept :
      (a : String) (l : SimpleLedger) (x : String)
      → balance_at d (get_balance d a l).1 x ≡ balance_at d l x
  unfolding get_balance balance_at
  balance_kept a l x = ap account_balance (account_kept a x l)

  written_at :
      (a x : String) (owner account : SimpleAccount) (ch : Change) (l : SimpleLedger)
      → account_at d (set_account a account (append_by owner ch (get_or_create d a l).1)) x
        ≡ (if str_eq a x then account else account_at d l x)
  unfolding account_at found_account loaded_account append append_by
  written_at a x owner account ch l =
      account_at-set d a x account (append_by owner ch (get_or_create d a l).1)
      ∙ ap (λ y. if str_eq a x then account else y)
          (appended ((owner.changer == (get_or_create d a l).1.changer)) ∙ account_kept a x l)
    where
      appended :
          (own : Bool)
          → account_at d
              (if own then append ch (get_or_create d a l).1 else (get_or_create d a l).1)
              x
            ≡ account_at d (get_or_create d a l).1 x
      appended true = refl
      appended false = refl

  pub balance_set :
      (a : String) (b : ℤ) (l : SimpleLedger) (x : String)
      → balance_at d (set_balance kit d a b l) x ≡ (if str_eq a x then b else balance_at d l x)
  unfolding set_balance balance_at
  balance_set a b l x =
      let (old, l1) = get_or_create d a l in
      ap account_balance
        (written_at a x old (write_balance kit b old) (balance_change a (account_balance old)) l)
      ∙ chosen (str_eq a x) old
    where
      chosen :
          (e : Bool) (old : SimpleAccount)
          → account_balance (if e then write_balance kit b old else account_at d l x)
            ≡ (if e then b else account_balance (account_at d l x))
      chosen true old = (write_balance-parts kit d a x b old).0
      chosen false old = refl

  pub nonce_balance :
      (a : String) (n : ℕ) (l : SimpleLedger) (x : String)
      → balance_at d (set_nonce kit d a n l) x ≡ balance_at d l x
  unfolding set_nonce balance_at get_balance
  nonce_balance a n l x =
      let (old, l1) = get_or_create d a l in
      let at = written_at a x old (write_nonce kit n old) (nonce_change a (account_nonce old)) l in
      elim (Bool-cases (str_eq a x)) [
        | inl e ↦
            let mine : account_at d (set_nonce kit d a n l) x ≡ write_nonce kit n old =
              rw e at at in
            ap account_balance mine
            ∙ ((write_nonce-parts kit d a x n old).1
                ∙ (get_balance_at a l ∙ ap (balance_at d l) ((eq_iff a x).0 e)))
        | inr e ↦ ap account_balance (rw e at at)
      ]

  pub nonce_set : (a : String) (n : ℕ) (l : SimpleLedger) → nonce_at d (set_nonce kit d a n l) a ≡ n
  unfolding set_nonce nonce_at
  nonce_set a n l =
      let (old, l1) = get_or_create d a l in
      ap account_nonce (
        rw (eq_refl a) at
          (written_at a a old (write_nonce kit n old) (nonce_change a (account_nonce old)) l))
      ∙ (write_nonce-parts kit d a a n old).0

  pub finalise_shown :
      (l : SimpleLedger) (x : String)
      → (balance_at d (clear_changer_and_refund l) x ≡ balance_at d l x)
        × (nonce_at d (clear_changer_and_refund l) x ≡ nonce_at d l x)
  unfolding clear_changer_and_refund balance_at nonce_at account_at found_account loaded_account
  finalise_shown l x = (ground arith, ground arith)
