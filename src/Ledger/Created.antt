-- ===== src/Ledger/Created.antt =====
-- GetOrCreateAccount of internal/ledger/state_accessor.go: what it changes, and the revert of the
-- account that it makes.
use text.Mathlib.TextPositions.{eq_refl}
use model_lib.Base.{
  ℕ, ◌≡◌, refl, sym, ap, subst, ◌∙◌, true, String, none, arith, eq_iff, str_eq, delete,
  if◌then◌else◌, Bool-cases, Option-cases, inl, inr,
}
use model_lib.Ledger.State.{Kit, SimpleAccount, Disk, SimpleLedger, create_object}
use model_lib.Ledger.Accounts.{new_account, account_state, account_balance, account_nonce}
use model_lib.Ledger.Operations.{found_account, loaded_account, set_account, append, get_or_create}
use model_lib.Ledger.Snapshots.{revert_change}
use model_lib.Ledger.Views.{is_some, account_at, Current, Same}
use model_lib.Ledger.Undo.{account_at-set, found-set, SameParts, Same-parts, parts-Same}
use model_lib.Ledger.Steps.{Undoable, unchanged, quiet, one_change}

pub SameParts-refl : (d : Disk) (addr : String) (a : SimpleAccount) → SameParts d addr a a
SameParts-refl d addr a = record {
  part_state = λ key. refl;
  part_balance = refl;
  part_nonce = refl;
}

module _ (kit : Kit) (d : Disk) where
  abbrev made : String → SimpleLedger → SimpleLedger
  made addr l = set_account addr (new_account l.changer) (append (create_object addr) l)

  abbrev unmade : String → SimpleLedger → SimpleLedger
  unmade addr l = record l {
    accounts = delete l.accounts addr;
    inner_cache = delete l.inner_cache addr;
  }

  account_at-unmade :
      (addr x : String) (l l' : SimpleLedger)
      → found_account d addr l ≡ none
      → account_at d (unmade addr l') x
        ≡ (if str_eq addr x then new_account l'.changer else account_at d l' x)
  unfolding account_at found_account loaded_account
  account_at-unmade addr x l l' n = ground (arith, eq_iff addr x)

  account_at-none :
      (addr : String) (l : SimpleLedger)
      → found_account d addr l ≡ none
      → account_at d l addr ≡ new_account l.changer
  unfolding account_at
  account_at-none addr l n = rw n refl

  -- New accounts show the same, whatever changer they have.
  new_account-SameParts :
      (addr : String) (c1 c2 : ℕ) → SameParts d addr (new_account c1) (new_account c2)
  unfolding new_account account_state account_balance account_nonce
  new_account-SameParts addr c1 c2 = record {
    part_state = λ key. refl;
    part_balance = refl;
    part_nonce = refl;
  }

  account_at-made :
      (addr x : String) (l : SimpleLedger)
      → account_at d (made addr l) x
        ≡ (if str_eq addr x then new_account l.changer else account_at d l x)
  unfolding account_at found_account loaded_account append set_account
  account_at-made addr x l = ground arith

  made-Current : (addr : String) (l : SimpleLedger) → Current d l → Current d (made addr l)
  unfolding new_account append set_account
  made-Current addr l h x = elim (Bool-cases (str_eq addr x)) [
    | inl e ↦ ap (λ a. a.changer) (rw e at (account_at-made addr x l))
    | inr e ↦ ap (λ a. a.changer) (rw e at (account_at-made addr x l)) ∙ h x
  ]

  made-Undoable :
      (addr : String) (l : SimpleLedger)
      → found_account d addr l ≡ none
      → Undoable kit d l (made addr l)
  unfolding append set_account revert_change
  made-Undoable addr l n =
      one_change kit d (create_object addr) l (made addr l) refl (unchanged l (made addr l) refl)
        (λ l' s. (unmade addr l', refl, back l' s)) (made-Current addr l)
    where
      back : (l' : SimpleLedger) → Same d l' (made addr l) → Same d (unmade addr l') l
      back l' s = parts-Same d l (unmade addr l') parts s.refunds caches found
        where
          parts : (x : String) → SameParts d x (account_at d (unmade addr l') x) (account_at d l x)
          parts x = elim (Bool-cases (str_eq addr x)) [
            | inl e ↦
                let none_at : account_at d l x ≡ new_account l.changer =
                  subst (λ y. account_at d l y ≡ new_account l.changer) ((eq_iff addr x).0 e)
                    (account_at-none addr l n) in
                rw (rw e at (account_at-unmade addr x l l' n), none_at)
                  (new_account-SameParts x l'.changer l.changer)
            | inr e ↦
                let there = rw e at (account_at-unmade addr x l l' n) in
                let before : account_at d (made addr l) x ≡ account_at d l x =
                  unfold account_at found_account loaded_account in ground arith in
                rw (there, ← before) (Same-parts d (made addr l) l' x s)
          ]

          caches : (x : String) → (unmade addr l').inner_cache x ≡ l.inner_cache x
          caches x =
              unfold found_account loaded_account in ground (arith, eq_iff addr x, s.caches x)

          found :
              (x : String)
              → is_some (found_account d x l) ≡ true
              → is_some (found_account d x (unmade addr l')) ≡ true
          found x h =
              unfold found_account loaded_account in ground (arith, eq_iff addr x, s.found x)

  -- A write of an account that shows what the account there shows.
  pub rewritten :
      (addr : String) (a : SimpleAccount) (l : SimpleLedger)
      → SameParts d addr a (account_at d l addr)
      → a.changer ≡ (account_at d l addr).changer
      → Undoable kit d l (set_account addr a l)
  unfolding set_account
  rewritten addr a l p own =
      quiet kit d l (set_account addr a l) refl (unchanged l (set_account addr a l) refl)
        (parts-Same d l (set_account addr a l) parts refl (λ x. refl)
          (λ x h. ground (arith, found-set d addr x a l)))
        (λ h x. ground (arith, account_at-set d addr x a l, own, h x, h addr))
    where
      parts :
          (x : String) → SameParts d x (account_at d (set_account addr a l) x) (account_at d l x)
      parts x = elim (Bool-cases (str_eq addr x)) [
        | inl e ↦
            let same : addr ≡ x = (eq_iff addr x).0 e in
            rw (rw e at (account_at-set d addr x a l), ← same) p
        | inr e ↦ rw (rw e at (account_at-set d addr x a l)) (SameParts-refl d x (account_at d l x))
      ]

  -- The account that is found or made stands in the ledger afterwards.
  pub get_or_create-found :
      (addr : String) (l : SimpleLedger)
      → account_at d (get_or_create d addr l).1 addr ≡ (get_or_create d addr l).0
  unfolding get_or_create account_at found_account loaded_account set_account append
  get_or_create-found addr l = ground (arith, eq_refl addr)

  pub get_or_create-Undoable :
      (addr : String) (l : SimpleLedger) → Undoable kit d l (get_or_create d addr l).1
  unfolding get_or_create account_at
  get_or_create-Undoable addr l = elim (Option-cases (found_account d addr l)) [
    | inl n ↦ rw (n, get_or_create) (made-Undoable addr l n)
    | inr (a, e) ↦
        rw (e, get_or_create)
          (let at : account_at d l addr ≡ a = rw (e, account_at) in
            rewritten addr a l (rw at (SameParts-refl d addr a)) (ap (λ b. b.changer) (sym at)))
  ]
