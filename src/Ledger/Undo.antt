-- ===== src/Ledger/Undo.antt =====
-- What one write to an account changes of what is seen, and that the revert of its change takes this
-- back (internal/ledger/state_changer.go).
use model_lib.Base.{
  ℕ, ℤ, ◌≡◌, true, String, Option, arith, eq_iff, str_eq, if◌then◌else◌, Bool-cases, Option-cases,
  inl, inr,
}
use model_lib.Ledger.State.{Kit, SimpleAccount, Disk, SimpleLedger}
use model_lib.Ledger.Accounts.{
  account_state, account_balance, account_nonce, store_state, write_balance, write_nonce,
  write_code,
}
use model_lib.Ledger.Operations.{found_account, loaded_account, set_account}
use model_lib.Ledger.Views.{is_some, account_at, state_at, balance_at, nonce_at, Same}

-- The account at every address after a write to one.
pub account_at-set :
    (d : Disk) (addr x : String) (a : SimpleAccount) (l : SimpleLedger)
    → account_at d (set_account addr a l) x ≡ (if str_eq addr x then a else account_at d l x)
unfolding account_at found_account loaded_account set_account
account_at-set d addr x a l = ground arith

pub found-set :
    (d : Disk) (addr x : String) (a : SimpleAccount) (l : SimpleLedger)
    → is_some (found_account d x (set_account addr a l))
      ≡ (if str_eq addr x then true else is_some (found_account d x l))
unfolding found_account loaded_account set_account
found-set d addr x a l = ground arith

module _ (kit : Kit) where
  -- A write of one part of an account keeps the other parts.
  pub write_balance-parts :
      (d : Disk) (addr key : String) (b : ℤ) (a : SimpleAccount)
      → (account_balance (write_balance kit b a) ≡ b)
        × (account_nonce (write_balance kit b a) ≡ account_nonce a)
        × ((account_state d addr key (write_balance kit b a)).0 ≡ (account_state d addr key a).0)
  unfolding account_balance account_nonce account_state write_balance
  write_balance-parts d addr key b a = elim (Option-cases a.dirty_account) [
    | inr (i, e) ↦ ground arith
    | inl e ↦ elim (Option-cases a.origin_account) [
      | inr (i, f) ↦ ground (arith, kit.copy i)
      | inl f ↦ ground (arith, kit.new)
    ]
  ]

  pub write_nonce-parts :
      (d : Disk) (addr key : String) (n : ℕ) (a : SimpleAccount)
      → (account_nonce (write_nonce kit n a) ≡ n)
        × (account_balance (write_nonce kit n a) ≡ account_balance a)
        × ((account_state d addr key (write_nonce kit n a)).0 ≡ (account_state d addr key a).0)
  unfolding account_balance account_nonce account_state write_nonce
  write_nonce-parts d addr key n a = elim (Option-cases a.dirty_account) [
    | inr (i, e) ↦ ground arith
    | inl e ↦ elim (Option-cases a.origin_account) [
      | inr (i, f) ↦ ground (arith, kit.copy i)
      | inl f ↦ ground (arith, kit.new)
    ]
  ]

  pub write_code-parts :
      (d : Disk) (addr key : String) (c : Option String) (a : SimpleAccount)
      → (account_nonce (write_code kit c a) ≡ account_nonce a)
        × (account_balance (write_code kit c a) ≡ account_balance a)
        × ((account_state d addr key (write_code kit c a)).0 ≡ (account_state d addr key a).0)
  unfolding account_balance account_nonce account_state write_code
  write_code-parts d addr key c a = elim (Option-cases a.dirty_account) [
    | inr (i, e) ↦ ground arith
    | inl e ↦ elim (Option-cases a.origin_account) [
      | inr (i, f) ↦ ground (arith, kit.copy i)
      | inl f ↦ ground (arith, kit.new)
    ]
  ]

pub store_state-parts :
    (d : Disk) (addr key other : String) (v : Option String) (a : SimpleAccount)
    → (account_nonce (store_state key v a) ≡ account_nonce a)
      × (account_balance (store_state key v a) ≡ account_balance a)
      × ((account_state d addr other (store_state key v a)).0
          ≡ (if str_eq key other then v else (account_state d addr other a).0))
unfolding account_balance account_nonce account_state store_state
store_state-parts d addr key other v a = ground arith

-- Two accounts at an address that show the same.
pub record SameParts (d : Disk) (addr : String) (a b : SimpleAccount) : Type 0 where
  pub part_state : (key : String) → (account_state d addr key a).0 ≡ (account_state d addr key b).0
  pub part_balance : account_balance a ≡ account_balance b
  pub part_nonce : account_nonce a ≡ account_nonce b

pub Same-parts :
    (d : Disk) (l l' : SimpleLedger) (addr : String)
    → Same d l' l
    → SameParts d addr (account_at d l' addr) (account_at d l addr)
unfolding state_at balance_at nonce_at
Same-parts d l l' addr s = record {
  part_state = s.states addr;
  part_balance = s.balances addr;
  part_nonce = s.nonces addr;
}

-- Ledgers whose accounts show the same at every address show the same.
pub parts-Same :
    (d : Disk) (l l' : SimpleLedger)
    → ((addr : String) → SameParts d addr (account_at d l' addr) (account_at d l addr))
    → l'.refund ≡ l.refund
    → ((addr : String) → l'.inner_cache addr ≡ l.inner_cache addr)
    → ((addr : String)
        → is_some (found_account d addr l) ≡ true
        → is_some (found_account d addr l') ≡ true)
    → Same d l' l
unfolding state_at balance_at nonce_at
parts-Same d l l' p r c f = record {
  states = λ addr key. (p addr).part_state key;
  balances = λ addr. (p addr).part_balance;
  nonces = λ addr. (p addr).part_nonce;
  refunds = r;
  caches = c;
  found = f;
}

-- A ledger that shows what another one shows after a write to one account, with that account written
-- back, shows what the other one shows before the write.
pub write_back-Same :
    (d : Disk) (addr : String) (a1 a2 : SimpleAccount) (l l' : SimpleLedger)
    → Same d l' (set_account addr a1 l)
    → SameParts d addr a2 (account_at d l addr)
    → Same d (set_account addr a2 l') l
unfolding set_account
write_back-Same d addr a1 a2 l l' s p =
    parts-Same d l (set_account addr a2 l') parts s.refunds s.caches found
  where
    parts :
        (x : String) → SameParts d x (account_at d (set_account addr a2 l') x) (account_at d l x)
    parts x = elim (Bool-cases (str_eq addr x)) [
      | inl e ↦
          let same : addr ≡ x = (eq_iff addr x).0 e in
          let here : account_at d (set_account addr a2 l') x ≡ a2 =
            rw e at (account_at-set d addr x a2 l') in
          rw (here, ← same) p
      | inr e ↦
          let there : account_at d (set_account addr a2 l') x ≡ account_at d l' x =
            rw e at (account_at-set d addr x a2 l') in
          let before : account_at d (set_account addr a1 l) x ≡ account_at d l x =
            rw e at (account_at-set d addr x a1 l) in
          rw (there, ← before) (Same-parts d (set_account addr a1 l) l' x s)
    ]

    found :
        (x : String)
        → is_some (found_account d x l) ≡ true
        → is_some (found_account d x (set_account addr a2 l')) ≡ true
    found x h = ground (arith, found-set d addr x a2 l', found-set d addr x a1 l, s.found x)
