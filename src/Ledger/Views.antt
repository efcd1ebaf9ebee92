-- ===== src/Ledger/Views.antt =====
-- What is seen of a ledger: the state, the balance and the nonce of every address, and the refund.
use model_lib.Base.{ℕ, ℤ, ◌≡◌, refl, ◌∙◌, Bool, true, false, String, Option, none, some}
use model_lib.Ledger.State.{SimpleAccount, Disk, SimpleLedger}
use model_lib.Ledger.Accounts.{new_account, account_state, account_balance, account_nonce}
use model_lib.Ledger.Operations.{found_account}

abbrev pub account_or_new : ℕ → Option SimpleAccount → SimpleAccount
account_or_new changer none = new_account changer
account_or_new changer (some a) = a

abbrev pub is_some {ℓ} : {A : Type ℓ} → Option A → Bool
is_some none = false
is_some (some _) = true

-- The account at an address, a new one where GetAccount finds none.
unfoldable pub account_at : Disk → SimpleLedger → String → SimpleAccount
unfolding found_account
account_at d l addr = account_or_new l.changer (found_account d addr l)

unfoldable pub state_at : Disk → SimpleLedger → String → String → Option String
unfolding account_at account_state
state_at d l addr key = (account_state d addr key (account_at d l addr)).0

unfoldable pub balance_at : Disk → SimpleLedger → String → ℤ
unfolding account_at account_balance
balance_at d l addr = account_balance (account_at d l addr)

unfoldable pub nonce_at : Disk → SimpleLedger → String → ℕ
unfolding account_at account_nonce
nonce_at d l addr = account_nonce (account_at d l addr)

-- Every account writes to the changer that the ledger has now.
abbrev pub Current : Disk → SimpleLedger → Type 0
Current d l = (addr : String) → (account_at d l addr).changer ≡ l.changer

-- The first ledger shows what the second one does, and finds at least the accounts that it finds.
pub record Same (d : Disk) (l' l : SimpleLedger) : Type 0 where
  pub states : (addr key : String) → state_at d l' addr key ≡ state_at d l addr key
  pub balances : (addr : String) → balance_at d l' addr ≡ balance_at d l addr
  pub nonces : (addr : String) → nonce_at d l' addr ≡ nonce_at d l addr
  pub refunds : l'.refund ≡ l.refund
  pub caches : (addr : String) → l'.inner_cache addr ≡ l.inner_cache addr
  pub found :
      (addr : String)
      → is_some (found_account d addr l) ≡ true
      → is_some (found_account d addr l') ≡ true

pub Same-refl : (d : Disk) (l : SimpleLedger) → Same d l l
Same-refl d l = record {
  states = λ addr key. refl;
  balances = λ addr. refl;
  nonces = λ addr. refl;
  refunds = refl;
  caches = λ addr. refl;
  found = λ addr h. h;
}

pub Same-trans : (d : Disk) (l m n : SimpleLedger) → Same d l m → Same d m n → Same d l n
Same-trans d l m n a b = record {
  states = λ addr key. a.states addr key ∙ b.states addr key;
  balances = λ addr. a.balances addr ∙ b.balances addr;
  nonces = λ addr. a.nonces addr ∙ b.nonces addr;
  refunds = a.refunds ∙ b.refunds;
  caches = λ addr. a.caches addr ∙ b.caches addr;
  found = λ addr h. a.found addr (b.found addr h);
}
