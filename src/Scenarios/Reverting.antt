-- ===== src/Scenarios/Reverting.antt =====
-- A run of the state ledger: one account is stored, and a transaction writes to it and to a new one.
use model_lib.Base.{
  Bool-cases, inl, inr, ◌≡◌, refl, pos, List, [], ◌∷◌, Option, none, some, str_eq, if◌then◌else◌,
}
use model_lib.Ledger.State.{balance_change, InnerAccount, Kit, SimpleAccount, Disk, SimpleLedger}
use model_lib.Ledger.Accounts.{new_account}
use model_lib.Ledger.Operations.{
  loaded_account, found_account, set_state, set_balance, set_nonce, add_state,
}
use model_lib.Ledger.Snapshots.{clear_changer_and_refund, snapshot, revert_to_snapshot}
use model_lib.Ledger.Views.{Same, Current, account_at, state_at, balance_at}
use model_lib.Ledger.Performed.{
  Operation, sets_state, sets_balance, sets_nonce, adds_refund, snapshots, operate_all,
}
use model_lib.Ledger.Reverts.{revert_to_snapshot-Same}
use model_lib.Ledger.Leaks.{add_state_kept, set_balance_kept}

abbrev zero_account : InnerAccount
zero_account = record { nonce = 0; balance = pos 0; code_hash = none }

abbrev copied : Option InnerAccount → InnerAccount
copied none = zero_account
copied (some a) = a

abbrev pub kit : Kit
kit = record { copy_or_new = copied; copy = λ a. refl; new = refl; keccak = λ code. "hash" }

abbrev rich : InnerAccount
rich = record { nonce = 3; balance = pos 100; code_hash = none }

abbrev pub disk : Disk
disk = record {
  accounts_stored = λ addr. if str_eq addr "0xa" then some rich else none;
  codes_stored = λ addr. none;
  states_stored = λ addr key. none;
  state_cache = λ addr key. none;
  code_cache = λ addr. none;
}

abbrev pub started : SimpleLedger
started = record {
  accounts = λ addr. none;
  inner_cache = λ addr. none;
  changes = [];
  dirties = λ addr. 0;
  valid_revisions = [];
  next_revision_id = 0;
  refund = 0;
  changer = 0;
  preimages = λ hash. none;
  logs = λ hash. [];
  log_size = 0;
  thash = "0x1";
}

pub started-Current : Current disk started
unfolding account_at found_account loaded_account new_account
started-Current x = elim (Bool-cases (str_eq x "0xa")) [
  | inl e ↦ rw (loaded_account, e) refl
  | inr e ↦ rw (loaded_account, e) refl
]

abbrev operations : List Operation
operations =
    sets_balance "0xa" (pos 60)
    ∷ sets_balance "0xb" (pos 40)
    ∷ snapshots
    ∷ sets_state "0xb" "key" (some "value")
    ∷ sets_nonce "0xa" 4
    ∷ adds_refund 7
    ∷ []

abbrev or_started : Option SimpleLedger → SimpleLedger
or_started none = started
or_started (some l) = l

abbrev ran : SimpleLedger
ran = or_started (operate_all kit disk operations (snapshot started).1)

runs : operate_all kit disk operations (snapshot started).1 ≡ some ran
unfolding operate_all set_balance set_state set_nonce
runs = refl

revert_to_snapshot-Same_example :
    (l2 : SimpleLedger) × (revert_to_snapshot kit disk (snapshot started).0 ran ≡ some l2)
    × Same disk l2 started
    × (l2.changes ≡ started.changes)
    × (l2.valid_revisions ≡ started.valid_revisions)
revert_to_snapshot-Same_example =
    revert_to_snapshot-Same kit disk operations started ran started-Current tt runs

abbrev loaded : SimpleAccount
loaded = or_new (found_account disk "0xa" started)
  where
    or_new : Option SimpleAccount → SimpleAccount
    or_new none = new_account 0
    or_new (some a) = a

is_loaded : found_account disk "0xa" started ≡ some loaded
unfolding found_account loaded_account
is_loaded = refl

add_state_kept_example :
    (l2 : SimpleLedger) × (revert_to_snapshot kit disk
        (snapshot started).0
        (add_state disk "0xa" "key" (some "value") (snapshot started).1)
      ≡ some l2)
    × (state_at disk l2 "0xa" "key" ≡ some "value")
add_state_kept_example =
    add_state_kept kit disk "0xa" "key" (some "value") started loaded tt is_loaded

-- The ledger behind a first transaction, which loads an account and writes its balance.
abbrev behind_first : SimpleLedger
behind_first = set_balance kit disk "0xa" (pos 60) started

abbrev written : SimpleAccount
written = or_loaded (behind_first.accounts "0xa")
  where
    or_loaded : Option SimpleAccount → SimpleAccount
    or_loaded none = loaded
    or_loaded (some a) = a

first_change : behind_first.changes ≡ balance_change "0xa" (pos 100) ∷ []
unfolding set_balance loaded_account
first_change = refl

first_account : behind_first.accounts "0xa" ≡ some written
unfolding set_balance loaded_account
first_account = refl

first_changer : written.changer ≡ behind_first.changer
unfolding set_balance loaded_account
first_changer = refl

set_balance_kept_example :
    (l2 : SimpleLedger) × (revert_to_snapshot kit disk
        (snapshot (clear_changer_and_refund behind_first)).0
        (set_balance kit disk "0xa" (pos 7) (snapshot (clear_changer_and_refund behind_first)).1)
      ≡ some l2)
    × (balance_at disk l2 "0xa" ≡ pos 7)
set_balance_kept_example =
    set_balance_kept kit disk "0xa" (pos 7) behind_first written (balance_change "0xa" (pos 100)) []
      first_change first_account first_changer
