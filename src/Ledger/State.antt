-- ===== src/Ledger/State.antt =====
-- The data of internal/ledger: accounts, changes and the ledger. A slice of bytes is a text with a
-- character for each byte; none is nil.
use model_lib.Base.{ℕ, ◌≡◌, ℤ, pos, String, Bool, List, Option, none, some}

-- InnerAccount of the package eth-kit/ledger
pub record InnerAccount : Type 0 where
  pub nonce : ℕ
  pub balance : ℤ
  pub code_hash : Option String

-- What the code calls of other packages: CopyOrNewIfEmpty, and the bytes of a Keccak hash.
pub record Kit : Type 0 where
  pub copy_or_new : Option InnerAccount → InnerAccount
  pub copy : (a : InnerAccount) → copy_or_new (some a) ≡ a
  pub new : copy_or_new none ≡ record { nonce = 0; balance = pos 0; code_hash = none }
  pub keccak : Option String → String

-- SimpleAccount. A key of a state may be there with the value nil. `changer` says which of the ledger's
-- changers the account was made with.
pub record SimpleAccount : Type 0 where
  pub origin_account : Option InnerAccount
  pub dirty_account : Option InnerAccount
  pub origin_state : String → Option (Option String)
  pub dirty_state : String → Option (Option String)
  pub origin_code : Option String
  pub dirty_code : Option String
  pub changer : ℕ
  pub suicided : Bool

-- What is below the ledger and does not change while a block is executed: the database, and the
-- caches of states and codes.
pub record Disk : Type 0 where
  pub accounts_stored : String → Option InnerAccount  -- accountKey
  pub codes_stored : String → Option String  -- codeKey
  pub states_stored : String → String → Option String  -- composeStateKey
  pub state_cache : String → String → Option (Option String)
  pub code_cache : String → Option (Option String)

-- stateChange, but for the two changes of the access list
pub data Change : Type 0 where
  create_object : String → Change
  suicide_change : String → Bool → ℤ → Change
  balance_change : String → ℤ → Change
  nonce_change : String → ℕ → Change
  storage_change : String → String → Option String → Change
  code_change : String → Option String → Change
  refund_change : ℕ → Change
  add_log_change : String → Change
  add_preimage_change : String → Change

-- SimpleLedger with its stateChanger: the number of the changer that it has now, its changes, the last
-- one first, and its dirties. A changer that the ledger has given up is never read again.
pub record SimpleLedger : Type 0 where
  pub changer : ℕ
  pub accounts : String → Option SimpleAccount
  pub inner_cache : String → Option InnerAccount
  pub changes : List Change
  pub dirties : String → ℕ
  pub valid_revisions : List (ℕ × ℕ)
  pub next_revision_id : ℕ
  pub refund : ℕ
  pub preimages : String → Option String
  pub logs : String → List String
  pub log_size : ℕ
  pub thash : String
