-- ===== src/Ledger/Accounts.antt =====
-- The methods of SimpleAccount in internal/ledger/account.go.
use model_lib.Base.{
  ℕ, ℤ, pos, String, Bool, true, false, not, ◌&&◌, Option, none, some, str_eq, put, ◌==◌, is_zeroℤ,
}
use model_lib.Ledger.State.{InnerAccount, Kit, SimpleAccount, Disk}

-- newAccount, with the changer that it is given
unfoldable pub new_account : ℕ → SimpleAccount
new_account changer = record {
  changer = changer;
  origin_account = none;
  dirty_account = none;
  origin_state = λ k. none;
  dirty_state = λ k. none;
  origin_code = none;
  dirty_code = none;
  suicided = false;
}

-- The value below the account: of the cache, or of the database.
unfoldable pub stored_state : Disk → String → String → Option String
stored_state d addr key = elim (d.state_cache addr key) [
  | some value ↦ value
  | none ↦ d.states_stored addr key
]

-- GetState: the value, nil where there is none, and the account that keeps what it has read
unfoldable pub account_state :
    Disk → String → String → SimpleAccount → Option String × SimpleAccount
unfolding stored_state
account_state d addr key a = elim (a.dirty_state key) [
  | some value ↦ (value, a)
  | none ↦ elim (a.origin_state key) [
    | some value ↦ (value, a)
    | none ↦ (
      stored_state d addr key,
      record a { origin_state = put a.origin_state key (stored_state d addr key) },
    )
  ]
]

-- setState and AddState
unfoldable pub store_state : String → Option String → SimpleAccount → SimpleAccount
store_state key value a = record a { dirty_state = put a.dirty_state key value }

-- GetBalance
unfoldable pub account_balance : SimpleAccount → ℤ
account_balance a = elim a.dirty_account [
  | some inner ↦ inner.balance
  | none ↦ elim a.origin_account [ some inner ↦ inner.balance | none ↦ pos 0 ]
]

-- GetNonce
unfoldable pub account_nonce : SimpleAccount → ℕ
account_nonce a = elim a.dirty_account [
  | some inner ↦ inner.nonce
  | none ↦ elim a.origin_account [ some inner ↦ inner.nonce | none ↦ 0 ]
]

-- CodeHash
unfoldable pub account_code_hash : SimpleAccount → Option String
account_code_hash a = elim a.dirty_account [
  | some inner ↦ inner.code_hash
  | none ↦ elim a.origin_account [ some inner ↦ inner.code_hash | none ↦ none ]
]

-- bytes.Equal(b, nil)
unfoldable pub is_nil_or_empty : Option String → Bool
is_nil_or_empty none = true
is_nil_or_empty (some b) = str_eq b ""

unfoldable pub stored_code : Disk → String → Option String
stored_code d addr = elim (d.code_cache addr) [ some code ↦ code | none ↦ d.codes_stored addr ]

-- Code
unfoldable pub account_code : Disk → String → SimpleAccount → Option String × SimpleAccount
unfolding account_code_hash is_nil_or_empty stored_code
account_code d addr a = elim a.dirty_code [
  | some code ↦ (some code, a)
  | none ↦ elim a.origin_code [
    | some code ↦ (some code, a)
    | none ↦ elim (is_nil_or_empty (account_code_hash a)) [
      | true ↦ (none, a)
      | false ↦ (
        stored_code d addr,
        record a { origin_code = stored_code d addr; dirty_code = stored_code d addr },
      )
    ]
  ]
]

-- IsEmpty, which reads the code where the balance and the nonce are 0
unfoldable pub account_is_empty : Disk → String → SimpleAccount → Bool × SimpleAccount
unfolding account_balance account_nonce account_code
account_is_empty d addr a = elim (is_zeroℤ (account_balance a) && (account_nonce a == 0)) [
  | false ↦ (false, a)
  | true ↦
      let (code, a1) = account_code d addr a in
      elim code [ some _ ↦ (false, a1) | none ↦ (not a1.suicided, a1) ]
]

module _ (kit : Kit) where
  -- The dirty account, a copy of the original one where there is none yet.
  unfoldable pub dirty_of : SimpleAccount → InnerAccount
  dirty_of a = elim a.dirty_account [ some inner ↦ inner | none ↦ kit.copy_or_new a.origin_account ]

  -- setBalance
  unfoldable pub write_balance : ℤ → SimpleAccount → SimpleAccount
  unfolding dirty_of
  write_balance balance a = record a {
    dirty_account = some (record (dirty_of a) { balance = balance });
  }

  -- setNonce
  unfoldable pub write_nonce : ℕ → SimpleAccount → SimpleAccount
  unfolding dirty_of
  write_nonce nonce a = record a { dirty_account = some (record (dirty_of a) { nonce = nonce }) }

  -- setCodeAndHash
  unfoldable pub write_code : Option String → SimpleAccount → SimpleAccount
  unfolding dirty_of
  write_code code a = record a {
    dirty_account = some (record (dirty_of a) { code_hash = some (kit.keccak code) });
    dirty_code = code;
  }
