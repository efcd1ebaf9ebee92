-- ===== src/Ledger/Journals.antt =====
-- The journals of blocks: internal/ledger/block_journal.go, and how internal/ledger/account.go makes
-- and internal/ledger/state_accessor.go writes them. A slice of bytes is a text; none is nil.
use model_lib.Base.{
  String, Bool, true, false, not, ◌&&◌, ◌||◌, List, [], ◌∷◌, Option, none, some, str_eq,
  if◌then◌else◌,
}
use model_lib.Ledger.State.{InnerAccount, SimpleAccount}
use model_lib.Ledger.Accounts.{is_nil_or_empty}

-- What the database has of one account: accountKey, codeKey and composeStateKey
pub record Row : Type 0 where
  pub inner : Option InnerAccount
  pub code : Option String
  pub states : String → Option String

-- blockJournalEntry
pub record Entry : Type 0 where
  pub address : String
  pub prev_account : Option InnerAccount
  pub account_changed : Bool
  pub prev_states : List (String × Option String)
  pub prev_code : Option String
  pub code_changed : Bool

-- An account of the ledger with its address and the keys of its dirty states in the order of their range.
pub record Touched : Type 0 where
  pub addr : String
  pub account : SimpleAccount
  pub keys : List String

-- bytes.Equal, for which nil is the empty slice
unfoldable pub same_bytes : Option String → Option String → Bool
unfolding is_nil_or_empty
same_bytes (some a) (some b) = str_eq a b
same_bytes a b = is_nil_or_empty a && is_nil_or_empty b

-- The value that a map of states gives: nil where there is none
unfoldable pub load : Option (Option String) → Option String
load none = none
load (some value) = value

-- The range of getStateJournalAndComputeHash
unfoldable pub get_state_journal : SimpleAccount → List String → List (String × Option String)
unfolding load same_bytes
get_state_journal a [] = []
get_state_journal a (key ∷ keys) =
    let rest = get_state_journal a keys in
    let prev = load (a.origin_state key) in
    if same_bytes prev (load (a.dirty_state key)) then rest else (key, prev) ∷ rest

-- The load of the original code in getJournalIfModified
unfoldable pub with_origin_code : Option String → SimpleAccount → SimpleAccount
with_origin_code stored a = elim a.origin_code [
  | some _ ↦ a
  | none ↦ elim a.origin_account [ none ↦ a | some inner ↦ loaded inner ]
]
  where
    loaded : InnerAccount → SimpleAccount
    loaded inner = elim inner.code_hash [ none ↦ a | some _ ↦ record a { origin_code = stored } ]

abbrev has_any {ℓ} : {A : Type ℓ} → List A → Bool
has_any [] = false
has_any (x ∷ xs) = true

-- The states that Commit writes of an account
unfoldable pub commit_states :
    SimpleAccount → List String → (String → Option String) → String → Option String
unfolding load same_bytes
commit_states a [] m = m
commit_states a (key ∷ keys) m =
    let value = load (a.dirty_state key) in
    commit_states a keys (
      if same_bytes (load (a.origin_state key)) value then m else λ j.
      if str_eq key j then value else m j)

-- The code that Commit writes of an account; none for a read through nil
unfoldable pub commit_code : SimpleAccount → Option String → Option (Option String)
unfolding same_bytes is_nil_or_empty
commit_code a old = if same_bytes a.origin_code a.dirty_code then some old else elim a.dirty_code [
  | some code ↦ some (some code)
  | none ↦ elim a.dirty_account [
    | none ↦ some old
    | some dirty ↦ elim a.origin_account [
      | none ↦ none
      | some inner ↦ some (
          if not (same_bytes inner.code_hash dirty.code_hash) && is_nil_or_empty dirty.code_hash
          then none
          else old)
    ]
  ]
]

-- InnerAccountChanged of eth-kit/ledger is a parameter.
abbrev pub Changed : Type 0
Changed = Option InnerAccount → Option InnerAccount → Bool

module _ (changed : Changed) where
  -- The journal of an account whose original code has been loaded
  unfoldable pub entry_of : Touched → Entry
  unfolding get_state_journal same_bytes
  entry_of t =
      let a = t.account in
      let account_changed = changed a.origin_account a.dirty_account in
      let code_changed = not (same_bytes a.origin_code a.dirty_code) in
      record {
        address = t.addr;
        prev_account = if account_changed then a.origin_account else none;
        account_changed = account_changed;
        prev_states = get_state_journal a t.keys;
        prev_code = if code_changed then a.origin_code else none;
        code_changed = code_changed;
      }

  -- getJournalIfModified: the account with its original code, and its journal
  unfoldable pub get_journal_if_modified : Row → Touched → Touched × Option Entry
  unfolding with_origin_code entry_of
  get_journal_if_modified r t =
      let t1 = record t { account = with_origin_code r.code t.account } in
      let e = entry_of t1 in
      (t1, if e.account_changed || e.code_changed || has_any e.prev_states then some e else none)

  -- The account that Commit writes; none where it marshals nil
  unfoldable pub commit_inner : SimpleAccount → Option InnerAccount → Option (Option InnerAccount)
  commit_inner a old =
      if changed a.origin_account a.dirty_account
      then elim a.dirty_account [ none ↦ none | some inner ↦ some (some inner) ]
      else some old

  -- One round of the loop of Commit. No account is suicided: Suicided always answers false.
  unfoldable pub commit_row : Touched → Row → Option Row
  unfolding commit_states commit_code commit_inner
  commit_row t r = elim (commit_inner t.account r.inner) [
    | none ↦ none
    | some inner ↦ elim (commit_code t.account r.code) [
      | none ↦ none
      | some code ↦
          some (record {
            inner = inner;
            code = code;
            states = commit_states t.account t.keys r.states;
          })
    ]
  ]

-- The states that revertJournal writes back
unfoldable pub revert_states :
    List (String × Option String) → (String → Option String) → String → Option String
revert_states [] m = m
revert_states (prev ∷ prevs) m = revert_states prevs (λ j. if str_eq prev.0 j then prev.1 else m j)

-- revertJournal
unfoldable pub revert_row : Entry → Row → Row
unfolding revert_states
revert_row e r = record {
  inner = if e.account_changed then e.prev_account else r.inner;
  code = if e.code_changed then e.prev_code else r.code;
  states = revert_states e.prev_states r.states;
}
