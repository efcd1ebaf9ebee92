-- ===== src/Ledger/Operations.antt =====
-- The methods of SimpleLedger in internal/ledger/state_accessor.go that read and write accounts, with
-- stateChanger.append of internal/ledger/state_changer.go.
use model_lib.Base.{
  ℕ, ◌+◌, ◌-◌, ◌%◌, ℤ, pos, ◌+ℤ◌, negℤ, is_zeroℤ, String, true, false, [], ◌∷◌, ◌++◌, Option, none,
  some, if◌then◌else◌, str_eq, ltb, put, uint64_mod, ◌==◌,
}
use model_lib.Ledger.State.{
  InnerAccount, Kit, SimpleAccount, Disk, Change, SimpleLedger, create_object, suicide_change,
  balance_change, nonce_change, storage_change, code_change, refund_change, add_log_change,
  add_preimage_change,
}
use model_lib.Ledger.Accounts.{
  new_account, account_state, store_state, account_balance, account_nonce, account_code,
  account_is_empty, is_nil_or_empty, stored_code, write_balance, write_nonce, write_code,
}

-- dirtied
unfoldable pub dirtied : Change → Option String
dirtied (create_object addr) = some addr
dirtied (suicide_change addr prev balance) = some addr
dirtied (balance_change addr prev) = some addr
dirtied (nonce_change addr prev) = some addr
dirtied (storage_change addr key prev) = some addr
dirtied (code_change addr prev) = some addr
dirtied (refund_change prev) = none
dirtied (add_log_change hash) = none
dirtied (add_preimage_change hash) = none

-- s.dirties[addr]++
unfoldable pub dirty : Option String → (String → ℕ) → String → ℕ
dirty none m = m
dirty (some addr) m = λ x. if str_eq addr x then m x + 1 else m x

-- append
unfoldable pub append : Change → SimpleLedger → SimpleLedger
unfolding dirtied dirty
append ch l = record l { changes = ch ∷ l.changes; dirties = dirty (dirtied ch) l.dirties }

-- o.changer.append of an account: the change is the ledger's where the account has the changer that the
-- ledger has now; one of another changer is not seen again
unfoldable pub append_by : SimpleAccount → Change → SimpleLedger → SimpleLedger
unfolding append
append_by a ch l = if a.changer == l.changer then append ch l else l

-- l.accounts[addr] = account, and every write through the pointer that stands there
unfoldable pub set_account : String → SimpleAccount → SimpleLedger → SimpleLedger
set_account addr a l = record l { accounts = put l.accounts addr a }

module _ (d : Disk) where
  -- The account that GetAccount makes of one in the cache or in the database.
  unfoldable pub loaded_account : String → SimpleLedger → Option SimpleAccount
  unfolding new_account is_nil_or_empty stored_code
  loaded_account addr l = elim (l.inner_cache addr) [
    | some inner ↦ some (with_code inner (stored_code d addr))
    | none ↦ elim (d.accounts_stored addr) [
      | some inner ↦ some (with_code inner (d.codes_stored addr))
      | none ↦ none
    ]
  ]
    where
      with_code : InnerAccount → Option String → SimpleAccount
      with_code inner code = record (new_account l.changer) {
        origin_account = some inner;
        origin_code = if is_nil_or_empty inner.code_hash then none else code;
        dirty_code = if is_nil_or_empty inner.code_hash then none else code;
      }

  -- GetAccount: none for nil
  unfoldable pub found_account : String → SimpleLedger → Option SimpleAccount
  found_account addr l = elim (l.accounts addr) [ some a ↦ some a | none ↦ loaded_account addr l ]

  -- GetOrCreateAccount
  unfoldable pub get_or_create : String → SimpleLedger → SimpleAccount × SimpleLedger
  unfolding found_account new_account append set_account
  get_or_create addr l = elim (found_account addr l) [
    | some a ↦ (a, set_account addr a l)
    | none ↦
        let a = new_account l.changer in (a, set_account addr a (append (create_object addr) l))
  ]

  -- GetState
  unfoldable pub get_state : String → String → SimpleLedger → Option String × SimpleLedger
  unfolding get_or_create account_state set_account
  get_state addr key l =
      let (a, l1) = get_or_create addr l in
      let (value, a1) = account_state d addr key a in (value, set_account addr a1 l1)

  -- SetState, where no other changer is given
  unfoldable pub set_state : String → String → Option String → SimpleLedger → SimpleLedger
  unfolding get_or_create account_state store_state append_by set_account
  set_state addr key value l =
      let (a, l1) = get_or_create addr l in
      let (prev, a1) = account_state d addr key a in
      set_account addr (store_state key value a1) (append_by a1 (storage_change addr key prev) l1)

  -- AddState
  unfoldable pub add_state : String → String → Option String → SimpleLedger → SimpleLedger
  unfolding get_or_create store_state set_account
  add_state addr key value l =
      let (a, l1) = get_or_create addr l in set_account addr (store_state key value a) l1

  -- GetBalance, GetNonce, GetCode: the value and the ledger that has loaded or made the account
  unfoldable pub get_balance : String → SimpleLedger → ℤ × SimpleLedger
  unfolding get_or_create account_balance
  get_balance addr l = let (a, l1) = get_or_create addr l in (account_balance a, l1)

  unfoldable pub get_nonce : String → SimpleLedger → ℕ × SimpleLedger
  unfolding get_or_create account_nonce
  get_nonce addr l = let (a, l1) = get_or_create addr l in (account_nonce a, l1)

  unfoldable pub get_code : String → SimpleLedger → Option String × SimpleLedger
  unfolding get_or_create account_code set_account
  get_code addr l =
      let (a, l1) = get_or_create addr l in
      let (code, a1) = account_code d addr a in (code, set_account addr a1 l1)

module _ (kit : Kit) (d : Disk) where
  -- SimpleAccount.SetBalance
  unfoldable pub change_balance : String → ℤ → SimpleAccount → SimpleLedger → SimpleLedger
  unfolding append_by set_account write_balance account_balance
  change_balance addr balance a l =
      set_account addr (write_balance kit balance a)
        (append_by a (balance_change addr (account_balance a)) l)

  -- SetBalance
  unfoldable pub set_balance : String → ℤ → SimpleLedger → SimpleLedger
  unfolding get_or_create change_balance
  set_balance addr balance l =
      let (a, l1) = get_or_create d addr l in change_balance addr balance a l1

  -- AddBalance
  unfoldable pub add_balance : String → ℤ → SimpleLedger → SimpleLedger
  unfolding get_or_create change_balance account_balance
  add_balance addr amount l =
      let (a, l1) = get_or_create d addr l in
      if is_zeroℤ amount then l1 else change_balance addr (account_balance a +ℤ amount) a l1

  -- SubBalance, which leaves an empty account
  unfoldable pub sub_balance : String → ℤ → SimpleLedger → SimpleLedger
  unfolding get_or_create change_balance account_balance account_is_empty set_account
  sub_balance addr amount l =
      let (a, l1) = get_or_create d addr l in
      let (empty, a1) = account_is_empty d addr a in
      let l2 = set_account addr a1 l1 in
      if empty
      then l2
      else if is_zeroℤ amount
      then l2
      else change_balance addr (account_balance a1 +ℤ negℤ amount) a1 l2

  -- SetNonce
  unfoldable pub set_nonce : String → ℕ → SimpleLedger → SimpleLedger
  unfolding get_or_create append_by set_account write_nonce account_nonce
  set_nonce addr nonce l =
      let (a, l1) = get_or_create d addr l in
      set_account addr (write_nonce kit nonce a)
        (append_by a (nonce_change addr (account_nonce a)) l1)

  -- SetCode
  unfoldable pub set_code : String → Option String → SimpleLedger → SimpleLedger
  unfolding get_or_create append_by set_account write_code account_code
  set_code addr code l =
      let (a, l1) = get_or_create d addr l in
      let (prev, a1) = account_code d addr a in
      set_account addr (write_code kit code a1) (append_by a1 (code_change addr prev) l1)

  -- Suiside; none for the panic on an account that is not there. The flag's old value is read by
  -- Suicided, which is always false.
  unfoldable pub suiside : String → SimpleLedger → Option SimpleLedger
  unfolding found_account append set_account change_balance account_balance
  suiside addr l = elim (found_account d addr l) [
    | none ↦ none
    | some a ↦
        let a1 = record a { suicided = true } in
        let l1 = append (suicide_change addr false (account_balance a)) l in
        some (change_balance addr (pos 0) a1 (set_account addr a1 l1))
  ]

-- AddRefund, on a uint64
unfoldable pub add_refund : ℕ → SimpleLedger → SimpleLedger
unfolding append
add_refund gas l = record (append (refund_change l.refund) l) {
  refund = (l.refund + gas) % uint64_mod;
}

-- SubRefund; none for its panic
unfoldable pub sub_refund : ℕ → SimpleLedger → Option SimpleLedger
unfolding append
sub_refund gas l =
    if ltb l.refund gas
    then none
    else some (record (append (refund_change l.refund) l) { refund = l.refund - gas })

-- AddPreimage
unfoldable pub add_preimage : String → String → SimpleLedger → SimpleLedger
unfolding append
add_preimage hash preimage l = elim (l.preimages hash) [
  | some _ ↦ l
  | none ↦ record (append (add_preimage_change hash) l) {
    preimages = put l.preimages hash preimage;
  }
]

-- AddLog
unfoldable pub add_log : String → SimpleLedger → SimpleLedger
unfolding append
add_log log l = record (append (add_log_change l.thash) l) {
  logs = λ x. if str_eq l.thash x then l.logs x ++ log ∷ [] else l.logs x;
  log_size = l.log_size + 1;
}
