-- ===== src/Ledger/Snapshots.antt =====
-- The reverts of changes, of internal/ledger/state_changer.go, and the snapshots of
-- internal/ledger/state_accessor.go.
use model_lib.Base.{
  ℕ, ◌+◌, ◌-◌, String, true, false, List, [], ◌∷◌, ◌++◌, Option, none, some, if◌then◌else◌, str_eq,
  leb, ◌==◌, delete, length, take, drop,
}
use model_lib.Ledger.State.{
  Kit, SimpleAccount, Disk, Change, SimpleLedger, create_object, suicide_change, balance_change,
  nonce_change, storage_change, code_change, refund_change, add_log_change, add_preimage_change,
}
use model_lib.Ledger.Accounts.{store_state, write_balance, write_nonce, write_code}
use model_lib.Ledger.Operations.{found_account, set_account, dirtied}

-- s.dirties[addr]--; an entry that reaches 0 is deleted
unfoldable pub undirty : Option String → (String → ℕ) → String → ℕ
undirty none m = m
undirty (some addr) m = λ x. if str_eq addr x then m x - 1 else m x

-- logs[:len(logs)-1]
unfoldable pub without_last : List String → List String
without_last logs = take (length logs - 1) logs

-- Snapshot
unfoldable pub snapshot : SimpleLedger → ℕ × SimpleLedger
snapshot l = (
  l.next_revision_id,
  record l {
    next_revision_id = l.next_revision_id + 1;
    valid_revisions = l.valid_revisions ++ (l.next_revision_id, length l.changes) ∷ [];
  },
)

-- sort.Search: the first revision whose id is not below, with the revisions before it
unfoldable pub find_revision : ℕ → List (ℕ × ℕ) → Option (List (ℕ × ℕ) × (ℕ × ℕ))
find_revision revid [] = none
find_revision revid (r ∷ rs) = elim (leb revid r.0) [
  | true ↦ some ([], r)
  | false ↦ elim (find_revision revid rs) [
    | none ↦ none
    | some (before, found) ↦ some (r ∷ before, found)
  ]
]

module _ (kit : Kit) (d : Disk) where
  -- A write to the account that GetOrCreateAccount returns. To create one would take the changer's lock
  -- a second time: none, for the revert that never returns.
  unfoldable pub on_account :
      String → (SimpleAccount → SimpleAccount) → SimpleLedger → Option SimpleLedger
  unfolding found_account set_account
  on_account addr f l = elim (found_account d addr l) [
    | none ↦ none
    | some a ↦ some (set_account addr (f a) l)
  ]

  -- revert of each change
  unfoldable pub revert_change : Change → SimpleLedger → Option SimpleLedger
  unfolding on_account write_balance write_nonce write_code store_state without_last
  revert_change (create_object addr) l =
      some (record l { accounts = delete l.accounts addr; inner_cache = delete l.inner_cache addr })
  revert_change (suicide_change addr prev balance) l =
      on_account addr (λ a. write_balance kit balance (record a { suicided = prev })) l
  revert_change (balance_change addr prev) l = on_account addr (write_balance kit prev) l
  revert_change (nonce_change addr prev) l = on_account addr (write_nonce kit prev) l
  revert_change (storage_change addr key prev) l = on_account addr (store_state key prev) l
  revert_change (code_change addr prev) l = on_account addr (write_code kit prev) l
  revert_change (refund_change prev) l = some (record l { refund = prev })
  revert_change (add_log_change hash) l = some (record l {
    logs = λ x. if str_eq hash x then without_last (l.logs x) else l.logs x;
    log_size = l.log_size - 1;
  })
  revert_change (add_preimage_change hash) l =
      some (record l { preimages = delete l.preimages hash })

  -- The loop of stateChanger.revert over the changes, the last one first
  unfoldable pub undo : List Change → SimpleLedger → Option SimpleLedger
  unfolding revert_change undirty dirtied
  undo [] l = some l
  undo (ch ∷ chs) l = elim (revert_change ch l) [
    | none ↦ none
    | some l1 ↦ undo chs (record l1 { dirties = undirty (dirtied ch) l1.dirties })
  ]

  -- stateChanger.revert to the length `snapshot` of the changes
  unfoldable pub revert : ℕ → SimpleLedger → Option SimpleLedger
  unfolding undo
  revert snapshot l =
      let n = length l.changes - snapshot in
      elim (undo (take n l.changes) l) [
        | none ↦ none
        | some l1 ↦ some (record l1 { changes = drop n l.changes })
      ]

  -- RevertToSnapshot; none for its panic
  unfoldable pub revert_to_snapshot : ℕ → SimpleLedger → Option SimpleLedger
  unfolding find_revision revert
  revert_to_snapshot revid l = elim (find_revision revid l.valid_revisions) [
    | none ↦ none
    | some (before, (id, index)) ↦
        if id == revid
        then elim (revert index l) [
          | none ↦ none
          | some l1 ↦ some (record l1 { valid_revisions = before })
        ]
        else none
  ]

-- ClearChangerAndRefund: a changer with changes is replaced by a new one
unfoldable pub clear_changer_and_refund : SimpleLedger → SimpleLedger
clear_changer_and_refund l =
    let l1 = record l { valid_revisions = []; next_revision_id = 0 } in
    elim l.changes [
      | [] ↦ l1
      | _ ↦ record l1 { changer = l.changer + 1; changes = []; dirties = λ x. 0; refund = 0 }
    ]
