-- ===== src/Ledger/Blocks.antt =====
-- The end of a block in internal/ledger: FlushDirtyData, Commit, Version and RollbackState of
-- state_accessor.go, NewSimpleLedger and removeJournalsBeforeBlock of simple_ledger.go, and the range of
-- journals of block_journal.go. The SHA-256 sum over the accounts is a parameter; a batch is written as a whole.
use model_lib.Base.{
  ℕ, zero, suc, ◌+◌, ◌-◌, ◌==◌, String, Bool, true, false, not, ◌&&◌, List, [], ◌∷◌, Option, none,
  some, str_eq, if◌then◌else◌, put, ltb, leb,
}
use model_lib.Ledger.Journals.{
  Row, Entry, Touched, Changed, get_journal_if_modified, commit_row, revert_row,
}

pub record BlockJournal : Type 0 where
  pub journals : List Entry
  pub changed_hash : String

-- The database: the accounts, journalKey by height, and the two ends of the range of journals
pub record Database : Type 0 where
  pub rows : String → Row
  pub journal_at : ℕ → Option BlockJournal
  pub min_height : Option ℕ
  pub max_height : Option ℕ

-- The fields of SimpleLedger that the end of a block uses. `touched` is `accounts` in the order of a range
-- over it, and the empty text is the zero hash.
pub record BlockLedger : Type 0 where
  pub ldb : Database
  pub min_jnl_height : ℕ
  pub max_jnl_height : ℕ
  pub prev_jnl_hash : String
  pub block_journals : String → Option BlockJournal
  pub touched : List Touched

pub data BlockError : Type 0 where
  no_error no_block_journal rollback_to_higher_number rollback_without_journal : BlockError
  rollback_too_much remove_journal_out_of_range : BlockError

-- What a call leaves: none for a panic
abbrev pub Outcome : Type 0
Outcome = Option (BlockLedger × BlockError)

-- getJournalRange
unfoldable pub get_journal_range : Database → ℕ × ℕ
get_journal_range d = (height_of d.min_height, height_of d.max_height)
  where
    height_of : Option ℕ → ℕ
    height_of none = 0
    height_of (some h) = h

-- NewSimpleLedger; none for its error
unfoldable pub new_simple_ledger : Database → Option BlockLedger
unfolding get_journal_range
new_simple_ledger d =
    let (low, high) = get_journal_range d in
    if high == 0
    then some (opened low high "")
    else elim (d.journal_at high) [ none ↦ none | some j ↦ some (opened low high j.changed_hash) ]
  where
    opened : ℕ → ℕ → String → BlockLedger
    opened low high hash = record {
      ldb = d;
      min_jnl_height = low;
      max_jnl_height = high;
      prev_jnl_hash = hash;
      block_journals = λ root. none;
      touched = [];
    }

unfoldable pub set_row : String → Row → (String → Row) → String → Row
set_row addr r rows x = if str_eq addr x then r else rows x

-- The journal at a height, written or deleted
unfoldable pub set_journal :
    ℕ → Option BlockJournal → (ℕ → Option BlockJournal) → ℕ → Option BlockJournal
set_journal h j m i = if h == i then j else m i

-- The loop of removeJournalsBeforeBlock
unfoldable pub delete_journals : ℕ → ℕ → (ℕ → Option BlockJournal) → ℕ → Option BlockJournal
unfolding set_journal
delete_journals zero i m = m
delete_journals (suc rounds) i m = delete_journals rounds (i + 1) (set_journal i none m)

-- removeJournalsBeforeBlock
unfoldable pub remove_journals_before_block : ℕ → BlockLedger → BlockLedger × BlockError
unfolding delete_journals
remove_journals_before_block h l =
    if ltb l.max_jnl_height h
    then (l, remove_journal_out_of_range)
    else if leb h l.min_jnl_height
    then (l, no_error)
    else (
      record l {
        ldb = record l.ldb {
          journal_at = delete_journals (h - l.min_jnl_height) l.min_jnl_height l.ldb.journal_at;
          min_height = some h;
        };
        min_jnl_height = h;
      },
      no_error,
    )

-- Version
abbrev pub version : BlockLedger → ℕ
version l = l.max_jnl_height

-- The end of Commit behind the removal of old journals
unfoldable pub end_commit : BlockLedger × BlockError → Outcome
end_commit (l, no_error) = some (record l { block_journals = λ root. none }, no_error)
end_commit (l, failed) = some (l, failed)

module _ (changed : Changed) where
  -- The loop of FlushDirtyData over the accounts: those that have a journal, and the journals
  unfoldable pub dirty_accounts : (String → Row) → List Touched → List Touched × List Entry
  unfolding get_journal_if_modified
  dirty_accounts rows [] = ([], [])
  dirty_accounts rows (t ∷ ts) =
      let (dirty, journals) = dirty_accounts rows ts in
      let (t1, entry) = get_journal_if_modified changed (rows t.addr) t in
      elim entry [ none ↦ (dirty, journals) | some e ↦ (t1 ∷ dirty, e ∷ journals) ]

  -- FlushDirtyData: the dirty accounts and the root, and the ledger. `digest` is the SHA-256 sum over
  -- the data of the accounts, sorted by their addresses, and the last root.
  unfoldable pub flush_dirty_data :
      (List Touched → String → String) → BlockLedger → (List Touched × String) × BlockLedger
  unfolding dirty_accounts
  flush_dirty_data digest l =
      let (dirty, journals) = dirty_accounts l.ldb.rows l.touched in
      let root = digest dirty l.prev_jnl_hash in
      (
        (dirty, root),
        record l {
          block_journals =
              put l.block_journals root (record { journals = journals; changed_hash = root });
          prev_jnl_hash = root;
          touched = [];
        },
      )

  -- The loop of Commit over the accounts; none for a panic
  unfoldable pub commit_rows : List Touched → (String → Row) → Option (String → Row)
  unfolding commit_row set_row
  commit_rows [] rows = some rows
  commit_rows (t ∷ ts) rows = elim (commit_row changed t (rows t.addr)) [
    | none ↦ none
    | some r ↦ commit_rows ts (set_row t.addr r rows)
  ]

  -- Commit. `stored` is what getBlockJournal reads of the JSON of a journal: encoding/json replaces the
  -- bytes of a key that are no UTF-8.
  unfoldable pub commit :
      (BlockJournal → BlockJournal) → ℕ → List Touched → String → BlockLedger → Outcome
  unfolding commit_rows set_journal remove_journals_before_block end_commit
  commit stored h accounts root l = elim (commit_rows accounts l.ldb.rows) [
    | none ↦ none
    | some rows ↦ elim (l.block_journals root) [
      | none ↦ some (l, no_block_journal)
      | some j ↦
          let first = l.min_jnl_height == 0 in
          let l1 = record l {
            ldb = record {
              rows = rows;
              journal_at = set_journal h (some (stored j)) l.ldb.journal_at;
              min_height = if first then some h else l.ldb.min_height;
              max_height = some h;
            };
            min_jnl_height = if first then h else l.min_jnl_height;
            max_jnl_height = h;
          } in
          end_commit (if ltb 10 h then remove_journals_before_block (h - 10) l1 else (l1, no_error))
    ]
  ]

-- The loop of RollbackState over the journals of one block
unfoldable pub revert_rows : List Entry → (String → Row) → String → Row
unfolding revert_row set_row
revert_rows [] rows = rows
revert_rows (e ∷ es) rows = revert_rows es (set_row e.address (revert_row e (rows e.address)) rows)

-- The loop of RollbackState over the heights from `h + rounds` down to `h + 1`; false where a journal is
-- missing, with what has been written before
unfoldable pub roll_back : ℕ → ℕ → Database → Database × Bool
unfolding revert_rows set_journal
roll_back zero h d = (d, true)
roll_back (suc rounds) h d = elim (d.journal_at (h + suc rounds)) [
  | none ↦ (d, false)
  | some j ↦ roll_back rounds h (record d {
    rows = revert_rows j.journals d.rows;
    journal_at = set_journal (h + suc rounds) none d.journal_at;
    max_height = some (h + rounds);
  })
]

-- RollbackState; none for the read through nil where the journal of the height is missing
unfoldable pub rollback_state : ℕ → BlockLedger → Outcome
unfolding roll_back
rollback_state h l =
    if ltb l.max_jnl_height h
    then some (l, rollback_to_higher_number)
    else if ltb h l.min_jnl_height && not ((l.min_jnl_height == 1) && (h == 0))
    then some (l, rollback_too_much)
    else if l.max_jnl_height == h
    then some (l, no_error)
    else (let (d, complete) = roll_back (l.max_jnl_height - h) h l.ldb in
        let l1 = record l { ldb = d; touched = [] } in
        if not complete
        then some (l1, rollback_without_journal)
        else if h == 0
        then some
            (record l1 { prev_jnl_hash = ""; min_jnl_height = 0; max_jnl_height = h }, no_error)
        else elim (d.journal_at h) [
          | none ↦ none
          | some j ↦
              some (record l1 { prev_jnl_hash = j.changed_hash; max_jnl_height = h }, no_error)
        ])
