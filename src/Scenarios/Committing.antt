-- ===== src/Scenarios/Committing.antt =====
-- A block of one account with one state, committed by a ledger that has none yet, and rolled back.
use model_lib.Base.{
  ◌==◌, ◌≤◌, ◌≡◌, refl, pos, String, true, false, List, [], ◌∷◌, none, some, str_eq, if◌then◌else◌,
  arith, inr,
}
use model_lib.Ledger.State.{InnerAccount}
use model_lib.Ledger.Journals.{Row, Touched, Changed, entry_of, commit_row, revert_row}
use model_lib.Ledger.Rows.{Faithful, revert-commit_row}
use model_lib.Ledger.Blocks.{
  BlockLedger, no_error, dirty_accounts, flush_dirty_data, commit_rows, commit, rollback_state,
}
use model_lib.Ledger.Pasts.{Past, Traces, rollback_state-Traces}
use model_lib.Ledger.Durable.{Remembers, commit-Traces}

-- An account that is written counts as changed.
abbrev written : Changed
written old none = false
written old (some a) = true

abbrev funded : InnerAccount
funded = record { nonce = 1; balance = pos 50; code_hash = none }

abbrev account : Touched
account = record {
  addr = "0xa";
  account = record {
    origin_account = none;
    dirty_account = some funded;
    origin_state = λ key. some none;
    dirty_state = λ key. if str_eq "key" key then some (some "value") else none;
    origin_code = none;
    dirty_code = none;
    suicided = false;
    changer = 0;
  };
  keys = "key" ∷ [];
}

abbrev no_row : Row
no_row = record { inner = none; code = none; states = λ key. none }

abbrev new_row : Row
new_row = record {
  inner = some funded;
  code = none;
  states = λ key. if str_eq "key" key then some "value" else none;
}

account-Faithful : Faithful account no_row
unfolding Faithful
account-Faithful = (refl, refl, (refl, tt), (refl, tt))

revert-commit_row_example : revert_row (entry_of written account) new_row ≡ no_row
revert-commit_row_example = revert-commit_row written account no_row new_row account-Faithful row
  where
    row : commit_row written account no_row ≡ some new_row
    row = unfold commit_row in refl

abbrev past : Past
past h addr = if h == 0 then no_row else if str_eq "0xa" addr then new_row else no_row

abbrev first_block : BlockLedger
first_block = record {
  ldb = record {
    rows = λ addr. no_row;
    journal_at = λ h. none;
    min_height = none;
    max_height = none;
  };
  min_jnl_height = 0;
  max_jnl_height = 0;
  prev_jnl_hash = "";
  block_journals = λ root. none;
  touched = account ∷ [];
}

abbrev digest : List Touched → String → String
digest dirty prev = "root"

first_block-Traces : Traces past first_block
unfolding Traces
first_block-Traces =
    (refl, omega arith, λ e. refl, λ i low positive high. absurd (omega (arith, positive, high)))

first_block-Remembers : Remembers written digest first_block
unfolding Remembers
first_block-Remembers = ((account-Faithful, tt), (refl, tt))

rows_written :
    commit_rows written
      (dirty_accounts written first_block.ldb.rows first_block.touched).0
      first_block.ldb.rows
    ≡ some (past 1)
unfolding commit_rows dirty_accounts
rows_written = refl

commit-Traces_example :
    (let ((dirty, root), l1) = flush_dirty_data written digest first_block in
      (l2 : BlockLedger) × (commit written (λ j. j) 1 dirty root l1 ≡ some (l2, no_error))
      × (l2.max_jnl_height ≡ 1)
      × Traces past l2)
commit-Traces_example =
    commit-Traces written digest (λ j. j) past first_block first_block-Traces first_block-Remembers
      rows_written refl

-- The ledger after the block
abbrev later : BlockLedger
later =
    (commit-Traces written digest (λ j. j) past first_block first_block-Traces first_block-Remembers
      rows_written refl).0

later-Traces : Traces past later
later-Traces =
    (commit-Traces written digest (λ j. j) past first_block first_block-Traces first_block-Remembers
      rows_written refl).3

later_height : later.max_jnl_height ≡ 1
later_height =
    (commit-Traces written digest (λ j. j) past first_block first_block-Traces first_block-Remembers
      rows_written refl).2

rollback_state-Traces_example :
    (l2 : BlockLedger) × (rollback_state 0 later ≡ some (l2, no_error))
    × (l2.max_jnl_height ≡ 0)
    × (l2.ldb.rows ≡ past 0)
    × Traces past l2
rollback_state-Traces_example =
    rollback_state-Traces past 0 later later-Traces (omega (arith, later_height))
      (inr (refl, lowest))
  where
    lowest : later.min_jnl_height ≤ 1
    lowest = unfold Traces in omega (arith, later-Traces.1, later_height)
