-- ===== src/Ledger/Durable.antt =====
-- Commit of internal/ledger/state_accessor.go and removeJournalsBeforeBlock of
-- internal/ledger/simple_ledger.go keep what RollbackState needs.
use model_lib.Base.{
  ℕ, zero, suc, ◌+◌, ◌-◌, ◌≤◌, ◌<◌, ◌==◌, ◌≡◌, refl, ap, ◌∙◌, subst, String, false, List, [],
  Option, none, some, if◌then◌else◌, ltb, leb, arith, inl, inr, Bool-cases, ==_iff, put, put_self,
  Distinct, All,
}
use model_lib.Ledger.Journals.{Touched, Changed, with_origin_code}
use model_lib.Ledger.Rows.{Faithful}
use model_lib.Ledger.Blocks.{
  BlockJournal, BlockLedger, BlockError, no_error, no_block_journal, rollback_to_higher_number,
  rollback_without_journal, rollback_too_much, remove_journal_out_of_range, end_commit, set_journal,
  delete_journals, remove_journals_before_block, revert_rows, dirty_accounts, flush_dirty_data,
  commit_rows, commit,
}
use model_lib.Ledger.Pasts.{Past, TakesBack, Traces}
use model_lib.Ledger.Commits.{
  Rows, addresses, flushed, commit_rows-Committed, revert_rows-Committed,
}

delete_journals-above :
    (rounds start : ℕ) (m : ℕ → Option BlockJournal) (i : ℕ)
    → start + rounds ≤ i
    → delete_journals rounds start m i ≡ m i
unfolding delete_journals set_journal
delete_journals-above zero start m i h = refl
delete_journals-above (suc k) start m i h =
    delete_journals-above k (start + 1) (set_journal start none m) i (omega (arith, h))
    ∙ (unfold set_journal in ground (arith, h))

-- A journal that is read where it was takes the accounts back as it did.
moved :
    (past : Past) (m m' : ℕ → Option BlockJournal) (i : ℕ)
    → m' i ≡ m i
    → TakesBack past m i
    → TakesBack past m' i
unfolding TakesBack
moved past m m' i e (j, f, r) = (j, e ∙ f, r)

-- Without the journals of old blocks the newer ones still take the accounts back.
pub remove-Traces :
    (past : Past) (h : ℕ) (l : BlockLedger)
    → Traces past l
    → 0 < h
    → h ≤ l.max_jnl_height
    → ((remove_journals_before_block h l).1 ≡ no_error)
      × ((remove_journals_before_block h l).0.max_jnl_height ≡ l.max_jnl_height)
      × Traces past (remove_journals_before_block h l).0
unfolding Traces remove_journals_before_block
remove-Traces past h l (rows, range, start, back) low high =
    let inside : ltb l.max_jnl_height h ≡ false = ground (arith, high) in
    elim (Bool-cases (leb h l.min_jnl_height)) [
      | inl b ↦
          rw (remove_journals_before_block, inside, b) (refl, refl, (rows, range, start, back))
      | inr b ↦
          let after : l.min_jnl_height < h = ground (arith, b) in
          rw (remove_journals_before_block, inside, b)
            (
              refl,
              refl,
              (
                rows,
                high,
                λ e. absurd (omega (arith, e, low)),
                λ i a c e.
                    moved past l.ldb.journal_at
                      (delete_journals (h - l.min_jnl_height) l.min_jnl_height l.ldb.journal_at) i
                      (delete_journals-above (h - l.min_jnl_height) l.min_jnl_height
                        l.ldb.journal_at i (omega (arith, a, after)))
                      (back i (omega (arith, a, after)) c e),
              ),
            )
    ]

finished :
    (p : BlockLedger × BlockError)
    → p.1 ≡ no_error
    → end_commit p ≡ some (record p.0 { block_journals = λ x. none }, no_error)
unfolding end_commit
finished (l, no_error) ok = refl
finished (l, no_block_journal) ok = absurd (ground (arith, ok))
finished (l, rollback_to_higher_number) ok = absurd (ground (arith, ok))
finished (l, rollback_without_journal) ok = absurd (ground (arith, ok))
finished (l, rollback_too_much) ok = absurd (ground (arith, ok))
finished (l, remove_journal_out_of_range) ok = absurd (ground (arith, ok))

module _ (changed : Changed) (digest : List Touched → String → String) where
  -- Every account of the block remembers what the database has of it, once its code has been loaded, and
  -- no address is there twice.
  unfoldable pub Remembers : BlockLedger → Type 0
  unfolding Faithful Distinct with_origin_code
  Remembers l =
      All
        (λ t.
          Faithful (record t { account = with_origin_code (l.ldb.rows t.addr).code t.account })
            (l.ldb.rows t.addr))
        l.touched
      × Distinct (addresses l.touched)

  -- The journal of the block takes the accounts back.
  journal-back :
      (l : BlockLedger) (after : Rows)
      → Remembers l
      → commit_rows changed (dirty_accounts changed l.ldb.rows l.touched).0 l.ldb.rows ≡ some after
      → revert_rows (dirty_accounts changed l.ldb.rows l.touched).1 after ≡ l.ldb.rows
  unfolding Remembers
  journal-back l after (faithful, distinct) e =
      let (same, all, once, absent) = flushed changed l.ldb.rows l.touched faithful distinct in
      let (committed, others) = commit_rows-Committed changed _ l.ldb.rows after once e in
      ap (λ es. revert_rows es after) same
      ∙ (λ k x. revert_rows-Committed changed _ l.ldb.rows after x once all committed others k)

  -- What Commit at the next height writes before it removes old journals
  abbrev written : Rows → BlockLedger → BlockLedger
  written after l =
      let (dirty, journals) = dirty_accounts changed l.ldb.rows l.touched in
      let root = digest dirty l.prev_jnl_hash in
      let j : BlockJournal = record { journals = journals; changed_hash = root } in
      record l {
        ldb = record {
          rows = after;
          journal_at = set_journal (suc l.max_jnl_height) (some j) l.ldb.journal_at;
          min_height =
              if l.min_jnl_height == 0 then some (suc l.max_jnl_height) else l.ldb.min_height;
          max_height = some (suc l.max_jnl_height);
        };
        min_jnl_height = if l.min_jnl_height == 0 then suc l.max_jnl_height else l.min_jnl_height;
        max_jnl_height = suc l.max_jnl_height;
        prev_jnl_hash = root;
        block_journals = put l.block_journals root j;
        touched = [];
      }

  written-Traces :
      (past : Past) (l : BlockLedger)
      → Traces past l
      → Remembers l
      → commit_rows changed (dirty_accounts changed l.ldb.rows l.touched).0 l.ldb.rows
        ≡ some (past (suc l.max_jnl_height))
      → Traces past (written (past (suc l.max_jnl_height)) l)
  unfolding Traces
  written-Traces past l (rows, range, start, back) r e = (
    refl,
    ground (arith, range),
    λ z. absurd (ground (arith, z)),
    λ i a c d. elim (Bool-cases (suc l.max_jnl_height == i)) [
      | inl s ↦
          let same : suc l.max_jnl_height ≡ i = (==_iff _ _).0 s in
          subst (TakesBack past (written (past (suc l.max_jnl_height)) l).ldb.journal_at) same own
      | inr s ↦
          moved past l.ldb.journal_at (written (past (suc l.max_jnl_height)) l).ldb.journal_at i
            (other i s) (back i (ground (arith, a, c, d, s, start)) c (ground (arith, d, s)))
    ],
  )
    where
      other :
          (i : ℕ)
          → (suc l.max_jnl_height == i) ≡ false
          → (written (past (suc l.max_jnl_height)) l).ldb.journal_at i ≡ l.ldb.journal_at i
      other i s = unfold set_journal in rw s refl

      own :
          TakesBack past
            (written (past (suc l.max_jnl_height)) l).ldb.journal_at
            (suc l.max_jnl_height)
      own =
          unfold TakesBack set_journal in
          (
            record {
              journals = (dirty_accounts changed l.ldb.rows l.touched).1;
              changed_hash = digest (dirty_accounts changed l.ldb.rows l.touched).0 l.prev_jnl_hash;
            },
            rw ((==_iff (suc l.max_jnl_height) (suc l.max_jnl_height)).1 refl) refl,
            journal-back l (past (suc l.max_jnl_height)) r e ∙ (rows ∙ ap past (omega arith)),
          )

  -- The journal of the block
  abbrev pub journal_of : BlockLedger → BlockJournal
  journal_of l =
      let (dirty, journals) = dirty_accounts changed l.ldb.rows l.touched in
      record { journals = journals; changed_hash = digest dirty l.prev_jnl_hash }

  -- FlushDirtyData followed by Commit at the next height succeeds wherever no account is read through nil,
  -- and the database can be rolled back to all the heights from which it could be before, and to the
  -- last one, if the accounts of the block remember what the database has of them and the journal of
  -- the block is read back from its JSON as it was written.
  pub commit-Traces :
      (stored : BlockJournal → BlockJournal) (past : Past) (l : BlockLedger)
      → Traces past l
      → Remembers l
      → commit_rows changed (dirty_accounts changed l.ldb.rows l.touched).0 l.ldb.rows
        ≡ some (past (suc l.max_jnl_height))
      → stored (journal_of l) ≡ journal_of l
      → (let ((dirty, root), l1) = flush_dirty_data changed digest l in
          (l2 : BlockLedger) × (commit changed stored (suc l.max_jnl_height) dirty root l1
            ≡ some (l2, no_error))
          × (l2.max_jnl_height ≡ suc l.max_jnl_height)
          × Traces past l2)
  unfolding flush_dirty_data commit Traces
  commit-Traces stored past l t r e s =
      let h = suc l.max_jnl_height in
      let (dirty, journals) = dirty_accounts changed l.ldb.rows l.touched in
      let root = digest dirty l.prev_jnl_hash in
      let j : BlockJournal = record { journals = journals; changed_hash = root } in
      let w = written (past h) l in
      let wt = written-Traces past l t r e in
      elim (Bool-cases (ltb 10 h)) [
        | inr b ↦ (
          record w { block_journals = λ x. none },
          rw (commit, e, put_self l.block_journals root j, s, b) refl,
          refl,
          wt,
        )
        | inl b ↦
            let (ok, same, rt) =
              remove-Traces past (h - 10) w wt (ground (arith, b)) (omega arith) in
            (
              record (remove_journals_before_block (h - 10) w).0 { block_journals = λ x. none },
              rw (commit, e, put_self l.block_journals root j, s, b)
                  (finished (remove_journals_before_block (h - 10) w) ok),
              same,
              rt,
            )
      ]
