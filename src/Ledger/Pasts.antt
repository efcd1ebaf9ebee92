-- ===== src/Ledger/Pasts.antt =====
-- RollbackState of internal/ledger/state_accessor.go against the history of the database.
use model_lib.Base.{
  ℕ, zero, suc, ◌+◌, ◌-◌, ◌≤◌, ◌<◌, ◌==◌, ◌≡◌, ◌⊎◌, refl, sym, ap, ◌∙◌, subst, String, true, false,
  not, ◌&&◌, [], Option, none, some, ltb, arith, inl, inr, Bool-cases, ==_iff,
}
use model_lib.Ledger.Journals.{Row}
use model_lib.Ledger.Blocks.{
  BlockJournal, Database, BlockLedger, no_error, set_journal, revert_rows, roll_back,
  rollback_state,
}

-- The abstract view of the database: what the accounts were after each block.
abbrev pub Past : Type 0
Past = ℕ → String → Row

-- The journal at the height takes the accounts back by one block.
unfoldable pub TakesBack : Past → (ℕ → Option BlockJournal) → ℕ → Type 0
unfolding revert_rows
TakesBack past m i =
    (j : BlockJournal) × (m i ≡ some j) × (revert_rows j.journals (past i) ≡ past (i - 1))

-- The database has the accounts of the last block, and a journal for every block of its range.
unfoldable pub Traces : Past → BlockLedger → Type 0
unfolding TakesBack
Traces past l =
    (l.ldb.rows ≡ past l.max_jnl_height)
    × l.min_jnl_height ≤ l.max_jnl_height
    × (l.min_jnl_height ≡ 0 → l.max_jnl_height ≡ 0)
    × ((i : ℕ)
        → l.min_jnl_height ≤ i
        → 0 < i
        → i ≤ l.max_jnl_height
        → TakesBack past l.ldb.journal_at i)

roll_back-past :
    (past : Past) (rounds h : ℕ) (d : Database)
    → d.rows ≡ past (h + rounds)
    → ((i : ℕ) → h < i → i ≤ h + rounds → TakesBack past d.journal_at i)
    → ((roll_back rounds h d).1 ≡ true)
      × ((roll_back rounds h d).0.rows ≡ past h)
      × ((i : ℕ) → i ≤ h → (roll_back rounds h d).0.journal_at i ≡ d.journal_at i)
unfolding roll_back TakesBack
roll_back-past past zero h d e t = (refl, e ∙ ap past (omega arith), λ i b. refl)
roll_back-past past (suc k) h d e t =
    let (j, f, back) = t (h + suc k) (omega arith) (omega arith) in
    let m = set_journal (h + suc k) none d.journal_at in
    let rows : revert_rows j.journals d.rows ≡ past (h + k) =
      ap (revert_rows j.journals) e ∙ (back ∙ ap past (omega arith)) in
    let next : Database = record d {
      rows = revert_rows j.journals d.rows;
      journal_at = m;
      max_height = some (h + k);
    } in
    let (complete, at, kept) = roll_back-past past k h next rows (λ i low high.
      subst
        (λ x. (j : BlockJournal) × (x ≡ some j) × (revert_rows j.journals (past i) ≡ past (i - 1)))
        (sym (unset i high)) (t i low (omega (arith, high)))) in
    rw (roll_back, f) (complete, at, λ i b. kept i b ∙ unset i (omega (arith, b)))
  where
    unset : (i : ℕ) → i ≤ h + k → set_journal (h + suc k) none d.journal_at i ≡ d.journal_at i
    unset i b = unfold set_journal in ground (arith, b)

-- Of a database that traces a past, that is, whose accounts are those of its last block and whose journal
-- of each height of its range, as it is read back, takes the accounts of that block to those of the
-- block before: RollbackState to a height whose journal is kept, or to 0 while the first journal is,
-- succeeds, the database has the accounts as they were after the block of that height, and it traces the
-- past from there on.
pub rollback_state-Traces :
    (past : Past) (h : ℕ) (l : BlockLedger)
    → Traces past l
    → h ≤ l.max_jnl_height
    → (0 < h × l.min_jnl_height ≤ h) ⊎ ((h ≡ 0) × l.min_jnl_height ≤ 1)
    → (l2 : BlockLedger) × (rollback_state h l ≡ some (l2, no_error))
      × (l2.max_jnl_height ≡ h)
      × (l2.ldb.rows ≡ past h)
      × Traces past l2
unfolding Traces rollback_state
rollback_state-Traces past h l (rows, range, start, back) high low =
    let below : ltb l.max_jnl_height h ≡ false = ground (arith, high) in
    let kept : (ltb h l.min_jnl_height && not ((l.min_jnl_height == 1) && (h == 0))) ≡ false =
      ground (arith, low) in
    elim (Bool-cases (l.max_jnl_height == h)) [
      | inl s ↦
          let same : l.max_jnl_height ≡ h = (==_iff _ _).0 s in
          (
            l,
            rw (rollback_state, below, kept, s) refl,
            same,
            rows ∙ ap past same,
            (rows, range, start, back),
          )
      | inr s ↦
          let more : h < l.max_jnl_height = ground (arith, s, high) in
          let rounds : h + (l.max_jnl_height - h) ≡ l.max_jnl_height = omega (arith, high) in
          let d : Database = (roll_back (l.max_jnl_height - h) h l.ldb).0 in
          let (complete, at, journals) =
            roll_back-past past (l.max_jnl_height - h) h l.ldb (rows ∙ ap past (sym rounds))
              (λ i a c.
                back i (ground (arith, low, a)) (omega (arith, a)) (omega (arith, c, rounds))) in
          elim (Bool-cases (h == 0)) [
            | inl z ↦ (
              record l {
                ldb = d;
                touched = [];
                prev_jnl_hash = "";
                min_jnl_height = 0;
                max_jnl_height = h;
              },
              rw (rollback_state, below, kept, s, complete, z) refl,
              refl,
              at,
              (at, omega arith, λ e. (==_iff h 0).0 z, λ i a c e. absurd (ground (arith, z, c, e))),
            )
            | inr z ↦
                let own = back h (ground (arith, low, z)) (ground (arith, z)) high in
                let found : (roll_back (l.max_jnl_height - h) h l.ldb).0.journal_at h ≡ some own.0 =
                  journals h (omega arith) ∙ own.1 in
                (
                  record l {
                    ldb = d;
                    touched = [];
                    prev_jnl_hash = own.0.changed_hash;
                    max_jnl_height = h;
                  },
                  rw (rollback_state, below, kept, s, complete, z, found) refl,
                  refl,
                  at,
                  (
                    at,
                    ground (arith, low, z),
                    λ e. absurd (ground (arith, start e, more)),
                    λ i a c e.
                        subst
                          (λ x.
                            (j : BlockJournal) × (x ≡ some j)
                            × (revert_rows j.journals (past i) ≡ past (i - 1)))
                          (sym (journals i e)) (back i a c (omega (arith, e, high))),
                  ),
                )
          ]
    ]
