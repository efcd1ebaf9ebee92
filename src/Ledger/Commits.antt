-- ===== src/Ledger/Commits.antt =====
-- The journals that FlushDirtyData of internal/ledger/state_accessor.go computes undo what Commit writes
-- of all the accounts of a block.
use model_lib.Base.{
  ◌≡◌, refl, sym, ap, ◌∙◌, subst, String, Bool, true, false, List, [], ◌∷◌, none, some, str_eq,
  eq_iff, if◌then◌else◌, arith, inl, inr, Bool-cases, Option-cases, has_key, Distinct, All, map,
}
use text.Mathlib.TextPositions.{eq_refl}
use model_lib.Ledger.Journals.{
  Row, Entry, Touched, Changed, entry_of, get_journal_if_modified, with_origin_code, commit_row,
  revert_row,
}
use model_lib.Ledger.Rows.{Faithful, revert-commit_row}
use model_lib.Ledger.Blocks.{set_row, dirty_accounts, commit_rows, revert_rows}

abbrev pub Rows : Type 0
Rows = String → Row

abbrev pub addresses : List Touched → List String
addresses = map (λ t. t.addr)

-- Every account remembers what the database has.
abbrev pub AllFaithful : Rows → List Touched → Type 0
AllFaithful rows ts = All (λ t. Faithful t (rows t.addr)) ts

not_in :
    (x : String) (t : Touched) (ts : List Touched)
    → has_key x (addresses (t ∷ ts)) ≡ false
    → (str_eq t.addr x ≡ false) × (has_key x (addresses ts) ≡ false)
unfolding has_key
not_in x t ts h = (ground (arith, h), ground (arith, h))

unseen :
    (x : String) (r : Row) (rows : Rows) (ts : List Touched)
    → has_key x (addresses ts) ≡ false
    → All (λ t. set_row x r rows t.addr ≡ rows t.addr) ts
unfolding set_row
unseen x r rows [] h = tt
unseen x r rows (t ∷ ts) h =
    let (n, rest) = not_in x t ts h in
    let other : str_eq x t.addr ≡ false = ground (arith, n, eq_iff x t.addr, eq_iff t.addr x) in
    (rw other refl, unseen x r rows ts rest)

-- A predicate of accounts and rows holds wherever the rows are the same.
carried {ℓ} :
    (P : Touched → Row → Type ℓ) (rows rows' : Rows) (ts : List Touched)
    → All (λ t. rows t.addr ≡ rows' t.addr) ts
    → All (λ t. P t (rows t.addr)) ts
    → All (λ t. P t (rows' t.addr)) ts
carried P rows rows' [] e a = tt
carried P rows rows' (t ∷ ts) e a = (subst (P t) e.0 a.0, carried P rows rows' ts e.1 a.1)

backwards :
    (rows rows' : Rows) (ts : List Touched)
    → All (λ t. rows t.addr ≡ rows' t.addr) ts
    → All (λ t. rows' t.addr ≡ rows t.addr) ts
backwards rows rows' [] e = tt
backwards rows rows' (t ∷ ts) e = (sym e.0, backwards rows rows' ts e.1)

if_some : (b : Bool) (x e : Entry) → (if b then some x else none) ≡ some e → x ≡ e
if_some true x e h = ap (λ o. elim o [ some y ↦ y | none ↦ x ]) h
if_some false x e h = absurd (ground (arith, h))

module _ (changed : Changed) where
  abbrev pub Committed : Rows → Rows → List Touched → Type 0
  Committed rows after ts = All (λ t. commit_row changed t (rows t.addr) ≡ some (after t.addr)) ts

  pub commit_rows-Committed :
      (ts : List Touched) (rows after : Rows)
      → Distinct (addresses ts)
      → commit_rows changed ts rows ≡ some after
      → Committed rows after ts
        × ((x : String) → has_key x (addresses ts) ≡ false → after x ≡ rows x)
  unfolding commit_rows Distinct
  commit_rows-Committed [] rows after d e =
      (tt, λ x h. ap (λ o. elim o [ some m ↦ m x | none ↦ rows x ]) (sym e))
  commit_rows-Committed (t ∷ ts) rows after d e =
      elim (Option-cases (commit_row changed t (rows t.addr))) [
        | inl n ↦ absurd (ground (arith, e, n))
        | inr (r, f) ↦
            let (all, others) =
              commit_rows-Committed ts (set_row t.addr r rows) after d.1
                (rw (commit_rows, f) at e) in
            (
              (
                f ∙ ap some (sym (others t.addr d.0 ∙ (rw (set_row, eq_refl) refl))),
                carried (λ u v. commit_row changed u v ≡ some (after u.addr))
                    (set_row t.addr r rows) rows ts (unseen t.addr r rows ts d.0) all,
              ),
              λ x h. let (n, rest) = not_in x t ts h in others x rest ∙ (rw (set_row, n) refl),
            )
      ]

  pub revert_rows-Committed :
      (ts : List Touched) (rows after : Rows) (x : String)
      → Distinct (addresses ts)
      → AllFaithful rows ts
      → Committed rows after ts
      → ((x : String) → has_key x (addresses ts) ≡ false → after x ≡ rows x)
      → revert_rows (map (entry_of changed) ts) after x ≡ rows x
  unfolding revert_rows Distinct entry_of has_key
  revert_rows-Committed [] rows after x d f c o = o x refl
  revert_rows-Committed (t ∷ ts) rows after x d f c o =
      let r = revert_row (entry_of changed t) (after t.addr) in
      let mended : r ≡ rows t.addr =
        revert-commit_row changed t (rows t.addr) (after t.addr) f.0 c.0 in
      revert_rows-Committed ts rows (set_row t.addr r after) x d.1 f.1
        (carried (λ u v. commit_row changed u (rows u.addr) ≡ some v) after (set_row t.addr r after)
          ts (backwards (set_row t.addr r after) after ts (unseen t.addr r after ts d.0)) c.1)
        (λ y h. elim (Bool-cases (str_eq t.addr y)) [
          | inl b ↦ rw (set_row, b) (mended ∙ ap rows ((eq_iff t.addr y).0 b))
          | inr b ↦ rw (set_row, b) (o y (ground (arith, b, h)))
        ])

  pub flushed :
      (rows : Rows) (ts : List Touched)
      → All
          (λ t.
            Faithful
              (record t { account = with_origin_code (rows t.addr).code t.account })
              (rows t.addr))
          ts
      → Distinct (addresses ts)
      → ((dirty_accounts changed rows ts).1
          ≡ map (entry_of changed) (dirty_accounts changed rows ts).0)
        × AllFaithful rows (dirty_accounts changed rows ts).0
        × Distinct (addresses (dirty_accounts changed rows ts).0)
        × ((x : String)
            → has_key x (addresses ts) ≡ false
            → has_key x (addresses (dirty_accounts changed rows ts).0) ≡ false)
  unfolding dirty_accounts get_journal_if_modified Distinct has_key
  flushed rows [] h d = (refl, tt, tt, λ x e. refl)
  flushed rows (t ∷ ts) h d =
      let r = rows t.addr in
      let t1 = record t { account = with_origin_code r.code t.account } in
      let (same, faithful, distinct, absent) = flushed rows ts h.1 d.1 in
      elim (Option-cases (get_journal_if_modified changed r t).1) [
        | inl n ↦
            rw (dirty_accounts, n) (same, faithful, distinct, λ x e. absent x (ground (arith, e)))
        | inr (e, m) ↦
            let own : entry_of changed t1 ≡ e = if_some _ _ _ m in
            rw (dirty_accounts, m)
              (
                (λ k. sym own k ∷ same k),
                (h.0, faithful),
                (absent t.addr d.0, distinct),
                λ x e. ground (arith, e, absent x),
              )
      ]
