-- ===== src/Ledger/Steps.antt =====
-- The steps that the operations of internal/ledger/state_accessor.go are made of, each with the changes
-- that it adds and what their reverts give.
use model_lib.Base.{
  ℕ, ◌≡◌, refl, sym, ap, subst, ==_iff, ◌∙◌, true, String, List, [], ◌∷◌, ◌++◌, some, arith, str_eq,
  Option-cases, inl, inr,
}
use mathlib.Core.List.{append_assoc, append-nil}
use text.Mathlib.TextPositions.{eq_refl}
use model_lib.Ledger.State.{Kit, SimpleAccount, Disk, Change, SimpleLedger}
use model_lib.Ledger.Operations.{
  found_account, loaded_account, set_account, append, append_by, dirtied,
}
use model_lib.Ledger.Snapshots.{on_account, revert_change, undo, undirty}
use model_lib.Ledger.Views.{
  is_some, account_at, state_at, balance_at, nonce_at, Current, Same, Same-trans,
}
use model_lib.Ledger.Undo.{account_at-set, found-set, SameParts, Same-parts, write_back-Same}

-- The revisions of the second ledger continue those of the first.
abbrev pub Continued : SimpleLedger → SimpleLedger → Type 0
Continued l l1 = (more : List (ℕ × ℕ)) × (l1.valid_revisions ≡ l.valid_revisions ++ more)

pub unchanged : (l l1 : SimpleLedger) → l1.valid_revisions ≡ l.valid_revisions → Continued l l1
unchanged l l1 e = ([], e ∙ sym (append-nil l.valid_revisions))

module _ (kit : Kit) (d : Disk) where
  -- The second ledger has some more changes, and their reverts take any ledger that shows what it shows
  -- to one that shows what the first shows. The accounts go on to write to the changer of the ledger.
  pub record Undoable (l l1 : SimpleLedger) : Type 0 where
    pub added : List Change
    pub keeps : Current d l → Current d l1
    pub are_added : l1.changes ≡ added ++ l.changes
    pub continued : Continued l l1
    pub taken_back :
        (l' : SimpleLedger)
        → Same d l' l1
        → (l'' : SimpleLedger) × (undo kit d added l' ≡ some l'') × Same d l'' l

  undo-append :
      (cs ds : List Change) (l m n : SimpleLedger)
      → undo kit d cs l ≡ some m
      → undo kit d ds m ≡ some n
      → undo kit d (cs ++ ds) l ≡ some n
  unfolding undo
  undo-append [] ds l m n h k = ground arith
  undo-append (ch ∷ cs) ds l m n h k = elim (Option-cases (revert_change kit d ch l)) [
    | inl e ↦ absurd (ground arith)
    | inr (l1, e) ↦
        rw (e, undo)
          (undo-append cs ds (record l1 { dirties = undirty (dirtied ch) l1.dirties }) m n
            (ground arith) k)
  ]

  pub Undoable-trans : (l m n : SimpleLedger) → Undoable l m → Undoable m n → Undoable l n
  Undoable-trans l m n a b = record {
    added = b.added ++ a.added;
    keeps = λ h. b.keeps (a.keeps h);
    are_added =
        b.are_added
        ∙ (ap (◌++◌ b.added) a.are_added ∙ sym (append_assoc b.added a.added l.changes));
    continued = (
      a.continued.0 ++ b.continued.0,
      b.continued.1
          ∙ (ap (λ r. r ++ b.continued.0) a.continued.1
              ∙ append_assoc l.valid_revisions a.continued.0 b.continued.0),
    );
    taken_back = λ l' s.
        let (m', e, t) = b.taken_back l' s in
        let (n', f, u) = a.taken_back m' t in (n', undo-append b.added a.added l' m' n' e f, u);
  }

  -- A step that adds no change and shows the same.
  pub quiet :
      (l l1 : SimpleLedger)
      → l1.changes ≡ l.changes
      → Continued l l1
      → Same d l1 l
      → (Current d l → Current d l1)
      → Undoable l l1
  unfolding undo
  quiet l l1 c v s k = record {
    added = [];
    keeps = k;
    are_added = c;
    continued = v;
    taken_back = λ l' t. (l', refl, Same-trans d l' l1 l t s);
  }

  Same-dirties :
      (l' l : SimpleLedger) (m : String → ℕ) → Same d l' l → Same d (record l' { dirties = m }) l
  unfolding state_at balance_at nonce_at account_at found_account loaded_account
  Same-dirties l' l m s = record {
    states = s.states;
    balances = s.balances;
    nonces = s.nonces;
    refunds = s.refunds;
    caches = s.caches;
    found = s.found;
  }

  -- A step that adds one change.
  pub one_change :
      (ch : Change) (l l1 : SimpleLedger)
      → l1.changes ≡ ch ∷ l.changes
      → Continued l l1
      → ((l' : SimpleLedger)
          → Same d l' l1
          → (l'' : SimpleLedger) × (revert_change kit d ch l' ≡ some l'') × Same d l'' l)
      → (Current d l → Current d l1)
      → Undoable l l1
  unfolding undo
  one_change ch l l1 c v back k = record {
    keeps = k;
    added = ch ∷ [];
    are_added = c;
    continued = v;
    taken_back = λ l' s.
        let (l'', e, t) = back l' s in
        (
          record l'' { dirties = undirty (dirtied ch) l''.dirties },
          rw (e, undo),
          Same-dirties l'' l (undirty (dirtied ch) l''.dirties) t,
        );
  }

  Same-append : (ch : Change) (l' l : SimpleLedger) → Same d l' (append ch l) → Same d l' l
  unfolding state_at balance_at nonce_at account_at found_account loaded_account append
  Same-append ch l' l s = record {
    states = s.states;
    balances = s.balances;
    nonces = s.nonces;
    refunds = s.refunds;
    caches = s.caches;
    found = s.found;
  }

  -- A write to one account with a change whose revert writes to the same account.
  pub written :
      (ch : Change) (addr : String) (f : SimpleAccount → SimpleAccount) (a1 : SimpleAccount)
      (l : SimpleLedger)
      → ((m : SimpleLedger) → revert_change kit d ch m ≡ on_account kit d addr f m)
      → ((a' : SimpleAccount)
          → SameParts d addr a' a1
          → SameParts d addr (f a') (account_at d l addr))
      → a1.changer ≡ l.changer
      → Undoable l (set_account addr a1 (append ch l))
  unfolding append set_account account_at found_account loaded_account on_account
  written ch addr f a1 l r p own =
      one_change ch l (set_account addr a1 (append ch l)) refl
        (unchanged l (set_account addr a1 (append ch l)) refl) back
        (λ h x. ground (arith, account_at-set d addr x a1 (append ch l), own, h x))
    where
      back :
          (l' : SimpleLedger)
          → Same d l' (set_account addr a1 (append ch l))
          → (l'' : SimpleLedger) × (revert_change kit d ch l' ≡ some l'') × Same d l'' l
      back l' s = elim (Option-cases (found_account d addr l')) [
        | inl e ↦ absurd (ground (arith, there))
        | inr (a', e) ↦
            let at : account_at d l' addr ≡ a' = unfold account_at in rw e in
            let as_written : account_at d (set_account addr a1 (append ch l)) addr ≡ a1 =
              rw self at (account_at-set d addr addr a1 (append ch l)) in
            let parts = rw (at, as_written) at (Same-parts d _ l' addr s) in
            (
              set_account addr (f a') l',
              r l' ∙ rw (e, on_account),
              Same-append ch (set_account addr (f a') l') l
                  (write_back-Same d addr a1 (f a') (append ch l) l' s (p a' parts)),
            )
      ]
        where
          self : str_eq addr addr ≡ true
          self = eq_refl addr

          there : is_some (found_account d addr l') ≡ true
          there = s.found addr (ground (arith, self, found-set d addr addr a1 (append ch l)))

  append_by-own :
      (a : SimpleAccount) (ch : Change) (l : SimpleLedger)
      → a.changer ≡ l.changer
      → append_by a ch l ≡ append ch l
  unfolding append_by
  append_by-own a ch l own = rw ((==_iff a.changer l.changer).1 own) refl

  -- The same, with a change that an account of the current changer appends.
  pub written_by :
      (a : SimpleAccount) (ch : Change) (addr : String) (f : SimpleAccount → SimpleAccount)
      (a1 : SimpleAccount) (l : SimpleLedger)
      → a.changer ≡ l.changer
      → a1.changer ≡ a.changer
      → ((m : SimpleLedger) → revert_change kit d ch m ≡ on_account kit d addr f m)
      → ((a' : SimpleAccount)
          → SameParts d addr a' a1
          → SameParts d addr (f a') (account_at d l addr))
      → Undoable l (set_account addr a1 (append_by a ch l))
  written_by a ch addr f a1 l own keep r p =
      subst (λ m. Undoable l (set_account addr a1 m)) (sym (append_by-own a ch l own))
        (written ch addr f a1 l r p (keep ∙ own))
