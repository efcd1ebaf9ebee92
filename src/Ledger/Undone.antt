-- ===== src/Ledger/Undone.antt =====
-- The operations of internal/ledger/state_accessor.go, any one of which the reverts of its changes take
-- back.
use model_lib.Base.{
  ℤ, pos, ◌+ℤ◌, negℤ, is_zeroℤ, ◌≡◌, refl, sym, ap, ◌∙◌, Bool, true, false, String, ◌∷◌, Option,
  some, arith, if◌then◌else◌, Bool-cases, Option-cases, inl, inr,
}
use text.Mathlib.TextPositions.{eq_refl}
use model_lib.Ledger.State.{
  Kit, SimpleAccount, Disk, SimpleLedger, storage_change, code_change, suicide_change, Change,
}
use model_lib.Ledger.Accounts.{
  account_state, account_balance, account_code, account_is_empty, store_state, write_code,
}
use model_lib.Ledger.Operations.{
  found_account, loaded_account, set_account, append, append_by, get_or_create, get_state,
  set_state, get_code, change_balance, add_balance, sub_balance, set_code, suiside,
}
use model_lib.Ledger.Snapshots.{revert_change}
use model_lib.Ledger.Views.{account_or_new, account_at, Current, Same, Same-refl}
use model_lib.Ledger.Undo.{SameParts, Same-parts, parts-Same, account_at-set}
use model_lib.Ledger.Steps.{Undoable, Undoable-trans, quiet, one_change, unchanged}
use model_lib.Ledger.Created.{
  SameParts-refl, rewritten, get_or_create-found, get_or_create-Undoable,
}
use model_lib.Ledger.Writes.{
  reads-changer, account_state-SameParts, account_code-SameParts, account_is_empty-SameParts,
  store_state-Undoable, write_balance-Undoable, write_code-Undoable, flagged-Undoable,
}

module _ (kit : Kit) (d : Disk) where
  -- A step behind GetOrCreateAccount, from the account that it returns.
  pub with_account :
      (addr : String) (l : SimpleLedger) (next : SimpleAccount → SimpleLedger → SimpleLedger)
      → Current d l
      → ((m : SimpleLedger) → Current d m → Undoable kit d m (next (account_at d m addr) m))
      → Undoable kit d l (next (get_or_create d addr l).0 (get_or_create d addr l).1)
  with_account addr l next h u = rw (← get_or_create-found kit d addr l) (
      Undoable-trans kit d l (get_or_create d addr l).1 _ (get_or_create-Undoable kit d addr l)
        (u (get_or_create d addr l).1 ((get_or_create-Undoable kit d addr l).keeps h)))

  stands :
      (addr : String) (a : SimpleAccount) (l : SimpleLedger)
      → SameParts d addr a (account_at d (set_account addr a l) addr)
  stands addr a l =
      let at : account_at d (set_account addr a l) addr ≡ a =
        rw (eq_refl addr) at (account_at-set d addr addr a l) in
      rw at (SameParts-refl d addr a)

  pub sub_balance-Undoable :
      (addr : String) (b : ℤ) (l : SimpleLedger)
      → Current d l
      → Undoable kit d l (sub_balance kit d addr b l)
  unfolding sub_balance
  sub_balance-Undoable addr b l h = with_account addr l next h step
    where
      next : SimpleAccount → SimpleLedger → SimpleLedger
      next a m =
          let (empty, a1) = account_is_empty d addr a in
          let l2 = set_account addr a1 m in
          if empty
          then l2
          else if is_zeroℤ b
          then l2
          else change_balance kit d addr (account_balance a1 +ℤ negℤ b) a1 l2

      step : (m : SimpleLedger) → Current d m → Undoable kit d m (next (account_at d m addr) m)
      step m cur = chosen (account_is_empty d addr (account_at d m addr)).0 (is_zeroℤ b)
        where
          a1 : SimpleAccount
          a1 = (account_is_empty d addr (account_at d m addr)).1

          reread : Undoable kit d m (set_account addr a1 m)
          reread =
              rewritten kit d addr a1 m (account_is_empty-SameParts d addr (account_at d m addr))
                (reads-changer d addr "" (account_at d m addr)).2

          chosen :
              (empty zero : Bool)
              → Undoable kit d m (
                  if empty
                  then set_account addr a1 m
                  else if zero
                  then set_account addr a1 m
                  else change_balance kit d addr
                      (account_balance a1 +ℤ negℤ b)
                      a1
                      (set_account addr a1 m))
          chosen true zero = reread
          chosen false true = reread
          chosen false false = Undoable-trans kit d m (set_account addr a1 m) _ reread (
              write_balance-Undoable kit d addr (account_balance a1 +ℤ negℤ b) a1
                (set_account addr a1 m) (stands addr a1 m)
                ((reads-changer d addr "" (account_at d m addr)).2 ∙ cur addr))

  pub add_balance-Undoable :
      (addr : String) (b : ℤ) (l : SimpleLedger)
      → Current d l
      → Undoable kit d l (add_balance kit d addr b l)
  unfolding add_balance
  add_balance-Undoable addr b l h =
      with_account addr l
        (λ a m. if is_zeroℤ b then m else change_balance kit d addr (account_balance a +ℤ b) a m) h
        step
    where
      step :
          (m : SimpleLedger)
          → Current d m
          → Undoable kit d m (
              if is_zeroℤ b
              then m
              else change_balance kit d addr
                  (account_balance (account_at d m addr) +ℤ b)
                  (account_at d m addr)
                  m)
      step m cur = elim (Bool-cases (is_zeroℤ b)) [
        | inl e ↦ rw e (quiet kit d m m refl (unchanged m m refl) (Same-refl d m) (λ k. k))
        | inr e ↦ rw e (
            write_balance-Undoable kit d addr (account_balance (account_at d m addr) +ℤ b)
              (account_at d m addr) m (SameParts-refl d addr (account_at d m addr)) (cur addr))
      ]

  pub suiside-Undoable :
      (addr : String) (l l1 : SimpleLedger)
      → Current d l
      → suiside kit d addr l ≡ some l1
      → Undoable kit d l l1
  unfolding suiside account_at append set_account
  suiside-Undoable addr l l1 cur h = elim (Option-cases (found_account d addr l)) [
    | inl n ↦ absurd (ground arith)
    | inr (a, e) ↦
        let a1 = record a { suicided = true } in
        let m = set_account addr a1 (append (suicide_change addr false (account_balance a)) l) in
        let at : account_at d l addr ≡ a = rw (e, account_at) in
        let own : a.changer ≡ l.changer = ap (λ b. b.changer) (sym at) ∙ cur addr in
        let same : l1 ≡ change_balance kit d addr (pos 0) a1 m = ground arith in
        rw same (
          Undoable-trans kit d l m _
            (flagged-Undoable kit d addr a l (rw at (SameParts-refl d addr a)) own)
            (write_balance-Undoable kit d addr (pos 0) a1 m
              (stands addr a1 (append (suicide_change addr false (account_balance a)) l)) own))
  ]

  pub set_state-Undoable :
      (addr key : String) (v : Option String) (l : SimpleLedger)
      → Current d l
      → Undoable kit d l (set_state d addr key v l)
  unfolding set_state
  set_state-Undoable addr key v l h =
      with_account addr l
        (λ a m.
          let (prev, a1) = account_state d addr key a in
          set_account addr (store_state key v a1) (append_by a1 (storage_change addr key prev) m))
        h
        (λ m cur.
          store_state-Undoable kit d addr key v (account_state d addr key (account_at d m addr)).1 m
            (account_state-SameParts d addr key (account_at d m addr))
            ((reads-changer d addr key (account_at d m addr)).0 ∙ cur addr))

  pub set_code-Undoable :
      (addr : String) (c : Option String) (l : SimpleLedger)
      → Current d l
      → Undoable kit d l (set_code kit d addr c l)
  unfolding set_code
  set_code-Undoable addr c l h =
      with_account addr l
        (λ a m.
          let (prev, a1) = account_code d addr a in
          set_account addr (write_code kit c a1) (append_by a1 (code_change addr prev) m))
        h
        (λ m cur.
          write_code-Undoable kit d addr c (account_code d addr (account_at d m addr)).0
            (account_code d addr (account_at d m addr)).1 m
            (account_code-SameParts d addr (account_at d m addr))
            ((reads-changer d addr "" (account_at d m addr)).1 ∙ cur addr))

  pub reads-Undoable :
      (addr key : String) (l : SimpleLedger)
      → Current d l
      → Undoable kit d l (get_state d addr key l).1 × Undoable kit d l (get_code d addr l).1
  unfolding get_state get_code
  reads-Undoable addr key l h = (
    with_account addr l (λ a m. set_account addr (account_state d addr key a).1 m) h
        (λ m cur.
          rewritten kit d addr (account_state d addr key (account_at d m addr)).1 m
            (account_state-SameParts d addr key (account_at d m addr))
            (reads-changer d addr key (account_at d m addr)).0),
    with_account addr l (λ a m. set_account addr (account_code d addr a).1 m) h
        (λ m cur.
          rewritten kit d addr (account_code d addr (account_at d m addr)).1 m
            (account_code-SameParts d addr (account_at d m addr))
            (reads-changer d addr "" (account_at d m addr)).1),
  )

  found_account-ap :
      (x : String) (l m : SimpleLedger)
      → l.changer ≡ m.changer
      → l.accounts ≡ m.accounts
      → l.inner_cache ≡ m.inner_cache
      → found_account d x l ≡ found_account d x m
  unfolding found_account loaded_account
  found_account-ap x l m c a i = ground (arith, c, ap (λ f. f x) a, ap (λ f. f x) i)

  shown :
      (x : String) (l m : SimpleLedger)
      → l.changer ≡ m.changer
      → l.accounts ≡ m.accounts
      → l.inner_cache ≡ m.inner_cache
      → account_at d l x ≡ account_at d m x
  unfolding account_at
  shown x l m c a i =
      ap (λ k. account_or_new k (found_account d x l)) c
      ∙ ap (account_or_new m.changer) (found_account-ap x l m c a i)

  -- A step that writes no account and adds a change whose revert writes none.
  pub besides :
      (ch : Change) (l l1 : SimpleLedger) (back : SimpleLedger → SimpleLedger)
      → l1.changes ≡ ch ∷ l.changes
      → l1.valid_revisions ≡ l.valid_revisions
      → l1.changer ≡ l.changer
      → l1.accounts ≡ l.accounts
      → l1.inner_cache ≡ l.inner_cache
      → ((m : SimpleLedger) → revert_change kit d ch m ≡ some (back m))
      → ((m : SimpleLedger) → (back m).changer ≡ m.changer)
      → ((m : SimpleLedger) → (back m).accounts ≡ m.accounts)
      → ((m : SimpleLedger) → (back m).inner_cache ≡ m.inner_cache)
      → ((m : SimpleLedger) → m.refund ≡ l1.refund → (back m).refund ≡ l.refund)
      → Undoable kit d l l1
  unfolding account_at
  besides ch l l1 back c v n a i r bn ba bi br =
      one_change kit d ch l l1 c (unchanged l l1 v)
        (λ m s. (
          back m,
          r m,
          parts-Same d l (back m)
              (λ x.
                let there : account_at d (back m) x ≡ account_at d m x =
                  shown x (back m) m (bn m) (ba m) (bi m) in
                let before : account_at d l1 x ≡ account_at d l x = shown x l1 l n a i in
                rw (there, ← before) (Same-parts d l1 m x s))
              (br m s.refunds) (λ x. ap (λ f. f x) (bi m) ∙ (s.caches x ∙ ap (λ f. f x) i))
              (λ x h.
                rw (found_account-ap x (back m) m (bn m) (ba m) (bi m))
                  (s.found x (rw (found_account-ap x l1 l n a i) h))),
        ))
        (λ h x. ap (λ b. b.changer) (shown x l1 l n a i) ∙ (h x ∙ sym n))

  -- Ledgers with the same accounts, cache and refund.
  pub Same-shown :
      (l l1 : SimpleLedger)
      → l1.changer ≡ l.changer
      → l1.accounts ≡ l.accounts
      → l1.inner_cache ≡ l.inner_cache
      → l1.refund ≡ l.refund
      → Same d l1 l
  unfolding account_at
  Same-shown l l1 c a i r =
      parts-Same d l l1
        (λ x.
          let at : account_at d l1 x ≡ account_at d l x = shown x l1 l c a i in
          rw at (SameParts-refl d x (account_at d l x)))
        r (λ x. ap (λ f. f x) i) (λ x h. rw (found_account-ap x l1 l c a i) h)

  -- A step that leaves all that is shown leaves the accounts at the changer.
  pub Current-shown :
      (l l1 : SimpleLedger)
      → l1.changer ≡ l.changer
      → l1.accounts ≡ l.accounts
      → l1.inner_cache ≡ l.inner_cache
      → Current d l
      → Current d l1
  Current-shown l l1 c a i h x = ap (λ b. b.changer) (shown x l1 l c a i) ∙ (h x ∙ sym c)
