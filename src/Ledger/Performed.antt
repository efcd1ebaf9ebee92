-- ===== src/Ledger/Performed.antt =====
-- Sequences of the operations of internal/ledger/state_accessor.go, and the reverts of their changes.
use model_lib.Base.{
  ℕ, ◌-◌, ℤ, ◌≡◌, refl, String, List, [], ◌∷◌, Option, none, some, arith, if◌then◌else◌,
  Option-cases, inl, inr, length, put, delete, str_eq,
}
use model_lib.Ledger.State.{
  Kit, Disk, SimpleLedger, nonce_change, refund_change, add_log_change, add_preimage_change,
}
use model_lib.Ledger.Accounts.{write_nonce, account_nonce}
use model_lib.Ledger.Operations.{
  set_account, append, append_by, get_or_create, get_state, set_state, get_code, change_balance,
  set_balance, add_balance, sub_balance, set_nonce, set_code, suiside, add_refund, sub_refund,
  add_preimage, add_log,
}
use model_lib.Ledger.Snapshots.{revert_change, without_last, snapshot}
use model_lib.Ledger.Views.{account_at, Current, Same-refl}
use model_lib.Ledger.Steps.{Undoable, Undoable-trans, quiet, unchanged}
use model_lib.Ledger.Created.{SameParts-refl, get_or_create-Undoable}
use model_lib.Ledger.Writes.{write_balance-Undoable, write_nonce-Undoable}
use model_lib.Ledger.Undone.{
  with_account, sub_balance-Undoable, add_balance-Undoable, suiside-Undoable, set_state-Undoable,
  set_code-Undoable, reads-Undoable, besides, Same-shown, Current-shown,
}

-- Operations that a transaction may do between a snapshot and its revert. AddState, whose write no revert
-- takes back, GetCommittedState and the access list are not among them.
pub data Operation : Type 0 where
  reads_state : String → String → Operation
  reads_code : String → Operation
  touches : String → Operation
  sets_state : String → String → Option String → Operation
  sets_balance : String → ℤ → Operation
  adds_balance : String → ℤ → Operation
  subs_balance : String → ℤ → Operation
  sets_nonce : String → ℕ → Operation
  sets_code : String → Option String → Operation
  suisides : String → Operation
  adds_refund : ℕ → Operation
  subs_refund : ℕ → Operation
  adds_preimage : String → String → Operation
  adds_log : String → Operation
  snapshots : Operation

module _ (kit : Kit) (d : Disk) where
  -- none is a panic.
  unfoldable pub operate : Operation → SimpleLedger → Option SimpleLedger
  operate (reads_state addr key) l = some (get_state d addr key l).1
  operate (reads_code addr) l = some (get_code d addr l).1
  operate (touches addr) l = some (get_or_create d addr l).1
  operate (sets_state addr key v) l = some (set_state d addr key v l)
  operate (sets_balance addr b) l = some (set_balance kit d addr b l)
  operate (adds_balance addr b) l = some (add_balance kit d addr b l)
  operate (subs_balance addr b) l = some (sub_balance kit d addr b l)
  operate (sets_nonce addr n) l = some (set_nonce kit d addr n l)
  operate (sets_code addr c) l = some (set_code kit d addr c l)
  operate (suisides addr) l = suiside kit d addr l
  operate (adds_refund gas) l = some (add_refund gas l)
  operate (subs_refund gas) l = sub_refund gas l
  operate (adds_preimage hash preimage) l = some (add_preimage hash preimage l)
  operate (adds_log log) l = some (add_log log l)
  operate snapshots l = some (snapshot l).1

  unfoldable pub operate_all : List Operation → SimpleLedger → Option SimpleLedger
  unfolding operate
  operate_all [] l = some l
  operate_all (x ∷ xs) l = elim (operate x l) [ none ↦ none | some l1 ↦ operate_all xs l1 ]

  pub set_balance-Undoable :
      (addr : String) (b : ℤ) (l : SimpleLedger)
      → Current d l
      → Undoable kit d l (set_balance kit d addr b l)
  unfolding set_balance
  set_balance-Undoable addr b l h =
      with_account kit d addr l (λ a m. change_balance kit d addr b a m) h
        (λ m cur.
          write_balance-Undoable kit d addr b (account_at d m addr) m
            (SameParts-refl d addr (account_at d m addr)) (cur addr))

  set_nonce-Undoable :
      (addr : String) (n : ℕ) (l : SimpleLedger)
      → Current d l
      → Undoable kit d l (set_nonce kit d addr n l)
  unfolding set_nonce
  set_nonce-Undoable addr n l h =
      with_account kit d addr l
        (λ a m.
          set_account addr (write_nonce kit n a)
            (append_by a (nonce_change addr (account_nonce a)) m))
        h
        (λ m cur.
          write_nonce-Undoable kit d addr n (account_at d m addr) m
            (SameParts-refl d addr (account_at d m addr)) (cur addr))

  add_preimage-Undoable :
      (hash preimage : String) (l : SimpleLedger) → Undoable kit d l (add_preimage hash preimage l)
  unfolding add_preimage append revert_change
  add_preimage-Undoable hash preimage l = elim (Option-cases (l.preimages hash)) [
    | inr (p, e) ↦
        rw (e, add_preimage) (quiet kit d l l refl (unchanged l l refl) (Same-refl d l) (λ k. k))
    | inl e ↦
        rw (e, add_preimage)
          (besides kit d (add_preimage_change hash) l
            (record (append (add_preimage_change hash) l) {
              preimages = put l.preimages hash preimage;
            })
            (λ m. record m { preimages = delete m.preimages hash }) refl refl refl refl refl
            (λ m. refl) (λ m. refl) (λ m. refl) (λ m. refl) (λ m h. h))
  ]

  add_log-Undoable : (log : String) (l : SimpleLedger) → Undoable kit d l (add_log log l)
  unfolding add_log append revert_change
  add_log-Undoable log l =
      besides kit d (add_log_change l.thash) l (add_log log l)
        (λ m. record m {
          logs = λ x. if str_eq l.thash x then without_last (m.logs x) else m.logs x;
          log_size = m.log_size - 1;
        })
        refl refl refl refl refl (λ m. refl) (λ m. refl) (λ m. refl) (λ m. refl) (λ m h. h)

  add_refund-Undoable : (gas : ℕ) (l : SimpleLedger) → Undoable kit d l (add_refund gas l)
  unfolding add_refund append revert_change
  add_refund-Undoable gas l =
      besides kit d (refund_change l.refund) l (add_refund gas l)
        (λ m. record m { refund = l.refund }) refl refl refl refl refl (λ m. refl) (λ m. refl)
        (λ m. refl) (λ m. refl) (λ m h. refl)

  sub_refund-Undoable :
      (gas : ℕ) (l l1 : SimpleLedger) → sub_refund gas l ≡ some l1 → Undoable kit d l l1
  unfolding sub_refund append revert_change
  sub_refund-Undoable gas l l1 h =
      let taken = record (append (refund_change l.refund) l) { refund = l.refund - gas } in
      let same : l1 ≡ taken = ground arith in
      rw same (
        besides kit d (refund_change l.refund) l taken (λ m. record m { refund = l.refund }) refl
          refl refl refl refl (λ m. refl) (λ m. refl) (λ m. refl) (λ m. refl) (λ m h. refl))

  snapshot-Undoable : (l : SimpleLedger) → Undoable kit d l (snapshot l).1
  unfolding snapshot
  snapshot-Undoable l =
      quiet kit d l (snapshot l).1 refl ((l.next_revision_id, length l.changes) ∷ [], refl)
        (Same-shown kit d l (snapshot l).1 refl refl refl refl)
        (Current-shown kit d l (snapshot l).1 refl refl refl)

  done_as :
      (l m l1 : SimpleLedger) → Undoable kit d l m → (Option.some m) ≡ some l1 → Undoable kit d l l1
  done_as l m l1 u h = let same : l1 ≡ m = ground arith in rw same u

  operate-Undoable :
      (x : Operation) (l l1 : SimpleLedger)
      → Current d l
      → operate x l ≡ some l1
      → Undoable kit d l l1
  unfolding operate
  operate-Undoable (reads_state a k) l l1 cur h =
      done_as l (get_state d a k l).1 l1 (reads-Undoable kit d a k l cur).0 h
  operate-Undoable (reads_code a) l l1 cur h =
      done_as l (get_code d a l).1 l1 (reads-Undoable kit d a "" l cur).1 h
  operate-Undoable (touches a) l l1 cur h =
      done_as l (get_or_create d a l).1 l1 (get_or_create-Undoable kit d a l) h
  operate-Undoable (sets_state a k v) l l1 cur h =
      done_as l (set_state d a k v l) l1 (set_state-Undoable kit d a k v l cur) h
  operate-Undoable (sets_balance a b) l l1 cur h =
      done_as l (set_balance kit d a b l) l1 (set_balance-Undoable a b l cur) h
  operate-Undoable (adds_balance a b) l l1 cur h =
      done_as l (add_balance kit d a b l) l1 (add_balance-Undoable kit d a b l cur) h
  operate-Undoable (subs_balance a b) l l1 cur h =
      done_as l (sub_balance kit d a b l) l1 (sub_balance-Undoable kit d a b l cur) h
  operate-Undoable (sets_nonce a n) l l1 cur h =
      done_as l (set_nonce kit d a n l) l1 (set_nonce-Undoable a n l cur) h
  operate-Undoable (sets_code a c) l l1 cur h =
      done_as l (set_code kit d a c l) l1 (set_code-Undoable kit d a c l cur) h
  operate-Undoable (suisides a) l l1 cur h = suiside-Undoable kit d a l l1 cur h
  operate-Undoable (adds_refund gas) l l1 cur h =
      done_as l (add_refund gas l) l1 (add_refund-Undoable gas l) h
  operate-Undoable (subs_refund gas) l l1 cur h = sub_refund-Undoable gas l l1 h
  operate-Undoable (adds_preimage x p) l l1 cur h =
      done_as l (add_preimage x p l) l1 (add_preimage-Undoable x p l) h
  operate-Undoable (adds_log log) l l1 cur h =
      done_as l (add_log log l) l1 (add_log-Undoable log l) h
  operate-Undoable snapshots l l1 cur h = done_as l (snapshot l).1 l1 (snapshot-Undoable l) h

  pub operate_all-Undoable :
      (xs : List Operation) (l l1 : SimpleLedger)
      → Current d l
      → operate_all xs l ≡ some l1
      → Undoable kit d l l1
  unfolding operate_all
  operate_all-Undoable [] l l1 cur h =
      done_as l l l1 (quiet kit d l l refl (unchanged l l refl) (Same-refl d l) (λ k. k)) h
  operate_all-Undoable (x ∷ xs) l l1 cur h = elim (Option-cases (operate x l)) [
    | inl e ↦ absurd (ground arith)
    | inr (m, e) ↦
        Undoable-trans kit d l m l1 (operate-Undoable x l m cur e)
          (operate_all-Undoable xs m l1 ((operate-Undoable x l m cur e).keeps cur) (ground arith))
  ]
