-- ===== src/Executor/Paths.antt =====
-- internal/executor/handle.go: every path of a transaction that runs no machine, for a property of the
-- balances that the transfer, the reverts and the fees keep.
use model_lib.Base.{
  ℕ, ◌+◌, ◌%◌, uint64_mod, ◌≡◌, refl, ap, ◌∙◌, ℤ, ltbℤ, is_zeroℤ, String, false, List, [], ◌∷◌,
  ◌++◌, Option, none, some, ◌⊎◌, inl, inr, arith, Bool-cases, Option-cases, str_eq,
}
use model_lib.Executor.World.{World, Promises}
use model_lib.Executor.Fees.{
  Failure, empty_transaction_data, of_other, invalid, Setting, transfer, transfer_to, pay_gas_fee,
  pay_left_as_gas_fee,
}
use model_lib.Executor.Data.{
  gas_normal_tx, gas_failed_tx, normal, TransactionData, BxhTransaction, bxh, get_from, get_nonce,
  get_hash, failed, error, Receipt, Machines,
}
use model_lib.Executor.Bxh.{
  Outcome, parsed, after_transfer, revert_on_error, apply_normal, apply_data, apply_payload,
  apply_bxh_transaction,
}
use model_lib.Executor.Apply.{settle, apply_bxh, apply_kind, apply_transaction, bxh_receipt}

Sum-cases : {A B : Type 0} (x : A ⊎ B) → ((a : A) × (x ≡ inl a)) ⊎ ((b : B) × (x ≡ inr b))
Sum-cases (inl a) = inl (a, refl)
Sum-cases (inr b) = inr (b, refl)

module _ (w : World) (p : Promises w) where
  pub transfer-Taken :
      (from to : String) (v : ℤ) (r : List (ℕ × w.State)) (s : w.State)
      → p.Taken r s
      → p.Taken r (transfer_to w from to (some v) s).1
  unfolding transfer_to
  transfer-Taken from to v r s h = elim (Bool-cases (is_zeroℤ v)) [
    | inl z ↦ rw z h
    | inr z ↦ rw z (elim (Bool-cases (ltbℤ (w.get_balance from s).0 v)) [
      | inl l ↦ rw l (p.Taken_get_balance from r s h)
      | inr l ↦ rw l (
          let s1 = (w.get_balance from s).1 in
          let s2 = (w.get_balance to s1).1 in
          p.Taken_set_balance to _ r _ (
            p.Taken_set_balance from _ r s2
              (p.Taken_get_balance to r s1 (p.Taken_get_balance from r s h))))
    ])
  ]

  module _ (m : Machines w) (c : Setting) (tx : BxhTransaction) (to : String)
      (named : tx.to ≡ some to) (I J : (String → ℤ) → Type 0)
      (same : (f g : String → ℤ) → ((x : String) → g x ≡ f x) → I f → I g)
      (same_end : (f g : String → ℤ) → ((x : String) → g x ≡ f x) → J f → J g)
      (moves : (payload : String) (d : TransactionData)
        → tx.payload ≡ some payload
        → m.unmarshal payload ≡ inr d
        → (d.data_type ≡ normal)
          × ((s : w.State)
              → I (p.balance_at s)
              → I (
                  p.balance_at
                    (transfer_to w tx.from to (some (parsed (m.set_string d.amount))) s).1)))
      (pays : (gas : ℕ) (s : w.State)
        → I (p.balance_at s)
        → ((s2 : w.State) × (pay_gas_fee w c tx.from gas s ≡ some (none, s2)) × J (p.balance_at s2))
          ⊎ ((e : Failure) × (pay_gas_fee w c tx.from gas s
                ≡ some (some e, (w.get_balance tx.from s).1))))
      (pays_left : (s : w.State)
        → I (p.balance_at s)
        → (s2 : w.State) × (pay_left_as_gas_fee w c tx.from s ≡ some s2)
          × J (p.balance_at s2)) where
    -- What is left by a part of a transaction: the property, and the snapshots that were there.
    abbrev Left : List (ℕ × w.State) → Option (Outcome × w.State) → Type 0
    Left r result =
        (o : Outcome) × (s2 : w.State) × (later : List (ℕ × w.State)) × (result ≡ some (o, s2))
        × p.Taken (later ++ r) s2
        × I (p.balance_at s2)

    normal-Left :
        (payload : String) (d : TransactionData) (r : List (ℕ × w.State)) (s : w.State)
        → tx.payload ≡ some payload
        → m.unmarshal payload ≡ inr d
        → p.Taken r s
        → I (p.balance_at s)
        → Left r (apply_normal w m c (w.snapshot s).0 tx d (w.snapshot s).1)
    unfolding apply_normal after_transfer revert_on_error
    normal-Left payload d r s e u h i = elim (Option-cases t.0) [
      | inl n ↦ (
        (none, gas_normal_tx, none),
        t.1,
        snap ∷ [],
        at ∙ rw (after_transfer, n) (ap (λ e. some ((none, gas_normal_tx, e), t.1)) n),
        held,
        moved,
      )
      | inr (err, n) ↦
          let (s2, back, taken, balances) = p.reverted [] snap.0 r s t.1 held in
          (
            (none, gas_normal_tx, some err),
            s2,
            [],
            at ∙ rw (after_transfer, n, back) (ap (λ e. some ((none, gas_normal_tx, e), s2)) n),
            taken,
            same (p.balance_at s) (p.balance_at s2) balances i,
          )
    ]
      where
        v : ℤ
        v = parsed (m.set_string d.amount)

        s1 : w.State
        s1 = (w.snapshot s).1

        snap : ℕ × w.State
        snap = ((w.snapshot s).0, s)

        t : Option Failure × w.State
        t = transfer_to w tx.from to (some v) s1

        at : apply_normal w m c snap.0 tx d s1 ≡ after_transfer w m c snap.0 t
        at =
            ap
              (λ x. elim (transfer w tx.from x (some v) s1) [
                | Option.none ↦ Option.none
                | some result ↦ after_transfer w m c snap.0 result
              ])
              named

        held : p.Taken (snap ∷ r) t.1
        held = transfer-Taken tx.from to v (snap ∷ r) s1 (p.Taken_snapshot r s h)

        moved : I (p.balance_at t.1)
        moved =
            (moves payload d e u).1 s1
              (same (p.balance_at s) (p.balance_at s1) (p.snapshot_kept s) i)

    data-Left :
        (payload : String) (d : TransactionData) (r : List (ℕ × w.State)) (s : w.State)
        → tx.payload ≡ some payload
        → m.unmarshal payload ≡ inr d
        → p.Taken r s
        → I (p.balance_at s)
        → Left r (apply_data w m c tx d s)
    unfolding apply_data
    data-Left payload d r s e u h i =
        let (o, s2, later, eq, held, i2) = normal-Left payload d r s e u h i in
        (o, s2, later, ground (arith, (moves payload d e u).0, eq), held, i2)

    payload-Left :
        (r : List (ℕ × w.State)) (s : w.State)
        → p.Taken r s
        → I (p.balance_at s)
        → Left r (apply_payload w m c tx s)
    unfolding apply_payload
    payload-Left r s h i = elim (Option-cases tx.payload) [
      | inl n ↦ ((none, gas_failed_tx, some empty_transaction_data), s, [], ground (arith, n), h, i)
      | inr (payload, e) ↦ elim (Sum-cases (m.unmarshal payload)) [
        | inl (x, u) ↦ ((none, gas_failed_tx, some (of_other x)), s, [], ground (arith, e, u), h, i)
        | inr (d, u) ↦
            let (o, s2, later, eq, held, i2) = data-Left payload d r s e u h i in
            (o, s2, later, ground (arith, e, u, eq), held, i2)
      ]
    ]

    bxh-Left :
        (reason : String) (r : List (ℕ × w.State)) (s : w.State)
        → tx.is_ibtp ≡ false
        → p.Taken r s
        → I (p.balance_at s)
        → Left r (apply_bxh_transaction w m c tx reason s)
    unfolding apply_bxh_transaction
    bxh-Left reason r s b h i = elim (Bool-cases (str_eq reason "")) [
      | inl v ↦
          let (o, s2, later, eq, held, i2) = payload-Left r s h i in
          (o, s2, later, ground (arith, v, b, eq), held, i2)
      | inr v ↦ ((none, gas_failed_tx, some (invalid reason)), s, [], ground (arith, v), h, i)
    ]

    abbrev Ends : Option (Receipt × w.State) → Type 0
    Ends result =
        (receipt : Receipt) × (s2 : w.State) × (result ≡ some (receipt, s2)) × J (p.balance_at s2)

    settle-Ends :
        (later r : List (ℕ × w.State)) (id : ℕ) (receipt : Receipt) (s0 s : w.State)
        → p.Taken (later ++ (id, s0) ∷ r) s
        → I (p.balance_at s0)
        → I (p.balance_at s)
        → Ends (settle w m c tx.from (w.revert_to_snapshot id) receipt s)
    unfolding settle
    settle-Ends later r id receipt s0 s h i0 i = elim (pays receipt.gas_used s i) [
      | inl (s2, eq, j) ↦ (receipt, s2, rw (settle, eq) refl, j)
      | inr (e, eq) ↦
          let read = (w.get_balance tx.from s).1 in
          let (s2, back, taken, balances) =
            p.reverted later id r s0 read
              (p.Taken_get_balance tx.from (later ++ (id, s0) ∷ r) s h) in
          let (s3, eq3, j) = pays_left s2 (same (p.balance_at s0) (p.balance_at s2) balances i0) in
          (
            record receipt { status = failed; ret = error e },
            s3,
            rw (settle, eq, back, eq3) refl,
            j,
          )
    ]

    apply-Ends :
        (reason : String) (s : w.State)
        → tx.is_ibtp ≡ false
        → p.Taken [] s
        → I (p.balance_at s)
        → Ends (apply_bxh w m c tx reason s)
    unfolding apply_bxh
    apply-Ends reason s b h i =
        let snap = w.snapshot s in
        let i1 = same (p.balance_at s) (p.balance_at snap.1) (p.snapshot_kept s) i in
        let (o, s2, later, eq, held, i2) =
          bxh-Left reason ((snap.0, s) ∷ []) snap.1 b (p.Taken_snapshot [] s h) i1 in
        let (receipt, s3, done, j) =
          settle-Ends later [] snap.0 (bxh_receipt o (w.get_logs tx.hash s2)) s s2 held i i2 in
        (receipt, s3, rw (apply_bxh, eq) done, j)

    -- applyTransaction ends, counts the nonce, and from balances with I it leaves balances with J.
    pub transaction-Ends :
        (i : ℕ) (reason : String) (s : w.State)
        → tx.is_ibtp ≡ false
        → p.Taken [] s
        → I (p.balance_at s)
        → (receipt : Receipt) × (s2 : w.State) × (apply_transaction w m c i (bxh tx) reason s
            ≡ some (receipt, s2))
          × (p.nonce_at s2 tx.from ≡ (tx.nonce + 1) % uint64_mod)
          × J (p.balance_at s2)
    unfolding apply_transaction apply_kind get_from get_nonce get_hash
    transaction-Ends k reason s b h i =
        let s1 = w.prepare_evm tx.hash k s in
        let (receipt, s2, eq, j) =
          apply-Ends reason s1 b (p.Taken_prepare_evm tx.hash k [] s h)
            (same (p.balance_at s) (p.balance_at s1) (p.prepare_evm_kept tx.hash k s) i) in
        let next = (tx.nonce + 1) % uint64_mod in
        let s3 = w.set_nonce tx.from next s2 in
        (
          receipt,
          w.finalise s3,
          rw (apply_transaction, eq) refl,
          p.finalise_nonce s3 tx.from ∙ p.set_nonce_value tx.from next s2,
          same_end (p.balance_at s2) (p.balance_at (w.finalise s3))
              (λ x. p.finalise_kept s3 x ∙ p.set_nonce_kept tx.from next s2 x) j,
        )
