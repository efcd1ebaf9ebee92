-- ===== src/Executor/Solvent.antt =====
-- internal/executor/handle.go: no balance below 0, through the transfer and the fees.
use Prim.Native.Nat.{◌/◌}
use model_lib.Base.{
  ℕ, ◌*◌, ◌<◌, ◌≡◌, refl, ℤ, pos, negsuc, ◌+ℤ◌, ◌-ℤ◌, ltbℤ, is_zeroℤ, div_int, String, false, List,
  [], ◌∷◌, some, none, ◌⊎◌, inl, inr, arith, Bool-cases, List-cases, length, str_eq,
}
use model_lib.Executor.World.{World, Promises}
use model_lib.Executor.Fees.{
  Failure, Setting, transfer_to, pay_each, pay_admins, pay_fees, pay_gas_fee, pay_left_as_gas_fee,
}
use model_lib.Executor.Data.{normal, TransactionData, BxhTransaction, bxh, Receipt, Machines}
use model_lib.Executor.Bxh.{parsed}
use model_lib.Executor.Apply.{apply_transaction}
use model_lib.Executor.Paths.{transaction-Ends}
use model_lib.Executor.Conserved.{pay_fees_short, pay_fees_paid}

-- No account holds less than 0.
abbrev pub Solvent : (String → ℤ) → Type 0
Solvent f = (x : String) → ltbℤ (f x) (pos 0) ≡ false

added : (a b : ℤ) → ltbℤ a (pos 0) ≡ false → ltbℤ b (pos 0) ≡ false → ltbℤ (a +ℤ b) (pos 0) ≡ false
added a b h k = ground arith

taken_off : (a b : ℤ) → ltbℤ a b ≡ false → ltbℤ (a -ℤ b) (pos 0) ≡ false
taken_off a b h = ground arith

positive : (n : ℕ) → ltbℤ (pos n) (pos 0) ≡ false
positive n = ground arith

divided : (a : ℤ) (n : ℕ) → ltbℤ a (pos 0) ≡ false → ltbℤ (div_int a n) (pos 0) ≡ false
divided (pos a) n h = positive (a / n)
divided (negsuc a) n h = absurd (ground arith)

module _ (w : World) (p : Promises w) where
  Solvent-same : (f g : String → ℤ) → ((x : String) → g x ≡ f x) → Solvent f → Solvent g
  Solvent-same f g e h x = rw (e x) (h x)

  read_value :
      (a : String) (s : w.State)
      → Solvent (p.balance_at s)
      → ltbℤ (w.get_balance a s).0 (pos 0) ≡ false
  read_value a s h = rw (p.get_balance_value a s) (h a)

  read-Solvent :
      (a : String) (s : w.State)
      → Solvent (p.balance_at s)
      → Solvent (p.balance_at (w.get_balance a s).1)
  read-Solvent a s h = Solvent-same _ _ (p.get_balance_kept a s) h

  write-Solvent :
      (a : String) (v : ℤ) (s : w.State)
      → ltbℤ v (pos 0) ≡ false
      → Solvent (p.balance_at s)
      → Solvent (p.balance_at (w.set_balance a v s))
  write-Solvent a v s n h x =
      rw (p.set_balance_kept a v s x)
        (elim (Bool-cases (str_eq a x)) [ inl e ↦ rw e n | inr e ↦ rw e (h x) ])

  pay_each-Solvent :
      (fee : ℤ) (admins : List String) (s : w.State)
      → ltbℤ fee (pos 0) ≡ false
      → Solvent (p.balance_at s)
      → Solvent (p.balance_at (pay_each w fee admins s))
  unfolding pay_each
  pay_each-Solvent fee [] s n h = h
  pay_each-Solvent fee (a ∷ xs) s n h = pay_each-Solvent fee xs _ n (
      write-Solvent a _ _ (added (w.get_balance a s).0 fee (read_value a s h) n)
        (read-Solvent a s h))

  transfer-Solvent :
      (from to : String) (value : ℤ) (s : w.State)
      → ltbℤ value (pos 0) ≡ false
      → Solvent (p.balance_at s)
      → Solvent (p.balance_at (transfer_to w from to (some value) s).1)
  unfolding transfer_to
  transfer-Solvent from to value s n h = elim (Bool-cases (is_zeroℤ value)) [
    | inl z ↦ rw z h
    | inr z ↦ rw z (elim (Bool-cases (ltbℤ (w.get_balance from s).0 value)) [
      | inl l ↦ rw l (read-Solvent from s h)
      | inr l ↦ rw l (
          let h1 = read-Solvent from s h in
          let (tv, s2) = w.get_balance to (w.get_balance from s).1 in
          write-Solvent to (tv +ℤ value) _ (added tv value (read_value to _ h1) n) (
            write-Solvent from _ s2 (taken_off (w.get_balance from s).0 value l)
              (read-Solvent to _ h1)))
    ])
  ]

  module _ (c : Setting) (some_admin : 0 < length c.admins) where
    pay_admins-Solvent :
        (fees : ℤ) (s : w.State)
        → ltbℤ fees (pos 0) ≡ false
        → Solvent (p.balance_at s)
        → (s2 : w.State) × (pay_admins w c fees s ≡ some s2) × Solvent (p.balance_at s2)
    unfolding pay_admins
    pay_admins-Solvent fees s n h = elim (List-cases c.admins) [
      | inl e ↦ absurd (ground (arith, e, some_admin))
      | inr (a, xs, e) ↦
          let fee = div_int fees (length c.admins) in
          (
            pay_each w fee c.admins s,
            ground (arith, e),
            pay_each-Solvent fee c.admins s (divided fees (length c.admins) n) h,
          )
    ]

    pay_fees-Solvent :
        (from : String) (fees : ℤ) (s : w.State)
        → ltbℤ fees (pos 0) ≡ false
        → Solvent (p.balance_at s)
        → ((s2 : w.State) × (pay_fees w c from fees s ≡ some (none, s2))
            × Solvent (p.balance_at s2))
          ⊎ ((e : Failure) × (pay_fees w c from fees s ≡ some (some e, (w.get_balance from s).1)))
    pay_fees-Solvent from fees s n h = elim (Bool-cases (ltbℤ (w.get_balance from s).0 fees)) [
      | inl l ↦ inr (_, pay_fees_short w c from fees s l)
      | inr l ↦
          let (s2, eq, done) = pay_admins-Solvent fees _ n (
            write-Solvent from _ _ (taken_off (w.get_balance from s).0 fees l)
              (read-Solvent from s h)) in
          inl (s2, pay_fees_paid w c from fees s s2 l eq, done)
    ]

    pay_left-Solvent :
        (from : String) (s : w.State)
        → Solvent (p.balance_at s)
        → (s2 : w.State) × (pay_left_as_gas_fee w c from s ≡ some s2) × Solvent (p.balance_at s2)
    unfolding pay_left_as_gas_fee
    pay_left-Solvent from s h =
        pay_admins-Solvent (w.get_balance from s).0 _ (read_value from s h)
          (write-Solvent from (pos 0) _ refl (read-Solvent from s h))

-- A transaction that is no IBTP, names a recipient, and whose payload, where it decodes, is that of a
-- transfer of an amount that is not negative, is applied without a panic where there is an administrator
-- and the ledger can be reverted to the snapshots that the transaction takes: it keeps the promises of
-- World, and for the model of the state ledger every loaded account has the changer that the ledger has
-- now. This holds whatever the reason for which the transaction may be invalid; and from balances none
-- of which is negative it leaves none that is negative.
pub apply_transaction-Solvent :
    (w : World) (p : Promises w) (m : Machines w) (c : Setting) (tx : BxhTransaction) (to : String)
    (i : ℕ) (reason : String) (s : w.State)
    → tx.to ≡ some to
    → tx.is_ibtp ≡ false
    → ((payload : String) (d : TransactionData)
        → tx.payload ≡ some payload
        → m.unmarshal payload ≡ inr d
        → (d.data_type ≡ normal) × (ltbℤ (parsed (m.set_string d.amount)) (pos 0) ≡ false))
    → 0 < length c.admins
    → p.Taken [] s
    → Solvent (p.balance_at s)
    → (receipt : Receipt) × (s2 : w.State) × (apply_transaction w m c i (bxh tx) reason s
        ≡ some (receipt, s2))
      × Solvent (p.balance_at s2)
unfolding pay_gas_fee
apply_transaction-Solvent w p m c tx to i reason s named b plain n taken h =
    let (receipt, s2, eq, nonce, solvent) =
      transaction-Ends w p m c tx to named Solvent Solvent (Solvent-same w p) (Solvent-same w p)
        (λ payload d e u.
          let (kind, sign) = plain payload d e u in
          (kind, λ x k. transfer-Solvent w p tx.from to _ x sign k))
        (λ gas x k. pay_fees-Solvent w p c n tx.from _ x (positive (gas * c.bxh_gas_price)) k)
        (λ x k. pay_left-Solvent w p c n tx.from x k) i reason s b taken h in
    (receipt, s2, eq, solvent)
