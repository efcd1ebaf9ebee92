-- ===== src/Executor/Amounts.antt =====
-- internal/executor/handle.go: transfers that do not do what a transfer is for.
use model_lib.Base.{
  ℕ, ◌+◌, ◌≡◌, ◌≢◌, refl, sym, ap, ◌∙◌, ℤ, pos, negsuc, ◌+ℤ◌, ◌-ℤ◌, ltbℤ, is_zeroℤ, String, false,
  some, none, arith,
}
use text.Mathlib.TextPositions.{eq_refl}
use model_lib.Executor.World.{World, Promises}
use model_lib.Executor.Fees.{transfer, transfer_to}
use model_lib.Executor.Conserved.{other}

module _ (w : World) (p : Promises w) (from to : String) (value : ℤ) (s : w.State) where
  sent : w.State
  sent =
      let (fv, s1) = w.get_balance from s in
      w.set_balance from (fv -ℤ value) (w.get_balance to s1).1

  after : w.State
  unfolding sent
  after = w.set_balance to ((w.get_balance to (w.get_balance from s).1).0 +ℤ value) sent

  transfer_done :
      is_zeroℤ value ≡ false
      → ltbℤ (p.balance_at s from) value ≡ false
      → transfer_to w from to (some value) s ≡ (none, after)
  unfolding transfer_to after
  transfer_done z l =
      let funds : ltbℤ (w.get_balance from s).0 value ≡ false = rw (p.get_balance_value from s) l in
      rw (z, funds) refl

  recipient_after : p.balance_at after to ≡ p.balance_at s to +ℤ value
  unfolding after
  recipient_after =
      rw (eq_refl to) at
        (p.set_balance_kept to ((w.get_balance to (w.get_balance from s).1).0 +ℤ value) sent to)
      ∙ ap (λ b. b +ℤ value)
          (p.get_balance_value to (w.get_balance from s).1 ∙ p.get_balance_kept from s to)

  sender_after : from ≢ to → p.balance_at after from ≡ p.balance_at s from -ℤ value
  unfolding after
  sender_after apart =
      let s1 = (w.get_balance from s).1 in
      let mine : p.balance_at sent from ≡ (w.get_balance from s).0 -ℤ value = rw (eq_refl from) at (
        p.set_balance_kept from ((w.get_balance from s).0 -ℤ value) (w.get_balance to s1).1 from) in
      let kept : p.balance_at after from ≡ p.balance_at sent from =
        rw (other to from (λ e. apart (sym e))) at
          (p.set_balance_kept to ((w.get_balance to s1).0 +ℤ value) sent from) in
      kept ∙ (mine ∙ ap (λ b. b -ℤ value) (p.get_balance_value from s))

-- A transfer of a negative amount to another account does not fail where the sender holds no less than
-- the amount; it takes from the recipient what it adds to the sender, however little the recipient has.
pub transfer_negative :
    (w : World) (p : Promises w) (from to : String) (n : ℕ) (s : w.State)
    → from ≢ to
    → ltbℤ (p.balance_at s from) (negsuc n) ≡ false
    → (s2 : w.State) × (transfer w from (some to) (some (negsuc n)) s ≡ some (none, s2))
      × (p.balance_at s2 from ≡ p.balance_at s from +ℤ pos (n + 1))
      × (p.balance_at s2 to ≡ p.balance_at s to -ℤ pos (n + 1))
unfolding transfer
transfer_negative w p from to n s apart l = (
  after w p from to (negsuc n) s,
  ap some (transfer_done w p from to (negsuc n) s refl l),
  sender_after w p from to (negsuc n) s apart ∙ taken (p.balance_at s from) n,
  recipient_after w p from to (negsuc n) s ∙ given (p.balance_at s to) n,
)
  where
    taken : (a : ℤ) (n : ℕ) → a -ℤ negsuc n ≡ a +ℤ pos (n + 1)
    taken a n = ground arith

    given : (a : ℤ) (n : ℕ) → a +ℤ negsuc n ≡ a -ℤ pos (n + 1)
    given a n = ground arith

-- A transfer of an amount other than 0 from an account to itself, which holds no less, does not fail,
-- and the account holds the amount more afterwards.
pub transfer_to_itself :
    (w : World) (p : Promises w) (account : String) (value : ℤ) (s : w.State)
    → is_zeroℤ value ≡ false
    → ltbℤ (p.balance_at s account) value ≡ false
    → ((transfer_to w account account (some value) s).0 ≡ none)
      × (p.balance_at (transfer_to w account account (some value) s).1 account
          ≡ p.balance_at s account +ℤ value)
transfer_to_itself w p account value s z l =
    let done = transfer_done w p account account value s z l in
    (
      ap (λ t. t.0) done,
      ap (λ t. p.balance_at t.1 account) done ∙ recipient_after w p account account value s,
    )
