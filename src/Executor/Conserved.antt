-- ===== src/Executor/Conserved.antt =====
-- internal/executor/handle.go: what the accounts hold in all, through the transfer and the fees.
use model_lib.Base.{
  ℕ, ◌<◌, ◌≡◌, ◌≢◌, refl, sym, ap, ◌∙◌, ℤ, pos, ◌+ℤ◌, ◌-ℤ◌, ltbℤ, is_zeroℤ, div_int, +ℤ_zero,
  +ℤ_moved, String, Bool, true, false, List, [], ◌∷◌, none, some, ◌⊎◌, inl, inr, arith, Bool-cases,
  List-cases, str_eq, eq_iff, All, length, has_key, Distinct, if◌then◌else◌,
}
use model_lib.Executor.World.{World, Promises}
use model_lib.Executor.Fees.{
  Failure, Setting, transfer_to, pay_each, pay_admins, paid, pay_fees, pay_left_as_gas_fee,
  insufficient_balance,
}
use model_lib.Executor.Totals.{total, total_same, total_written, times, times-div_int}

if_true : {A : Type 0} (b : Bool) (x y : A) → b ≡ true → (if b then x else y) ≡ x
if_true b x y h = rw h refl

if_false : {A : Type 0} (b : Bool) (x y : A) → b ≡ false → (if b then x else y) ≡ y
if_false b x y h = rw h refl

pub other : (a b : String) → a ≢ b → str_eq a b ≡ false
other a b h = elim (Bool-cases (str_eq a b)) [ inl e ↦ absurd (h ((eq_iff a b).0 e)) | inr e ↦ e ]

module _ (w : World) (c : Setting) (from : String) (fees : ℤ) (s : w.State) where
  pub pay_fees_short :
      ltbℤ (w.get_balance from s).0 fees ≡ true
      → pay_fees w c from fees s
        ≡ some (
          some (insufficient_balance from (w.get_balance from s).0 fees),
          (w.get_balance from s).1,
        )
  unfolding pay_fees
  pay_fees_short l = if_true _ _ _ l

  pub pay_fees_paid :
      (s2 : w.State)
      → ltbℤ (w.get_balance from s).0 fees ≡ false
      → pay_admins w c fees
          (w.set_balance from ((w.get_balance from s).0 -ℤ fees) (w.get_balance from s).1)
        ≡ some s2
      → pay_fees w c from fees s ≡ some (none, s2)
  unfolding pay_fees paid
  pay_fees_paid s2 l e = if_false _ _ _ l ∙ ap (paid w) e

module _ (w : World) (p : Promises w) where
  -- A write behind a read
  pub written :
      (a r : String) (v : ℤ) (s : w.State) (x : String)
      → p.balance_at (w.set_balance a v (w.get_balance r s).1) x
        ≡ (if str_eq a x then v else p.balance_at s x)
  written a r v s x =
      p.set_balance_kept a v (w.get_balance r s).1 x
      ∙ ap (λ b. if str_eq a x then v else b) (p.get_balance_kept r s x)

  module _ (accounts : List String) (distinct : Distinct accounts) where
    abbrev worth : w.State → ℤ
    worth s = total (p.balance_at s) accounts

    read_total : (a : String) (s : w.State) → worth (w.get_balance a s).1 ≡ worth s
    read_total a s = total_same _ _ (p.get_balance_kept a s) accounts

    write_total :
        (a r : String) (v : ℤ) (s : w.State)
        → has_key a accounts ≡ true
        → worth (w.set_balance a v (w.get_balance r s).1) ≡ worth s +ℤ (v -ℤ p.balance_at s a)
    write_total a r v s h =
        total_written a v (p.balance_at s) _ accounts (written a r v s) distinct h

    pay_each_total :
        (fee : ℤ) (admins : List String) (s : w.State)
        → All (λ a. has_key a accounts ≡ true) admins
        → worth (pay_each w fee admins s) ≡ worth s +ℤ times (length admins) fee
    unfolding pay_each times
    pay_each_total fee [] s h = sym (+ℤ_zero (worth s))
    pay_each_total fee (a ∷ xs) s h =
        let v = (w.get_balance a s).0 +ℤ fee in
        let s1 = w.set_balance a v (w.get_balance a s).1 in
        let one : worth s1 ≡ worth s +ℤ fee =
          ground (arith, write_total a a v s h.0, p.get_balance_value a s) in
        ground (arith, pay_each_total fee xs s1 h.1, one)

    pub transfer_total :
        (from to : String) (value : ℤ) (s : w.State)
        → from ≢ to
        → has_key from accounts ≡ true
        → has_key to accounts ≡ true
        → worth (transfer_to w from to (some value) s).1 ≡ worth s
    unfolding transfer_to
    transfer_total from to value s apart f t = elim (Bool-cases (is_zeroℤ value)) [
      | inl z ↦ rw z refl
      | inr z ↦ rw z (elim (Bool-cases (ltbℤ (w.get_balance from s).0 value)) [
        | inl l ↦ rw l (read_total from s)
        | inr l ↦ rw l moved
      ])
    ]
      where
        s1 : w.State
        s1 = (w.get_balance from s).1

        taken : w.State
        taken = w.set_balance from ((w.get_balance from s).0 -ℤ value) (w.get_balance to s1).1

        untouched : p.balance_at taken to ≡ p.balance_at s1 to
        untouched =
            rw (other from to apart) at (written from to ((w.get_balance from s).0 -ℤ value) s1 to)

        moved : worth (w.set_balance to ((w.get_balance to s1).0 +ℤ value) taken) ≡ worth s
        moved =
            let bf = p.balance_at s1 from in
            let bt = p.balance_at s1 to in
            let fv : (w.get_balance from s).0 ≡ bf =
              p.get_balance_value from s ∙ sym (p.get_balance_kept from s from) in
            let sent : worth taken ≡ worth s1 +ℤ (bf -ℤ value -ℤ bf) =
              write_total from to ((w.get_balance from s).0 -ℤ value) s1 f
              ∙ ap (λ b. worth s1 +ℤ (b -ℤ value -ℤ bf)) fv in
            let got =
              total_written to ((w.get_balance to s1).0 +ℤ value) (p.balance_at taken) _ accounts
                (p.set_balance_kept to ((w.get_balance to s1).0 +ℤ value) taken) distinct t in
            got
            ∙ ap (λ b. worth taken +ℤ (b +ℤ value -ℤ p.balance_at taken to))
                (p.get_balance_value to s1)
            ∙ ap (λ b. worth taken +ℤ (bt +ℤ value -ℤ b)) untouched
            ∙ ap (λ x. x +ℤ (bt +ℤ value -ℤ bt)) sent
            ∙ +ℤ_moved (worth s1) bf bt value
            ∙ read_total from s

    module _ (c : Setting) (some_admin : 0 < length c.admins)
        (known : All (λ a. has_key a accounts ≡ true) c.admins) where
      -- All but a rest below the number of the admins
      abbrev But : ℤ → (String → ℤ) → Type 0
      But t f = (r : ℕ) × (r < length c.admins) × (total f accounts +ℤ pos r ≡ t)

      pay_admins_total :
          (fees : ℤ) (s : w.State) (t : ℤ)
          → worth s +ℤ fees ≡ t
          → (s2 : w.State) × (pay_admins w c fees s ≡ some s2) × But t (p.balance_at s2)
      unfolding pay_admins
      pay_admins_total fees s t e = elim (List-cases c.admins) [
        | inl n ↦ absurd (ground (arith, n, some_admin))
        | inr (a, xs, n) ↦
            let fee = div_int fees (length c.admins) in
            let (r, below, parts) = times-div_int fees (length c.admins) some_admin in
            (
              pay_each w fee c.admins s,
              ground (arith, n),
              (r, below, ground (arith, pay_each_total fee c.admins s known, parts, e)),
            )
      ]

      pub pay_fees_total :
          (from : String) (t : ℤ)
          → has_key from accounts ≡ true
          → (fees : ℤ) (s : w.State) → worth s ≡ t
          → ((s2 : w.State) × (pay_fees w c from fees s ≡ some (none, s2))
              × But t (p.balance_at s2))
            ⊎ ((e : Failure) × (pay_fees w c from fees s ≡ some (some e, (w.get_balance from s).1)))
      pay_fees_total from t f fees s e =
          let (have, s1) = w.get_balance from s in
          elim (Bool-cases (ltbℤ have fees)) [
            | inl l ↦ inr (insufficient_balance from have fees, pay_fees_short w c from fees s l)
            | inr l ↦
                let paid : worth (w.set_balance from (have -ℤ fees) s1) +ℤ fees ≡ t = ground (
                  arith,
                  write_total from from (have -ℤ fees) s f,
                  p.get_balance_value from s,
                  e,
                ) in
                let (s2, eq, but) = pay_admins_total fees _ t paid in
                inl (s2, pay_fees_paid w c from fees s s2 l eq, but)
          ]

      pub pay_left_total :
          (from : String) (t : ℤ)
          → has_key from accounts ≡ true
          → (s : w.State) → worth s ≡ t
          → (s2 : w.State) × (pay_left_as_gas_fee w c from s ≡ some s2) × But t (p.balance_at s2)
      unfolding pay_left_as_gas_fee
      pay_left_total from t f s e =
          pay_admins_total (w.get_balance from s).0 _ t
            (ground (arith, write_total from from (pos 0) s f, p.get_balance_value from s, e))
