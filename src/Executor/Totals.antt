-- ===== src/Executor/Totals.antt =====
-- What a list of accounts holds in all, and what it holds after a write; and the parts in which a fee
-- is divided (the payments of internal/executor/handle.go).
use Prim.Native.Nat.{◌/◌}
use native.Mathlib.Nat.{div-add-mod, mod-lt}
use model_lib.Base.{
  ℕ, zero, suc, ◌+◌, ◌-◌, ◌*◌, ◌%◌, ◌<◌, ℤ, pos, negsuc, ◌+ℤ◌, ◌-ℤ◌, div_int, +ℤ_assoc, +ℤ_replace,
  ◌≡◌, refl, sym, ap, subst, String, true, false, List, [], ◌∷◌, arith, if◌then◌else◌, str_eq,
  has_key, Distinct, Bool-cases, inl, inr, eq_iff,
}

unfoldable pub total : (String → ℤ) → List String → ℤ
total b [] = pos 0
total b (a ∷ xs) = b a +ℤ total b xs

pub total_same :
    (f g : String → ℤ) → ((x : String) → f x ≡ g x) → (xs : List String) → total f xs ≡ total g xs
unfolding total
total_same f g e [] = refl
total_same f g e (a ∷ xs) = rw (e a, total_same f g e xs) refl

total-beside :
    (a : String) (v : ℤ) (f g : String → ℤ) (xs : List String)
    → ((x : String) → g x ≡ (if str_eq a x then v else f x))
    → has_key a xs ≡ false
    → total g xs ≡ total f xs
unfolding total has_key
total-beside a v f g [] e h = refl
total-beside a v f g (x ∷ xs) e h = elim (Bool-cases (str_eq a x)) [
  | inl same ↦ absurd (ground (arith, eq_iff x a, eq_iff a x))
  | inr apart ↦ ground (arith, e x, total-beside a v f g xs e (ground (arith, h)))
]

-- A write changes the total by what it changes at its account.
pub total_written :
    (a : String) (v : ℤ) (f g : String → ℤ) (xs : List String)
    → ((x : String) → g x ≡ (if str_eq a x then v else f x))
    → Distinct xs
    → has_key a xs ≡ true
    → total g xs ≡ total f xs +ℤ (v -ℤ f a)
unfolding total has_key Distinct
total_written a v f g [] e d h = ground arith
total_written a v f g (x ∷ xs) e d h = elim (Bool-cases (str_eq a x)) [
  | inl same ↦
      let at : a ≡ x = (eq_iff a x).0 same in
      let rest : total g xs ≡ total f xs =
        total-beside a v f g xs e (subst (λ y. has_key y xs ≡ false) (sym at) d.0) in
      let here : g x ≡ v = rw same at (e x) in
      let there : f a ≡ f x = ap f at in rw (here, rest, there) (+ℤ_replace (f x) (total f xs) v)
  | inr apart ↦
      let here : g x ≡ f x = rw apart at (e x) in
      let rest : total g xs ≡ total f xs +ℤ (v -ℤ f a) =
        total_written a v f g xs e d.1 (ground (arith, h, eq_iff x a, eq_iff a x)) in
      rw (here, rest) (sym (+ℤ_assoc (f x) (total f xs) (v -ℤ f a)))
]

-- n times a number
unfoldable pub times : ℕ → ℤ → ℤ
times zero x = pos 0
times (suc n) x = x +ℤ times n x

times_pos : (n q : ℕ) → times n (pos q) ≡ pos (n * q)
unfolding times
times_pos zero q = ground arith
times_pos (suc n) q = ground (arith, times_pos n q)

times_negsuc : (n q : ℕ) → times n (negsuc q) +ℤ pos (n * (q + 1)) ≡ pos 0
unfolding times
times_negsuc zero q = ground arith
times_negsuc (suc n) q = ground (arith, times_negsuc n q)

-- A sum is the n parts of its division, and a rest below n.
pub times-div_int :
    (f : ℤ) (n : ℕ) → 0 < n → (r : ℕ) × (r < n) × (times n (div_int f n) +ℤ pos r ≡ f)
times-div_int (pos a) n h =
    (a % n, mod-lt a h, ground (arith, times_pos n (a / n), div-add-mod a n))
times-div_int (negsuc a) n h = (
  n - (1 + a % n),
  ground (arith, mod-lt a h),
  ground (arith, times_negsuc n (a / n), div-add-mod a n, mod-lt a h),
)
