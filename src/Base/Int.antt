-- ===== src/Base/Int.antt =====
-- Signed integers over the native numbers: `negsuc n` is -(n + 1).
use Prim.Native.Nat.{ℕ, ◌+◌, ◌-◌, ◌/◌}
use mathlib.Core.Path.{◌≡◌, ap, ◌∙◌}
use native.Mathlib.Omega.{arith}
use mathlib.Core.Bool.{Bool, true, false}
use model_lib.Base.Tests.{◌==◌, ltb, if◌then◌else◌}

infixl 60 ◌+ℤ◌
pub data ℤ : Type 0 where
  pos : ℕ → ℤ
  negsuc : ℕ → ℤ

-- a - b on the native numbers, with its sign
abbrev pub sub_nat : ℕ → ℕ → ℤ
sub_nat a b = if ltb a b then negsuc (b - (a + 1)) else pos (a - b)

abbrev pub ◌+ℤ◌ : ℤ → ℤ → ℤ
pos a +ℤ pos b = pos (a + b)
pos a +ℤ negsuc b = sub_nat a (b + 1)
negsuc a +ℤ pos b = sub_nat b (a + 1)
negsuc a +ℤ negsuc b = negsuc (a + b + 1)

abbrev pub negℤ : ℤ → ℤ
negℤ (pos a) = sub_nat 0 a
negℤ (negsuc a) = pos (a + 1)

abbrev pub is_zeroℤ : ℤ → Bool
is_zeroℤ (pos a) = a == 0
is_zeroℤ (negsuc a) = false

infixl 60 ◌-ℤ◌
abbrev pub ◌-ℤ◌ : ℤ → ℤ → ℤ
a -ℤ b = a +ℤ negℤ b

-- a < b
abbrev pub ltbℤ : ℤ → ℤ → Bool
ltbℤ (pos a) (pos b) = ltb a b
ltbℤ (pos a) (negsuc b) = false
ltbℤ (negsuc a) (pos b) = true
ltbℤ (negsuc a) (negsuc b) = ltb b a

-- Euclidean division by a positive number, the Div of math/big
abbrev pub div_int : ℤ → ℕ → ℤ
div_int (pos a) n = pos (a / n)
div_int (negsuc a) n = negsuc (a / n)

pub +ℤ_comm : (a b : ℤ) → a +ℤ b ≡ b +ℤ a
+ℤ_comm a b = ground arith

pub +ℤ_assoc : (a b c : ℤ) → a +ℤ b +ℤ c ≡ a +ℤ (b +ℤ c)
+ℤ_assoc a b c = ground arith

pub +ℤ_zero : (a : ℤ) → a +ℤ pos 0 ≡ a
+ℤ_zero a = ground arith

pub -ℤ_self : (a : ℤ) → a -ℤ a ≡ pos 0
-ℤ_self a = ground arith

-- What is taken off and put back
pub +ℤ_replace : (a b v : ℤ) → v +ℤ b ≡ a +ℤ b +ℤ (v -ℤ a)
+ℤ_replace a b v = ground arith

pub -ℤ_restore : (a b : ℤ) → a -ℤ b +ℤ b ≡ a
-ℤ_restore a b = ground arith

-ℤ_other : (a b : ℤ) → a -ℤ b -ℤ a ≡ negℤ b
-ℤ_other a b = ground arith

+ℤ_other : (a b : ℤ) → a +ℤ b -ℤ a ≡ b
+ℤ_other a b = ground arith

-- What is taken off one number and put on another leaves their sum.
pub +ℤ_moved : (w a b v : ℤ) → w +ℤ (a -ℤ v -ℤ a) +ℤ (b +ℤ v -ℤ b) ≡ w
+ℤ_moved w a b v =
    let one : a -ℤ v -ℤ a ≡ negℤ v = -ℤ_other a v in
    let two : b +ℤ v -ℤ b ≡ v = +ℤ_other b v in
    ap (λ x. w +ℤ x +ℤ (b +ℤ v -ℤ b)) one ∙ (ap (λ x. w +ℤ negℤ v +ℤ x) two ∙ -ℤ_restore w v)
