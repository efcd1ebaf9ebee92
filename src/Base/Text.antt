-- ===== src/Base/Text.antt =====
-- Texts as the standard library of Go treats them: concatenation, strings.Split at a character, and
-- decimal numbers.
use Prim.Native.Char.{Char, code}
use Prim.Native.Nat.{ℕ, zero, suc, ◌/◌, ◌%◌, ◌^◌, ◌<◌}
use Prim.Native.String.{String}
use mathlib.Core.Path.{◌≡◌, refl, ap, sym, ◌∙◌}
use mathlib.Core.Bool.{true, false}
use mathlib.Core.Logic.{inl, inr}
use mathlib.Core.List.{List, [], ◌∷◌}
use native.Mathlib.Omega.{arith}
use native.Mathlib.Nat.{pow-suc}
use text.Mathlib.TextEquality.{Char-path}
use model_lib.Base.Tests.{◌==◌, ==_iff, ltb, if◌then◌else◌, Bool-cases}

-- s + t
unfoldable pub text_append : String → String → String
text_append String.[] t = t
text_append (String.◌∷◌ c s) t = String.◌∷◌ c (text_append s t)

-- The character goes to the first field.
unfoldable pub add_first : Char → List String → List String
add_first c [] = String.◌∷◌ c "" ∷ []
add_first c (x ∷ xs) = String.◌∷◌ c x ∷ xs

-- strings.Split(s, sep) for a separator of one character
unfoldable pub split_text : Char → String → List String
unfolding add_first
split_text sep String.[] = "" ∷ []
split_text sep (String.◌∷◌ c s) =
    let rest = split_text sep s in if code c == code sep then "" ∷ rest else add_first c rest

-- strings.Join
unfoldable pub join_text : Char → List String → String
unfolding text_append
join_text sep [] = ""
join_text sep (x ∷ xs) = elim xs [
  | [] ↦ x
  | y ∷ ys ↦ text_append x (String.◌∷◌ sep (join_text sep xs))
]

-- One digit
unfoldable pub digit_text : ℕ → String
digit_text d =
    if d == 0
    then "0"
    else if d == 1
    then "1"
    else if d == 2
    then "2"
    else if d == 3
    then "3"
    else if d == 4
    then "4"
    else if d == 5
    then "5"
    else if d == 6
    then "6"
    else if d == 7
    then "7"
    else if d == 8
    then "8"
    else "9"

-- The decimal digits of a number below 10 ^ fuel
unfoldable pub decimal : ℕ → ℕ → String
unfolding digit_text text_append
decimal zero n = ""
decimal (suc fuel) n = elim (ltb n 10) [
  | true ↦ digit_text n
  | false ↦ text_append (decimal fuel (n / 10)) (digit_text (n % 10))
]

-- Fuel for as many digits as the number has is enough: more of it changes nothing.
pub decimal_enough :
    (fuel n : ℕ) → n < 10 ^ suc fuel → decimal (suc fuel) n ≡ decimal (suc (suc fuel)) n
decimal_enough zero n h = unfold decimal in ground arith
decimal_enough (suc fuel) n h = elim (Bool-cases (ltb n 10)) [
  | inl t ↦ unfold decimal in rw (t, decimal)
  | inr f ↦
      let shorter : n / 10 < 10 ^ suc fuel = omega (arith, pow-suc 10 (suc fuel)) in
      step f (decimal_enough fuel (n / 10) shorter)
]
  where
    step :
        ltb n 10 ≡ false
        → decimal (suc fuel) (n / 10) ≡ decimal (suc (suc fuel)) (n / 10)
        → decimal (suc (suc fuel)) n ≡ decimal (suc (suc (suc fuel))) n
    step f e =
        again (suc fuel) f
        ∙ (ap (λ t. text_append t (digit_text (n % 10))) e ∙ sym (again (suc (suc fuel)) f))
      where
        again :
            (g : ℕ)
            → ltb n 10 ≡ false
            → decimal (suc g) n ≡ text_append (decimal g (n / 10)) (digit_text (n % 10))
        again g f = unfold decimal in rw (f, decimal)

split_text-cons :
    (sep : Char) (s : String) → (x : String) × (xs : List String) × (split_text sep s ≡ x ∷ xs)
unfolding split_text add_first
split_text-cons sep String.[] = ("", [], refl)
split_text-cons sep (String.◌∷◌ c s) = elim (Bool-cases (code c == code sep)) [
  | inl e ↦ ("", split_text sep s, rw (e, split_text))
  | inr e ↦ let (x, xs, f) = split_text-cons sep s in (String.◌∷◌ c x, xs, rw (e, split_text, f))
]

join-add_first :
    (sep c : Char) (x : String) (xs : List String)
    → join_text sep (add_first c (x ∷ xs)) ≡ String.◌∷◌ c (join_text sep (x ∷ xs))
unfolding join_text add_first
join-add_first sep c x [] = refl
join-add_first sep c x (y ∷ ys) = refl

-- The fields of a text, joined at the character where it was split, give the text.
pub join-split_text : (sep : Char) (s : String) → join_text sep (split_text sep s) ≡ s
unfolding split_text
join-split_text sep String.[] = unfold join_text in refl
join-split_text sep (String.◌∷◌ c s) =
    let (x, xs, f) = split_text-cons sep s in
    let ih = join-split_text sep s in
    elim (Bool-cases (code c == code sep)) [
      | inl e ↦
          let same : c ≡ sep = Char-path c sep ((==_iff _ _).0 e) in
          rw (e, f) (empty_first x xs ∙ (rw (← f) (rw ih (rw same))))
      | inr e ↦ rw (e, f) (join-add_first sep c x xs ∙ (rw (← f) (rw ih)))
    ]
  where
    empty_first :
        (x : String) (xs : List String)
        → join_text sep ("" ∷ x ∷ xs) ≡ String.◌∷◌ sep (join_text sep (x ∷ xs))
    empty_first x xs = unfold join_text in refl
