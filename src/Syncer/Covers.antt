-- ===== src/Syncer/Covers.antt =====
-- The ranges of calcRangeHeight of pkg/order/syncer/state_syncer.go.
use Prim.Native.Nat.{◌/◌}
use native.Mathlib.Nat.{mod-lt, div-add-mod}
use model_lib.Base.{
  ℕ, zero, suc, ◌+◌, ◌-◌, ◌*◌, ◌%◌, ◌≤◌, ◌<◌, ◌≡◌, refl, inl, inr, ltb, leb, true, false,
  Bool-cases, List, [], ◌∷◌, some, if◌then◌else◌, uint64_mod, arith,
}
use model_lib.Syncer.Ranges.{RangeHeight, next_range, range_loop, calc_range_height}

-- The ranges follow each other without a gap from a height to the one before the next; none is empty and
-- none has more than so many heights after its first.
unfoldable pub Covers : ℕ → ℕ → ℕ → List RangeHeight → Type 0
Covers n begin next [] = begin ≡ next
Covers n begin next (r ∷ rs) =
    (r.begin ≡ begin) × (r.begin ≤ r.end) × (r.end ≤ r.begin + n) × Covers n (suc r.end) next rs

-- A product of a positive number is not smaller.
le_product : (k n : ℕ) → 0 < n → k ≤ k * n
le_product zero n pos = omega arith
le_product (suc k) n pos =
    let one_more : suc k * n ≡ n + k * n = omega arith in
    omega (arith, le_product k n pos, pos, one_more)

-- The end of a range is the next multiple, or the end of all.
range_end :
    (n begin end k : ℕ)
    → 0 < n
    → end + n < uint64_mod
    → begin ≤ end
    → k * n ≤ begin
    → (next_range n begin end k).end ≡ (if ltb end (n + k * n) then end else n + k * n)
unfolding next_range
range_end n begin end k pos fits some_left low =
    let small = le_product k n pos in
    let next : (k + 1) % uint64_mod ≡ suc k = omega (arith, small, low, some_left, fits) in
    let one_more : suc k * n ≡ n + k * n = omega arith in
    let whole : (suc k * n) % uint64_mod ≡ n + k * n =
      omega (arith, one_more, low, some_left, fits) in
    rw (next, whole) refl

range_loop_done :
    (rounds n begin end k : ℕ)
    → 0 < rounds
    → end < begin
    → range_loop rounds n begin end k ≡ some []
unfolding range_loop
range_loop_done zero n begin end k more less = absurd (omega (arith, more))
range_loop_done (suc rounds) n begin end k more less =
    let stop : leb begin end ≡ false = ground (arith, less) in rw (range_loop, stop) refl

-- One round, for what the next ones return.
Covers-round :
    (rounds n begin end k e b1 k1 : ℕ) (rs : List RangeHeight)
    → leb begin end ≡ true
    → (next_range n begin end k).end ≡ e
    → (e + 1) % uint64_mod ≡ b1
    → (k + 1) % uint64_mod ≡ k1
    → range_loop rounds n b1 end k1 ≡ some rs
    → begin ≤ e
    → e ≤ begin + n
    → Covers n (suc e) (suc end) rs
    → (rs : List RangeHeight) × (range_loop (suc rounds) n begin end k ≡ some rs)
      × Covers n begin (suc end) rs
unfolding range_loop Covers
Covers-round rounds n begin end k e b1 k1 rs go at_end after next run low high covers = (
  record { begin = begin; end = e } ∷ rs,
  rw (range_loop, go, at_end, after, next, run)
      (λ i. some (record { begin = begin; end = at_end i } ∷ rs)),
  (refl, low, high, covers),
)

range_loop-Covers :
    (rounds n begin end k : ℕ)
    → 0 < n
    → end + n < uint64_mod
    → begin ≤ suc end
    → suc end < begin + rounds
    → k * n ≤ begin
    → begin ≤ suc k * n
    → (rs : List RangeHeight) × (range_loop rounds n begin end k ≡ some rs)
      × Covers n begin (suc end) rs
range_loop-Covers zero n begin end k pos fits some_left rounds_left low high =
    absurd (omega (arith, some_left, rounds_left))
range_loop-Covers (suc rounds) n begin end k pos fits some_left rounds_left low high =
    elim (Bool-cases (leb begin end)) [
      | inr e ↦
          let less : end < begin = ground (arith, e) in
          (
            [],
            range_loop_done (suc rounds) n begin end k (omega arith) less,
            unfold Covers in omega (arith, less, some_left),
          )
      | inl e ↦
          let here : begin ≤ end = ground (arith, e) in
          let at_end = range_end n begin end k pos fits here low in
          let one_more : suc k * n ≡ n + k * n = omega arith in
          let two_more : suc (suc k) * n ≡ n + (n + k * n) = omega arith in
          let small = le_product k n pos in
          let next : (k + 1) % uint64_mod ≡ suc k = omega (arith, small, low, here, fits) in
          elim (Bool-cases (ltb end (n + k * n))) [
            | inl t ↦
                let less : end < n + k * n = ground (arith, t) in
                let after : (end + 1) % uint64_mod ≡ suc end = omega (arith, fits, pos) in
                let done =
                  range_loop_done rounds n (suc end) end (suc k) (omega (arith, here, rounds_left))
                    (omega arith) in
                Covers-round rounds n begin end k end (suc end) (suc k) [] e (rw at_end (rw t refl))
                  after next done here (omega (arith, less, low)) (unfold Covers in refl)
            | inr t ↦
                let less : n + k * n ≤ end = ground (arith, t) in
                let after : (n + k * n + 1) % uint64_mod ≡ suc (n + k * n) =
                  omega (arith, fits, less, pos) in
                let (rs, run, covers) =
                  range_loop-Covers rounds n (suc (n + k * n)) end (suc k) pos fits
                    (omega (arith, less)) (omega (arith, rounds_left, high, one_more))
                    (omega (arith, one_more)) (omega (arith, two_more, pos)) in
                Covers-round rounds n begin end k (n + k * n) (suc (n + k * n)) (suc k) rs e
                  (rw at_end (rw t refl)) after next run (omega (arith, high, one_more))
                  (omega (arith, low)) covers
          ]
    ]

-- Where the number of blocks to fetch is not 0 and is less than what is left of a uint64 after the last height, and the first
-- height is not above the last one, the loop of calcRangeHeight ends: its ranges follow each other without a gap from the first height to
-- the last one, and none of them is empty or has more than that number of heights after its first.
pub calc_range_height-Covers :
    (n begin end : ℕ)
    → 0 < n
    → end + n < uint64_mod
    → begin ≤ end
    → (rs : List RangeHeight) × (calc_range_height n begin end ≡ some rs)
      × Covers n begin (suc end) rs
unfolding calc_range_height
calc_range_height-Covers n begin end pos fits here =
    let whole = div-add-mod begin n in
    let part = mod-lt begin pos in
    let one_more : suc (begin / n) * n ≡ n + (begin / n) * n = omega arith in
    let turned : n * (begin / n) ≡ (begin / n) * n = omega arith in
    let (rs, run, covers) =
      range_loop-Covers (suc (suc (end - begin))) n begin end (begin / n) pos fits
        (omega (arith, here)) (omega (arith, here)) (omega (arith, whole, turned))
        (omega (arith, whole, turned, part, one_more)) in
    let right : ltb end begin ≡ false = ground (arith, here) in
    (rs, rw (calc_range_height, right) run, covers)
