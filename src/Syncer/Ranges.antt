-- ===== src/Syncer/Ranges.antt =====
-- The ranges of heights that are fetched at once: calcRangeHeight of pkg/order/syncer/state_syncer.go.
use Prim.Native.Nat.{◌/◌}
use model_lib.Base.{
  ℕ, zero, suc, ◌+◌, ◌-◌, ◌*◌, ◌%◌, ltb, leb, true, false, List, [], ◌∷◌, Option, none, some,
  if◌then◌else◌, uint64_mod,
}

-- rangeHeight
pub record RangeHeight : Type 0 where
  pub begin : ℕ
  pub end : ℕ

-- The range that starts at a height
unfoldable pub next_range : ℕ → ℕ → ℕ → ℕ → RangeHeight
next_range block_fetch begin end start_no =
    let range_end = (((start_no + 1) % uint64_mod) * block_fetch) % uint64_mod in
    record { begin = begin; end = if ltb end range_end then end else range_end }

-- The loop of calcRangeHeight; none where the rounds do not suffice
unfoldable pub range_loop : ℕ → ℕ → ℕ → ℕ → ℕ → Option (List RangeHeight)
unfolding next_range
range_loop zero block_fetch begin end start_no = none
range_loop (suc rounds) block_fetch begin end start_no = elim (leb begin end) [
  | false ↦ some []
  | true ↦
      let r = next_range block_fetch begin end start_no in
      elim (range_loop rounds block_fetch ((r.end + 1) % uint64_mod) end
        ((start_no + 1) % uint64_mod)) [ none ↦ none | some rest ↦ some (r ∷ rest) ]
]

-- calcRangeHeight; none is the error
unfoldable pub calc_range_height : ℕ → ℕ → ℕ → Option (List RangeHeight)
unfolding range_loop
calc_range_height block_fetch begin end = elim (ltb end begin) [
  | true ↦ none
  | false ↦ range_loop (suc (suc (end - begin))) block_fetch begin end (begin / block_fetch)
]
