-- ===== src/Scenarios/Syncing.antt =====
-- Runs of pkg/order/syncer: three peers of which two agree on two blocks after the block "h0".
use model_lib.Base.{
  ℕ, ◌≤◌, ◌≡◌, refl, ◌==◌, String, List, [], ◌∷◌, Option, none, some, if◌then◌else◌, arith,
}
use model_lib.Syncer.Ranges.{RangeHeight, calc_range_height}
use model_lib.Syncer.Covers.{Covers, calc_range_height-Covers}
use model_lib.Syncer.Headers.{Header, last_header, sync_quorum_range_block_headers}
use model_lib.Syncer.Quorum.{Chained, supporters, sync_quorum_range_block_headers-supported}
use model_lib.Syncer.Blocks.{
  Block, done, fetch_block_headers, sync_range_blocks, last_block, sync_ranges, sync_bft_blocks,
}
use model_lib.Syncer.Delivered.{Delivered, sync_bft_blocks-Delivered}

-- The first range has six heights.
ranges_of_five :
    calc_range_height 5 10 18
    ≡ some (record { begin = 10; end = 15 } ∷ record { begin = 16; end = 18 } ∷ [])
unfolding calc_range_height
ranges_of_five = refl

calc_range_height-Covers_example :
    (rs : List RangeHeight) × (calc_range_height 5 10 18 ≡ some rs) × Covers 5 10 19 rs
calc_range_height-Covers_example =
    calc_range_height-Covers 5 10 18 (omega arith) (omega arith) (omega arith)

abbrev hash_of : Header → String
hash_of h = if h.number == 1 then "h1" else if h.number == 2 then "h2" else "h3"

abbrev first : Header
first = record { number = 1; parent_hash = "h0" }

abbrev second : Header
second = record { number = 2; parent_hash = "h1" }

-- The second peer sends a header that does not belong there.
abbrev answers : ℕ → Option (List Header)
answers id = if id == 2 then some (second ∷ []) else some (first ∷ second ∷ [])

two_agree_headers :
    (sync_quorum_range_block_headers hash_of (some "h0") answers 2 (1 ∷ 2 ∷ 3 ∷ []) []).1
    ≡ some (first ∷ second ∷ [])
unfolding sync_quorum_range_block_headers
two_agree_headers = refl

sync_quorum_range_block_headers-supported_example :
    (x : Header) × (xs : List Header) × (Path (List Header) (first ∷ second ∷ []) (x ∷ xs))
    × Chained hash_of "h0" (first ∷ second ∷ [])
    × (2 ≤ supporters hash_of "h0" answers (1 ∷ 2 ∷ 3 ∷ []) (hash_of (last_header x xs)))
sync_quorum_range_block_headers-supported_example =
    sync_quorum_range_block_headers-supported hash_of "h0" answers 2 (1 ∷ 2 ∷ 3 ∷ []) []
      (first ∷ second ∷ []) two_agree_headers

abbrev send_headers : ℕ → ℕ → ℕ → Option (List Header)
send_headers id begin end = answers id

abbrev blocks : List Block
blocks =
    (record { header = first; block_hash = "h1" })
    ∷ (record { header = second; block_hash = "h2" })
    ∷ []

-- The first peer has no blocks.
abbrev send_blocks : ℕ → ℕ → ℕ → Option (List Block)
send_blocks id begin end = if id == 1 then none else some blocks

blocks_arrive :
    sync_bft_blocks hash_of send_headers send_blocks 2 (1 ∷ 2 ∷ 3 ∷ []) 2 1 2 (some "h0") []
    ≡ (blocks, done)
unfolding sync_bft_blocks sync_ranges sync_quorum_range_block_headers fetch_block_headers
    sync_range_blocks last_block
blocks_arrive = refl

sync_bft_blocks-Delivered_example :
    (ranges : List RangeHeight) × (calc_range_height 2 1 2 ≡ some ranges)
    × Delivered hash_of send_headers send_blocks 2 (1 ∷ 2 ∷ 3 ∷ []) "h0" ranges blocks
sync_bft_blocks-Delivered_example =
    sync_bft_blocks-Delivered hash_of send_headers send_blocks 2 (1 ∷ 2 ∷ 3 ∷ []) 2 1 2 "h0" []
      blocks blocks_arrive
