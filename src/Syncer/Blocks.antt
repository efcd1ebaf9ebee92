-- ===== src/Syncer/Blocks.antt =====
-- The blocks of a range, and the blocks that are sent on: verifyBlock, syncRangeBlocks and SyncBFTBlocks of
-- pkg/order/syncer/state_syncer.go. What the peers send is a parameter.
use model_lib.Base.{
  ℕ, ltb, String, true, false, List, [], ◌∷◌, ◌++◌, Option, none, some, if◌then◌else◌, str_eq,
}
use model_lib.Syncer.Ranges.{RangeHeight, calc_range_height}
use model_lib.Syncer.Headers.{Header, last_header, sync_quorum_range_block_headers}

-- pb.Block: its header, and the hash that comes with it
pub record Block : Type 0 where
  pub header : Header
  pub block_hash : String

-- What the loop over the blocks of a peer comes to
pub data Checked : Type 0 where
  passed : Checked
  refused : Checked
  panicked : Checked

-- verifyBlock in the loop of syncRangeBlocks, which panics where there is no header left
unfoldable pub check_blocks : (Header → String) → List Header → List Block → Checked
check_blocks hash_of hs [] = passed
check_blocks hash_of [] (b ∷ bs) = panicked
check_blocks hash_of (h ∷ hs) (b ∷ bs) = elim (str_eq (hash_of h) b.block_hash) [
  | true ↦ check_blocks hash_of hs bs
  | false ↦ refused
]

-- fetchBlocks, by what the peer sends for two heights
unfoldable pub fetch_blocks : (ℕ → ℕ → ℕ → Option (List Block)) → ℕ → ℕ → ℕ → Option (List Block)
fetch_blocks send id begin end = if ltb end begin then none else send id begin end

-- fetchBlockHeaders
unfoldable pub fetch_block_headers :
    (ℕ → ℕ → ℕ → Option (List Header)) → ℕ → ℕ → ℕ → Option (List Header)
fetch_block_headers send id begin end = if ltb end begin then none else send id begin end

-- The loop over the peers of syncRangeBlocks: the bad peers, and the blocks, where [] is nil; none is a panic
unfoldable pub ask_blocks :
    (Header → String)
    → List Header
    → (ℕ → Option (List Block))
    → List ℕ
    → List ℕ
    → List ℕ × Option (List Block)
unfolding check_blocks
ask_blocks hash_of hs fetch [] bad = (bad, some [])
ask_blocks hash_of hs fetch (id ∷ ids) bad = elim (fetch id) [
  | none ↦ ask_blocks hash_of hs fetch ids (id ∷ bad)
  | some [] ↦ ask_blocks hash_of hs fetch ids bad
  | some (b ∷ bs) ↦ elim (check_blocks hash_of hs (b ∷ bs)) [
    | passed ↦ (bad, some (b ∷ bs))
    | refused ↦ ask_blocks hash_of hs fetch ids (id ∷ bad)
    | panicked ↦ (bad, none)
  ]
]

-- syncRangeBlocks; no headers make it panic
unfoldable pub sync_range_blocks :
    (Header → String)
    → (ℕ → ℕ → ℕ → Option (List Block))
    → List ℕ
    → List Header
    → List ℕ
    → List ℕ × Option (List Block)
unfolding ask_blocks fetch_blocks last_header
sync_range_blocks hash_of send peer_ids [] bad = (bad, none)
sync_range_blocks hash_of send peer_ids (h ∷ hs) bad =
    ask_blocks hash_of (h ∷ hs) (λ id. fetch_blocks send id h.number (last_header h hs).number)
      peer_ids bad

-- How SyncBFTBlocks ends
pub data Ending : Type 0 where
  done : Ending
  failed : Ending
  crashed : Ending

unfoldable pub last_block : Block → List Block → Block
last_block b [] = b
last_block b (x ∷ xs) = last_block x xs

module _ (hash_of : Header → String) (send_headers : ℕ → ℕ → ℕ → Option (List Header))
    (send_blocks : ℕ → ℕ → ℕ → Option (List Block)) (quorum : ℕ) (peer_ids : List ℕ) where
  -- The loop over the ranges: the blocks that are sent on, and the end
  unfoldable pub sync_ranges : Option String → List RangeHeight → List ℕ → List Block × Ending
  sync_ranges parent [] bad = ([], done)
  sync_ranges parent (r ∷ rs) bad =
      let asked =
        sync_quorum_range_block_headers hash_of parent
          (λ id. fetch_block_headers send_headers id r.begin r.end) quorum peer_ids bad in
      elim asked.1 [
        | none ↦ ([], failed)
        | some hs ↦
            let fetched = sync_range_blocks hash_of send_blocks peer_ids hs asked.0 in
            elim fetched.1 [
              | none ↦ ([], crashed)
              | some [] ↦ ([], failed)
              | some (b ∷ bs) ↦
                  let rest = sync_ranges (some (hash_of (last_block b bs).header)) rs fetched.0 in
                  ((b ∷ bs) ++ rest.0, rest.1)
            ]
      ]

  -- SyncBFTBlocks
  unfoldable pub sync_bft_blocks : ℕ → ℕ → ℕ → Option String → List ℕ → List Block × Ending
  unfolding calc_range_height sync_ranges
  sync_bft_blocks block_fetch begin end meta_hash bad =
      elim (calc_range_height block_fetch begin end) [
        | none ↦ ([], failed)
        | some ranges ↦ sync_ranges meta_hash ranges bad
      ]
