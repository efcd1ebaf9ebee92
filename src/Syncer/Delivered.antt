-- ===== src/Syncer/Delivered.antt =====
-- What the blocks of SyncBFTBlocks of pkg/order/syncer/state_syncer.go rest on.
use model_lib.Base.{
  ℕ, ◌≤◌, ◌≡◌, refl, sym, ap, subst, ◌∙◌, ◌⊎◌, inl, inr, String, Bool-cases, Option-cases, List,
  List-cases, [], ◌∷◌, ◌++◌, Option, none, some, some-injective, str_eq, eq_iff, arith,
}
use model_lib.Syncer.Ranges.{RangeHeight, calc_range_height}
use model_lib.Syncer.Headers.{Header, last_header, sync_quorum_range_block_headers}
use model_lib.Syncer.Blocks.{
  Block, Checked, passed, refused, panicked, check_blocks, fetch_blocks, fetch_block_headers,
  ask_blocks, sync_range_blocks, Ending, done, failed, crashed, last_block, sync_ranges,
  sync_bft_blocks,
}
use model_lib.Syncer.Quorum.{Chained, supporters, sync_quorum_range_block_headers-supported}

-- Each block comes with the hash of the header at its place, and there are no more blocks than headers.
unfoldable pub Match : (Header → String) → List Header → List Block → Type 0
Match hash_of hs [] = Unit
Match hash_of [] (b ∷ bs) = ⊥
Match hash_of (h ∷ hs) (b ∷ bs) = (b.block_hash ≡ hash_of h) × Match hash_of hs bs

check_blocks-Match :
    (hash_of : Header → String) (hs : List Header) (bs : List Block)
    → check_blocks hash_of hs bs ≡ passed
    → Match hash_of hs bs
unfolding check_blocks Match
check_blocks-Match hash_of hs [] e = tt
check_blocks-Match hash_of [] (b ∷ bs) e = absurd (ground (arith, e))
check_blocks-Match hash_of (h ∷ hs) (b ∷ bs) e =
    elim (Bool-cases (str_eq (hash_of h) b.block_hash)) [
      | inl t ↦ (
        sym ((eq_iff (hash_of h) b.block_hash).0 t),
        check_blocks-Match hash_of hs bs (sym (rw (check_blocks, t) refl) ∙ e),
      )
      | inr t ↦ absurd (ground (arith, e, t))
    ]

Checked-cases : (c : Checked) → (c ≡ passed) ⊎ ((c ≡ refused) ⊎ (c ≡ panicked))
Checked-cases passed = inl refl
Checked-cases refused = inr (inl refl)
Checked-cases panicked = inr (inr refl)

-- One peer, for what it sends and for what the others lead to.
ask_blocks-one :
    (hash_of : Header → String) (hs : List Header) (fetch : ℕ → Option (List Block)) (id : ℕ)
    (ids bad : List ℕ) (bs : List Block) (a : Option (List Block))
    → fetch id ≡ a
    → (ask_blocks hash_of hs fetch (id ∷ ids) bad).1 ≡ some bs
    → (((bad1 : List ℕ) × ((ask_blocks hash_of hs fetch ids bad1).1 ≡ some bs))
        ⊎ Match hash_of hs bs)
unfolding ask_blocks
ask_blocks-one hash_of hs fetch id ids bad bs none f e = inl (id ∷ bad, rw (ask_blocks, f) at e)
ask_blocks-one hash_of hs fetch id ids bad bs (some []) f e = inl (bad, rw (ask_blocks, f) at e)
ask_blocks-one hash_of hs fetch id ids bad bs (some (b ∷ more)) f e =
    elim (Checked-cases (check_blocks hash_of hs (b ∷ more))) [
      | inl c ↦ inr (
          subst (Match hash_of hs) (some-injective (rw (ask_blocks, f, c) at e))
            (check_blocks-Match hash_of hs (b ∷ more) c))
      | inr (inl c) ↦ inl (id ∷ bad, rw (ask_blocks, f, c) at e)
      | inr (inr c) ↦ absurd (ground (arith, rw (ask_blocks, f, c) at e))
    ]

ask_blocks-Match :
    (hash_of : Header → String) (hs : List Header) (fetch : ℕ → Option (List Block))
    (ids bad : List ℕ) (bs : List Block)
    → (ask_blocks hash_of hs fetch ids bad).1 ≡ some bs
    → Match hash_of hs bs
unfolding ask_blocks
ask_blocks-Match hash_of hs fetch [] bad bs e =
    subst (Match hash_of hs) (some-injective e) (unfold Match in tt)
ask_blocks-Match hash_of hs fetch (id ∷ ids) bad bs e =
    elim (ask_blocks-one hash_of hs fetch id ids bad bs (fetch id) refl e) [
      | inl (bad1, f) ↦ ask_blocks-Match hash_of hs fetch ids bad1 bs f
      | inr m ↦ m
    ]

sync_range_blocks-Match :
    (hash_of : Header → String) (send : ℕ → ℕ → ℕ → Option (List Block)) (peer_ids bad : List ℕ)
    (hs : List Header) (bs : List Block)
    → (sync_range_blocks hash_of send peer_ids hs bad).1 ≡ some bs
    → Match hash_of hs bs
unfolding sync_range_blocks
sync_range_blocks-Match hash_of send peer_ids bad [] bs e = absurd (ground (arith, e))
sync_range_blocks-Match hash_of send peer_ids bad (h ∷ hs) bs e =
    ask_blocks-Match hash_of (h ∷ hs)
      (λ id. fetch_blocks send id h.number (last_header h hs).number) peer_ids bad bs e

failed-done : failed ≡ done → ⊥
failed-done e = ground (arith, e)

crashed-done : crashed ≡ done → ⊥
crashed-done e = ground (arith, e)

module _ (hash_of : Header → String) (send_headers : ℕ → ℕ → ℕ → Option (List Header))
    (send_blocks : ℕ → ℕ → ℕ → Option (List Block)) (quorum : ℕ) (peer_ids : List ℕ) where
  -- What a range delivers: blocks that match headers which are chained from the parent on, up to a hash that as
  -- many peers as the quorum answered with.
  abbrev Range : String → RangeHeight → Block → List Block → Type 0
  Range parent r b bs =
      (x : Header) × (xs : List Header) × Chained hash_of parent (x ∷ xs)
      × (quorum
          ≤ supporters hash_of parent (λ id. fetch_block_headers send_headers id r.begin r.end)
              peer_ids (hash_of (last_header x xs)))
      × Match hash_of (x ∷ xs) (b ∷ bs)

  -- The blocks are those of the ranges, in their order, each with the last block before it as its parent.
  unfoldable pub Delivered : String → List RangeHeight → List Block → Type 0
  unfolding last_block
  Delivered parent [] sent = sent ≡ []
  Delivered parent (r ∷ rs) sent =
      (b : Block) × (bs : List Block) × (rest : List Block) × (sent ≡ (b ∷ bs) ++ rest)
      × Range parent r b bs
      × Delivered (hash_of (last_block b bs).header) rs rest

  -- One range, for what its headers and its blocks are.
  sync_ranges-one :
      (parent : String) (r : RangeHeight) (rs : List RangeHeight) (bad : List ℕ) (sent : List Block)
      (asked : List ℕ × Option (List Header)) (fetched : List Header → List ℕ × Option (List Block))
      → sync_quorum_range_block_headers hash_of
          (some parent)
          (λ id. fetch_block_headers send_headers id r.begin r.end)
          quorum
          peer_ids
          bad
        ≡ asked
      → ((hs : List Header)
          → sync_range_blocks hash_of send_blocks peer_ids hs asked.0 ≡ fetched hs)
      → sync_ranges hash_of send_headers send_blocks quorum peer_ids (some parent) (r ∷ rs) bad
        ≡ (sent, done)
      → (hs : List Header) × (b : Block) × (bs : List Block) × (asked.1 ≡ some hs)
        × ((fetched hs).1 ≡ some (b ∷ bs))
        × (rest : List Block) × (sent ≡ (b ∷ bs) ++ rest)
        × (bad1 : List ℕ) × (sync_ranges hash_of send_headers send_blocks quorum peer_ids
              (some (hash_of (last_block b bs).header))
              rs
              bad1
            ≡ (rest, done))
  unfolding sync_ranges
  sync_ranges-one parent r rs bad sent (bad1, none) fetched a f e =
      absurd (failed-done (ap (λ p. p.1) (rw (sync_ranges, a) at e)))
  sync_ranges-one parent r rs bad sent (bad1, some hs) fetched a f e =
      elim (Option-cases (fetched hs).1) [
        | inl g ↦ absurd (crashed-done (ap (λ p. p.1) (rw (sync_ranges, a, a, f hs, g) at e)))
        | inr (blocks, g) ↦ elim (List-cases blocks) [
          | inl l ↦
              let nothing : (fetched hs).1 ≡ some [] = g ∙ ap some l in
              absurd (failed-done (ap (λ p. p.1) (rw (sync_ranges, a, a, f hs, nothing) at e)))
          | inr (b, bs, l) ↦
              let found : (fetched hs).1 ≡ some (b ∷ bs) = g ∙ ap some l in
              let left =
                sync_ranges hash_of send_headers send_blocks quorum peer_ids
                  (some (hash_of (last_block b bs).header)) rs (fetched hs).0 in
              let opened : Path (List Block × Ending) ((b ∷ bs) ++ left.0, left.1) (sent, done) =
                rw (sync_ranges, a, a, f hs, found, a, f hs) at e in
              let at_end : left.1 ≡ done = ap (λ p. p.1) opened in
              (
                hs,
                b,
                bs,
                refl,
                found,
                left.0,
                sym (ap (λ p. p.0) opened),
                (fetched hs).0,
                λ k. (left.0, at_end k),
              )
        ]
      ]

  sync_ranges-Delivered :
      (parent : String) (rs : List RangeHeight) (bad : List ℕ) (sent : List Block)
      → sync_ranges hash_of send_headers send_blocks quorum peer_ids (some parent) rs bad
        ≡ (sent, done)
      → Delivered parent rs sent
  unfolding sync_ranges Delivered
  sync_ranges-Delivered parent [] bad sent e = sym (ap (λ p. p.0) e)
  sync_ranges-Delivered parent (r ∷ rs) bad sent e =
      let (hs, b, bs, headers, blocks, rest, parts, bad1, run) =
        sync_ranges-one parent r rs bad sent _ _ refl (λ hs. refl) e in
      let (x, xs, same, chained, enough) =
        sync_quorum_range_block_headers-supported hash_of parent
          (λ id. fetch_block_headers send_headers id r.begin r.end) quorum peer_ids bad hs
          headers in
      let matching = sync_range_blocks-Match hash_of send_blocks peer_ids _ hs (b ∷ bs) blocks in
      (
        b,
        bs,
        rest,
        parts,
        (
          x,
          xs,
          subst (Chained hash_of parent) same chained,
          enough,
          subst (λ l. Match hash_of l (b ∷ bs)) same matching,
        ),
        sync_ranges-Delivered (hash_of (last_block b bs).header) rs bad1 rest run,
      )

-- Where SyncBFTBlocks ends with no error, the blocks that it sends are those of the ranges of calcRangeHeight, in their
-- order, at least one for each: they come with the hashes of headers, no more of them than headers, which are chained by their
-- hashes, for the first range from the given hash on and for another from the hash of the last block of the range
-- before, and which end with a hash that at least as many of the peers as the quorum answered with, in such a chain.
pub sync_bft_blocks-Delivered :
    (hash_of : Header → String) (send_headers : ℕ → ℕ → ℕ → Option (List Header))
    (send_blocks : ℕ → ℕ → ℕ → Option (List Block)) (quorum : ℕ) (peer_ids : List ℕ)
    (block_fetch begin end : ℕ) (meta_hash : String) (bad : List ℕ) (sent : List Block)
    → sync_bft_blocks hash_of send_headers send_blocks quorum peer_ids block_fetch begin end
        (some meta_hash)
        bad
      ≡ (sent, done)
    → (ranges : List RangeHeight) × (calc_range_height block_fetch begin end ≡ some ranges)
      × Delivered hash_of send_headers send_blocks quorum peer_ids meta_hash ranges sent
unfolding sync_bft_blocks
sync_bft_blocks-Delivered hash_of send_headers send_blocks quorum peer_ids block_fetch begin end
      meta_hash bad sent e =
    elim (Option-cases (calc_range_height block_fetch begin end)) [
      | inl g ↦ absurd (failed-done (ap (λ p. p.1) (rw (sync_bft_blocks, g) at e)))
      | inr (ranges, g) ↦ (
        ranges,
        g,
        sync_ranges-Delivered hash_of send_headers send_blocks quorum peer_ids meta_hash ranges bad
            sent (rw (sync_bft_blocks, g) at e),
      )
    ]
