-- ===== src/Mempool/Skipped.antt =====
-- The inner loop of generateBlock of pkg/order/mempool/mempool_impl.go ends.
use model_lib.Base.{
  ℕ, zero, suc, ◌+◌, ◌≤◌, ◌<◌, ◌≡◌, refl, inl, inr, leb, ◌&&◌, true, Bool-cases, List, [], ◌∷◌,
  if◌then◌else◌, length, All, uint64_mod, str_eq, eq_iff, arith,
}
use model_lib.Mempool.State.{IndexKey, same_key, has}
use model_lib.Mempool.Batches.{Batching, next_key, add_batched, take_skipped}
use model_lib.Mempool.Keys.{next_key-nonce}

-- How many keys of the account stand at the nonce or after it.
unfoldable ahead : IndexKey → List IndexKey → ℕ
ahead k [] = 0
ahead k (j ∷ js) = (if str_eq j.account k.account && leb k.nonce j.nonce then 1 else 0) + ahead k js

ahead-length : (k : IndexKey) (js : List IndexKey) → ahead k js ≤ length js
unfolding ahead
ahead-length k [] = omega arith
ahead-length k (j ∷ js) = ground (arith, ahead-length k js)

ahead-next_key_le :
    (k : IndexKey) (js : List IndexKey)
    → suc k.nonce < uint64_mod
    → ahead (next_key k) js ≤ ahead k js
unfolding ahead
ahead-next_key_le k [] h = omega arith
ahead-next_key_le k (j ∷ js) h =
    ground (arith, ahead-next_key_le k js h, next_key-nonce k h, next_key-account k)
  where
    next_key-account : (k : IndexKey) → (next_key k).account ≡ k.account
    next_key-account k = unfold next_key in refl

-- A key that is there is no longer ahead of the next one.
ahead-next_key :
    (k : IndexKey) (js : List IndexKey)
    → suc k.nonce < uint64_mod
    → has same_key k js ≡ true
    → ahead (next_key k) js < ahead k js
unfolding ahead has
ahead-next_key k [] h there = absurd (ground (arith, there))
ahead-next_key k (j ∷ js) h there =
    let account : (next_key k).account ≡ k.account = unfold next_key in refl in
    elim (Bool-cases (same_key j k)) [
      | inl e ↦ ground (
        arith,
        e,
        account,
        next_key-nonce k h,
        ahead-next_key_le k js h,
        eq_iff j.account k.account,
      )
      | inr e ↦
          let later = ahead-next_key k js h (unfold has in ground (arith, e, there)) in
          ground (arith, later, account, next_key-nonce k h)
    ]

bounded :
    (js : List IndexKey)
    → All (λ j. suc j.nonce < uint64_mod) js
    → (k : IndexKey) → has same_key k js ≡ true
    → suc k.nonce < uint64_mod
unfolding has
bounded [] h k there = absurd (ground (arith, there))
bounded (j ∷ js) h k there = elim (Bool-cases (same_key j k)) [
  | inl e ↦ ground (arith, e, h.0)
  | inr e ↦ bounded js h.1 k (ground (arith, e, there))
]

same_end :
    (f g size : ℕ) (k : IndexKey) (s : Batching)
    → All (λ j. suc j.nonce < uint64_mod) s.skipped
    → ahead k s.skipped < f
    → ahead k s.skipped < g
    → take_skipped f size k s ≡ take_skipped g size k s
unfolding take_skipped add_batched
same_end zero g size k s small p q = absurd (omega (arith, p))
same_end (suc f) zero size k s small p q = absurd (omega (arith, q))
same_end (suc f) (suc g) size k s small p q = elim (Bool-cases (has same_key k s.skipped)) [
  | inr e ↦ rw (take_skipped, e) refl
  | inl e ↦
      let fewer = ahead-next_key k s.skipped (bounded s.skipped small k e) e in
      let rest =
        same_end f g size (next_key k) (add_batched size k s) small (omega (arith, fewer, p))
          (omega (arith, fewer, q)) in
      elim (Bool-cases (add_batched size k s).full) [
        | inl t ↦ rw (take_skipped, e, t) refl
        | inr t ↦ rw (take_skipped, e, t) rest
      ]
]

-- For skipped keys that are not the largest uint64, the loop that takes skipped transactions ends within one
-- more round than there are skipped transactions: more fuel changes nothing of what it returns.
pub take_skipped_enough :
    (fuel size : ℕ) (k : IndexKey) (s : Batching)
    → All (λ j. suc j.nonce < uint64_mod) s.skipped
    → length s.skipped < fuel
    → take_skipped fuel size k s ≡ take_skipped (suc (length s.skipped)) size k s
take_skipped_enough fuel size k s small more =
    let few = ahead-length k s.skipped in
    same_end fuel (suc (length s.skipped)) size k s small (omega (arith, few, more))
      (omega (arith, few))
