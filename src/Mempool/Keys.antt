-- ===== src/Mempool/Keys.antt =====
-- Keys of an account and a nonce, and the ones that come next, in generateBlock of
-- pkg/order/mempool/mempool_impl.go.
use model_lib.Base.{
  suc, ◌-◌, ◌<◌, ◌≡◌, subst, leb, ==_iff, ◌||◌, true, false, List, ◌∷◌, uint64_mod, eq_iff, arith,
}
use model_lib.Mempool.State.{IndexKey, same_key, has}
use model_lib.Mempool.Batches.{next_key, seen_previous}

pub same_key-≡ : (a b : IndexKey) → same_key a b ≡ true → a ≡ b
same_key-≡ a b h =
    let account : a.account ≡ b.account = ground (arith, eq_iff a.account b.account) in
    let nonce : a.nonce ≡ b.nonce = ground (arith, ==_iff a.nonce b.nonce) in
    λ k. record { account = account k; nonce = nonce k }

-- A key among keys that is not the first.
pub has_rest :
    (k j : IndexKey) (ks : List IndexKey)
    → same_key k j ≡ false
    → has same_key j (k ∷ ks) ≡ true
    → has same_key j ks ≡ true
unfolding has
has_rest k j ks e there = subst (λ b. (b || has same_key j ks) ≡ true) e there

-- A key that is batched later hides no earlier one.
pub seen_previous-cons :
    (j k : IndexKey) (batched : List IndexKey)
    → seen_previous j batched ≡ true
    → seen_previous j (k ∷ batched) ≡ true
unfolding seen_previous has
seen_previous-cons j k batched h = ground arith

pub next_key-nonce : (k : IndexKey) → suc k.nonce < uint64_mod → (next_key k).nonce ≡ suc k.nonce
unfolding next_key
next_key-nonce k h = omega (arith, h)

-- The key before the next one.
pub next_key-previous :
    (k : IndexKey)
    → suc k.nonce < uint64_mod
    → Path IndexKey (record (next_key k) { nonce = (next_key k).nonce - 1 }) k
unfolding next_key
next_key-previous k h =
    let nonce : (next_key k).nonce - 1 ≡ k.nonce = omega (arith, next_key-nonce k h) in
    λ i. record { account = k.account; nonce = nonce i }

pub same_key_refl : (k : IndexKey) → same_key k k ≡ true
same_key_refl k = ground (arith, eq_iff k.account k.account)

pub seen_previous-next_key :
    (k : IndexKey) (batched : List IndexKey)
    → suc k.nonce < uint64_mod
    → seen_previous (next_key k) batched ≡ has same_key k batched
seen_previous-next_key k batched h =
    let some_nonce : leb 1 (next_key k).nonce ≡ true = ground (arith, next_key-nonce k h) in
    unfold seen_previous in rw (some_nonce, next_key-previous k h)
