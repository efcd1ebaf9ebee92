-- ===== src/Scenarios/Trees.antt =====
-- Trees whose keys are lists, in which nonces are kept in their order.
use model_lib.Base.{
  ℕ, ◌<◌, ◌≡◌, refl, inl, inr, ltb, ◌==◌, ◌||◌, ◌&&◌, not, Bool, Bool-cases, List, [], ◌∷◌,
  if◌then◌else◌, eq_iff, All, All-map, arith,
}
use model_lib.Mempool.State.{IndexKey, TimeoutKey, same_key, same_timeout, has, Ascending, Trees}

unfoldable pub without {ℓ} : {K : Type ℓ} → (K → K → Bool) → K → List K → List K
without same k [] = []
without same k (x ∷ xs) = if same x k then without same k xs else x ∷ without same k xs

unfoldable pub insert_nonce : ℕ → List ℕ → List ℕ
insert_nonce n [] = n ∷ []
insert_nonce n (x ∷ xs) =
    let rest = insert_nonce n xs in
    if n == x then x ∷ xs else if ltb n x then n ∷ x ∷ xs else x ∷ rest

pub has-without_key :
    (k j : IndexKey) (t : List IndexKey)
    → has same_key j (without same_key k t) ≡ (not (same_key k j) && has same_key j t)
unfolding has without
has-without_key k j [] = ground arith
has-without_key k j (x ∷ xs) = ground (
  arith,
  has-without_key k j xs,
  eq_iff x.account k.account,
  eq_iff x.account j.account,
  eq_iff k.account j.account,
)

pub has-without_timeout :
    (k j : TimeoutKey) (t : List TimeoutKey)
    → has same_timeout j (without same_timeout k t)
      ≡ (not (same_timeout k j) && has same_timeout j t)
unfolding has without
has-without_timeout k j [] = ground arith
has-without_timeout k j (x ∷ xs) = ground (
  arith,
  has-without_timeout k j xs,
  eq_iff x.account k.account,
  eq_iff x.account j.account,
  eq_iff k.account j.account,
)

pub has-without_nonce :
    (k j : ℕ) (t : List ℕ) → has ◌==◌ j (without ◌==◌ k t) ≡ (not (k == j) && has ◌==◌ j t)
unfolding has without
has-without_nonce k j [] = ground arith
has-without_nonce k j (x ∷ xs) = ground (arith, has-without_nonce k j xs)

pub has-insert_nonce :
    (k j : ℕ) (t : List ℕ) → has ◌==◌ j (insert_nonce k t) ≡ (k == j || has ◌==◌ j t)
unfolding has insert_nonce
has-insert_nonce k j [] = ground arith
has-insert_nonce k j (x ∷ xs) = ground (arith, has-insert_nonce k j xs)

All-without : (P : ℕ → Type 0) (n : ℕ) (t : List ℕ) → All P t → All P (without ◌==◌ n t)
unfolding without
All-without P n [] h = tt
All-without P n (x ∷ xs) h = elim (Bool-cases (x == n)) [
  | inl e ↦ rw (without, e) (All-without P n xs h.1)
  | inr e ↦ rw (without, e) (h.0, All-without P n xs h.1)
]

pub without-Ascending : (n : ℕ) (t : List ℕ) → Ascending t → Ascending (without ◌==◌ n t)
unfolding without Ascending
without-Ascending n [] h = tt
without-Ascending n (x ∷ xs) h = elim (Bool-cases (x == n)) [
  | inl e ↦ rw (without, e) (without-Ascending n xs h.1)
  | inr e ↦ rw (without, e) (All-without (λ y. x < y) n xs h.0, without-Ascending n xs h.1)
]

All-insert_nonce : (P : ℕ → Type 0) (n : ℕ) (t : List ℕ) → P n → All P t → All P (insert_nonce n t)
unfolding insert_nonce
All-insert_nonce P n [] p h = (p, tt)
All-insert_nonce P n (x ∷ xs) p h = elim (Bool-cases (n == x)) [
  | inl e ↦ rw (insert_nonce, e) h
  | inr e ↦ elim (Bool-cases (ltb n x)) [
    | inl f ↦ rw (insert_nonce, e, f) (p, h)
    | inr f ↦ rw (insert_nonce, e, f) (h.0, All-insert_nonce P n xs p h.1)
  ]
]

pub insert_nonce-Ascending : (n : ℕ) (t : List ℕ) → Ascending t → Ascending (insert_nonce n t)
unfolding insert_nonce Ascending
insert_nonce-Ascending n [] h = (tt, tt)
insert_nonce-Ascending n (x ∷ xs) h = elim (Bool-cases (n == x)) [
  | inl e ↦ rw (insert_nonce, e) h
  | inr e ↦ elim (Bool-cases (ltb n x)) [
    | inl f ↦
        let less : n < x = ground (arith, f) in
        let later : All (λ y. n < y) xs = All-map (λ y lt. omega (arith, lt, less)) xs h.0 in
        rw (insert_nonce, e, f) ((less, later), h)
    | inr f ↦
        let less : x < n = ground (arith, e, f) in
        rw (insert_nonce, e, f)
          (All-insert_nonce (λ y. x < y) n xs less h.0, insert_nonce-Ascending n xs h.1)
  ]
]

-- The trees
abbrev pub list_trees : Trees
unfolding has
list_trees = record {
  nonces = record {
    insert = insert_nonce;
    delete = without ◌==◌;
    has-insert = has-insert_nonce;
    has-delete = has-without_nonce;
  };
  keys = record {
    insert = ◌∷◌;
    delete = without same_key;
    has-insert = λ k j t. refl;
    has-delete = has-without_key;
  };
  timeouts = record {
    insert = ◌∷◌;
    delete = without same_timeout;
    has-insert = λ k j t. refl;
    has-delete = has-without_timeout;
  };
  insert-Ascending = insert_nonce-Ascending;
  delete-Ascending = without-Ascending;
}
