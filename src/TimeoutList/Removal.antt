-- ===== src/TimeoutList/Removal.antt =====
-- What the removal loop of internal/executor/contracts/transaction_manager.go and
-- internal/executor/handle.go leaves of a list of ids.
use mathlib.Core.List.{append-nil}
use text.Mathlib.TextPositions.{eq_refl}
use model_lib.Base.{
  ℕ, zero, suc, ◌+◌, ◌-◌, ◌≡◌, refl, sym, ap, ◌∙◌, true, false, String, List, [], ◌∷◌, ◌++◌, some,
  leb, str_eq, length, length-append, get_elem?, take, drop, All, arith,
}
use model_lib.TimeoutList.{remove_loop, remove_id, shift_left, join_fields}

-- The id is at no place of the list.
abbrev pub NotIn : String → List String → Type 0
NotIn id xs = All (λ x. str_eq x id ≡ false) xs

NotIn-drop : (id : String) (n : ℕ) (xs : List String) → NotIn id xs → NotIn id (drop n xs)
NotIn-drop id zero xs h = h
NotIn-drop id (suc n) [] h = h
NotIn-drop id (suc n) (x ∷ xs) h = NotIn-drop id n xs h.1

NotIn-append : (id : String) (xs ys : List String) → NotIn id xs → NotIn id ys → NotIn id (xs ++ ys)
NotIn-append id [] ys h k = k
NotIn-append id (x ∷ xs) ys h k = (h.0, NotIn-append id xs ys h.1 k)

module _ {ℓ} {A : Type ℓ} where
  get_elem?-drop :
      (i : ℕ) (xs : List A) {y : A} {ys : List A} → drop i xs ≡ y ∷ ys → get_elem? xs i ≡ some y
  get_elem?-drop zero [] h = ground arith
  get_elem?-drop zero (x ∷ xs) h = ground arith
  get_elem?-drop (suc i) [] h = ground arith
  get_elem?-drop (suc i) (x ∷ xs) h = get_elem?-drop i xs h

  drop_next :
      (i : ℕ) (xs : List A) {y : A} {ys : List A} → drop i xs ≡ y ∷ ys → drop (suc i) xs ≡ ys
  drop_next zero [] h = ground arith
  drop_next zero (x ∷ xs) h = ground arith
  drop_next (suc i) [] h = ground arith
  drop_next (suc i) (x ∷ xs) h = drop_next i xs h

  drop_append : (xs ys : List A) (n m : ℕ) → m ≡ length xs + n → drop m (xs ++ ys) ≡ drop n ys
  drop_append [] ys n m e = let e' : m ≡ n = omega arith in rw e'
  drop_append (x ∷ xs) ys n zero e = absurd (omega arith)
  drop_append (x ∷ xs) ys n (suc m) e = drop_append xs ys n m (omega arith)

  take_append : (xs ys : List A) (n m : ℕ) → m ≡ length xs + n → take m (xs ++ ys) ≡ xs ++ take n ys
  take_append [] ys n m e = let e' : m ≡ n = omega arith in rw e'
  take_append (x ∷ xs) ys n zero e = absurd (omega arith)
  take_append (x ∷ xs) ys n (suc m) e = ap (◌∷◌ x) (take_append xs ys n m (omega arith))

  take_all : (n : ℕ) (xs : List A) → n ≡ length xs → take n xs ≡ xs
  take_all zero [] e = refl
  take_all zero (x ∷ xs) e = absurd (omega arith)
  take_all (suc n) [] e = absurd (omega arith)
  take_all (suc n) (x ∷ xs) e = ap (◌∷◌ x) (take_all n xs (omega arith))

-- The loop passes over what is not the id.
skip :
    (id : String) (xs ys : List String) (k rounds i : ℕ) (array : List String) (len : ℕ)
    → rounds ≡ length xs + k
    → drop i array ≡ xs ++ ys
    → NotIn id xs
    → remove_loop id rounds i array len ≡ remove_loop id k (i + length xs) array len
unfolding remove_loop
skip id [] ys k rounds i array len e d h =
    let e' : rounds ≡ k = omega arith in let z : i + 0 ≡ i = omega arith in rw (e', z)
skip id (x ∷ xs) ys k zero i array len e d h = absurd (omega arith)
skip id (x ∷ xs) ys k (suc rounds) i array len e d h =
    let rest = skip id xs ys k rounds (suc i) array len (omega arith) (drop_next i array d) h.1 in
    let z : suc i + length xs ≡ i + length (x ∷ xs) = omega arith in
    rw (get_elem?-drop i array d, remove_loop, h.0) (rw z at rest)

-- The loop ends where no place that is left holds the id.
rest_passed :
    (id : String) (zs : List String) (rounds i : ℕ) (array : List String) (len : ℕ)
    → rounds ≡ length zs
    → drop i array ≡ zs
    → NotIn id zs
    → remove_loop id rounds i array len ≡ some (take len array)
unfolding remove_loop
rest_passed id zs rounds i array len e d h =
    skip id zs [] zero rounds i array len (omega arith) (d ∙ sym (append-nil zs)) h

-- The removal at the place of the id: the elements behind it move up, the last slot keeps its own.
shift_left_at :
    (xs ys : List String) (id : String)
    → shift_left (xs ++ id ∷ ys) (length (xs ++ id ∷ ys)) (length xs)
      ≡ xs ++ (ys ++ drop (length ys) (id ∷ ys))
unfolding shift_left
shift_left_at xs ys id =
    let n : length (xs ++ id ∷ ys) ≡ length xs + suc (length ys) = length-append xs (id ∷ ys) in
    rw (
      take_append xs (id ∷ ys) 0 (length xs) (omega arith),
      append-nil xs,
      take_all (length (xs ++ id ∷ ys)) (xs ++ id ∷ ys) refl,
      drop_append xs (id ∷ ys) 1 (suc (length xs)) (omega arith),
      drop_append xs (id ∷ ys) (length ys) (length (xs ++ id ∷ ys) - 1) (omega arith),
    )

-- What stands behind the place of the id after the move holds the id nowhere, and is as long as
-- what stood there before.
behind :
    (id : String) (ys : List String)
    → NotIn id ys
    → NotIn id (drop 1 (ys ++ drop (length ys) (id ∷ ys)))
      × (length ys ≡ length (drop 1 (ys ++ drop (length ys) (id ∷ ys))))
behind id [] h = (tt, refl)
behind id (y ∷ ys) h = (NotIn-append id ys _ h.1 (NotIn-drop id (length ys) (y ∷ ys) h), last ys y)
  where
    last :
        (ys : List String) (y : String) → suc (length ys) ≡ length (ys ++ drop (length ys) (y ∷ ys))
    last ys y = omega (arith, length-append ys (drop (length ys) (y ∷ ys)), tail_one ys y)
      where
        tail_one : (zs : List String) (z : String) → length (drop (length zs) (z ∷ zs)) ≡ 1
        tail_one [] z = refl
        tail_one (x ∷ zs) z = tail_one zs x

-- The round that meets the id.
hit :
    (id : String) (xs ys : List String)
    → let all = xs ++ id ∷ ys in
      remove_loop id (suc (length ys)) (length xs) all (length all)
      ≡ remove_loop id
          (length ys)
          (suc (length xs))
          (shift_left all (length all) (length xs))
          (length all - 1)
unfolding remove_loop
hit id xs ys =
    let here : drop (length xs) (xs ++ id ∷ ys) ≡ id ∷ ys =
      drop_append xs (id ∷ ys) 0 (length xs) (omega arith) in
    let inside : leb (suc (length xs)) (length (xs ++ id ∷ ys)) ≡ true =
      ground (arith, length-append xs (id ∷ ys)) in
    rw (get_elem?-drop (length xs) (xs ++ id ∷ ys) here, remove_loop, eq_refl id, inside)

-- The removal of an id that the list holds once leaves the other ids in their order; a list that does
-- not hold the id is left as it is.
pub remove_id_lem :
    (id : String) (xs ys : List String)
    → NotIn id xs
    → NotIn id ys
    → (remove_id id (xs ++ id ∷ ys) ≡ some (join_fields (xs ++ ys)))
      × (remove_id id xs ≡ some (join_fields xs))
unfolding remove_id
remove_id_lem id xs ys h k = (
  rw (found, remove_id),
  rw (
    rest_passed id xs (length xs) 0 xs (length xs) refl refl h,
    remove_id,
    take_all (length xs) xs refl,
  ),
)
  where
    all : List String
    all = xs ++ id ∷ ys

    n : length all ≡ length xs + suc (length ys)
    n = length-append xs (id ∷ ys)

    moved : List String
    moved = ys ++ drop (length ys) (id ∷ ys)

    left : take (length all - 1) (xs ++ moved) ≡ xs ++ ys
    left =
        take_append xs moved (length ys) (length all - 1) (omega (arith, n))
        ∙ ap (◌++◌ xs) (
            take_append ys (drop (length ys) (id ∷ ys)) 0 (length ys) (omega arith) ∙ append-nil ys)

    found : remove_loop id (length all) 0 all (length all) ≡ some (xs ++ ys)
    found =
        skip id xs (id ∷ ys) (suc (length ys)) (length all) 0 all (length all) n refl h
        ∙ (let z : 0 + length xs ≡ length xs = omega arith in
            rw z (
              hit id xs ys
              ∙ (rw (shift_left_at xs ys id) (
                  rest_passed id (drop 1 moved) (length ys) (suc (length xs)) (xs ++ moved)
                    (length all - 1) (behind id ys k).1
                    (drop_append xs moved 1 (suc (length xs)) (omega arith)) (behind id ys k).0
                  ∙ ap some left))))
