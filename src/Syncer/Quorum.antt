-- ===== src/Syncer/Quorum.antt =====
-- What the headers of syncQuorumRangeBlockHeaders of pkg/order/syncer/state_syncer.go rest on.
use model_lib.Base.{
  ℕ, ◌+◌, ◌≤◌, ◌≡◌, refl, sym, subst, ◌∙◌, inl, inr, leb, ◌&&◌, String, Bool, true, false,
  Bool-cases, Option-cases, List, [], ◌∷◌, Option, none, some, some-injective, if◌then◌else◌,
  str_eq, eq_iff, lookup, insert, All, All-map, arith,
}
use model_lib.Syncer.Headers.{
  Header, check_headers, verify_block_headers, last_header, Answers, count_of, count_answer,
  take_answer, agreed, ask_peers, sync_quorum_range_block_headers,
}

-- Each header has the hash of the one before it, the first one that of the parent.
unfoldable pub Chained : (Header → String) → String → List Header → Type 0
Chained hash_of parent [] = Unit
Chained hash_of parent (h ∷ hs) = (parent ≡ h.parent_hash) × Chained hash_of (hash_of h) hs

check_headers-Chained :
    (hash_of : Header → String) (parent : String) (hs : List Header)
    → check_headers hash_of parent hs ≡ true
    → Chained hash_of parent hs
unfolding check_headers Chained
check_headers-Chained hash_of parent [] h = tt
check_headers-Chained hash_of parent (x ∷ xs) h =
    let same : parent ≡ x.parent_hash = ground (arith, h, eq_iff parent x.parent_hash) in
    (same, check_headers-Chained hash_of (hash_of x) xs (ground (arith, h)))

module _ (hash_of : Header → String) (parent : String) (answer : ℕ → Option (List Header)) where
  -- Whether an answer is a chain from the parent to a block of the hash.
  unfoldable pub supports : Option (List Header) → String → Bool
  unfolding check_headers last_header
  supports none hash = false
  supports (some []) hash = false
  supports (some (h ∷ hs)) hash =
      check_headers hash_of parent (h ∷ hs) && str_eq (hash_of (last_header h hs)) hash

  -- How many peers support a hash.
  unfoldable pub supporters : List ℕ → String → ℕ
  unfolding supports
  supporters [] hash = 0
  supporters (id ∷ ids) hash = (if supports (answer id) hash then 1 else 0) + supporters ids hash

  -- The counts are those of supporters, and the headers of a hash are a chain that ends with it.
  record Counted (d : String → ℕ) (s : Answers) : Type 0 where
    counts : All (λ e. e.1 ≤ d e.0) s.counter
    good :
        (hash : String) (hs : List Header)
        → s.headers_of hash ≡ some hs
        → supports (some hs) hash ≡ true

  abbrev more : (String → ℕ) → Option (List Header) → String → ℕ
  more d a hash = d hash + (if supports a hash then 1 else 0)

  insert-counts :
      (d : String → ℕ) (k : String) (v : ℕ) (m : List (String × ℕ))
      → All (λ e. e.1 ≤ d e.0) m
      → v ≤ d k
      → All (λ e. e.1 ≤ d e.0) (insert k v m)
  unfolding insert
  insert-counts d k v [] h less = (less, tt)
  insert-counts d k v (e ∷ es) h less = elim (Bool-cases (str_eq e.0 k)) [
    | inl t ↦
        let same : k ≡ e.0 = sym ((eq_iff e.0 k).0 t) in
        rw (insert, t) (subst (λ j. v ≤ d j) same less, h.1)
    | inr t ↦ rw (insert, t) (h.0, insert-counts d k v es h.1 less)
  ]

  lookup-counts :
      (d : String → ℕ) (k : String) (m : List (String × ℕ))
      → All (λ e. e.1 ≤ d e.0) m
      → count_of (lookup k m) ≤ d k
  unfolding count_of lookup
  lookup-counts d k [] h = omega arith
  lookup-counts d k (e ∷ es) h = elim (Bool-cases (str_eq e.0 k)) [
    | inl t ↦
        let same : e.0 ≡ k = (eq_iff e.0 k).0 t in
        rw (count_of, lookup, t) (subst (λ j. e.1 ≤ d j) same h.0)
    | inr t ↦ rw (lookup, t) (lookup-counts d k es h.1)
  ]

  Counted-refused :
      (d : String → ℕ) (a : Option (List Header)) (s : Answers) (bad : List ℕ)
      → Counted d s
      → Counted (more d a) (record s { bad_peers = bad })
  Counted-refused d a s bad h = record { counts = All-map less s.counter h.counts; good = h.good }
    where
      less : (e : String × ℕ) → e.1 ≤ d e.0 → e.1 ≤ more d a e.0
      less e p = omega (arith, p)

  Counted-count_answer :
      (d : String → ℕ) (x : Header) (xs : List Header) (s : Answers)
      → Counted d s
      → check_headers hash_of parent (x ∷ xs) ≡ true
      → Counted (more d (some (x ∷ xs))) (count_answer (hash_of (last_header x xs)) (x ∷ xs) s)
  unfolding count_answer
  Counted-count_answer d x xs s h chained = record {
    counts =
        insert-counts (more d (some (x ∷ xs))) hash (count_of (lookup hash s.counter) + 1) s.counter
          (All-map less s.counter h.counts)
          (ground (arith, own, lookup-counts d hash s.counter h.counts));
    good = λ g hs there. elim (Bool-cases (str_eq hash g)) [
      | inl t ↦
          let same : hash ≡ g = (eq_iff hash g).0 t in
          let taken : (x ∷ xs) ≡ hs = some-injective (sym (rw t refl) ∙ there) in
          subst (λ l. supports (some l) g ≡ true) taken
            (subst (λ j. supports (some (x ∷ xs)) j ≡ true) same own)
      | inr t ↦ h.good g hs (sym (rw t refl) ∙ there)
    ];
  }
    where
      hash : String
      hash = hash_of (last_header x xs)

      own : supports (some (x ∷ xs)) hash ≡ true
      own = unfold supports in ground (arith, chained, eq_iff hash hash)

      less : (e : String × ℕ) → e.1 ≤ d e.0 → e.1 ≤ more d (some (x ∷ xs)) e.0
      less e p = omega (arith, p)

  Counted-take_answer :
      (d : String → ℕ) (id : ℕ) (a : Option (List Header)) (s : Answers)
      → Counted d s
      → Counted (more d a) (take_answer hash_of (some parent) id a s)
  unfolding take_answer verify_block_headers
  Counted-take_answer d id none s h = Counted-refused d none s s.bad_peers h
  Counted-take_answer d id (some []) s h = Counted-refused d (some []) s (id ∷ s.bad_peers) h
  Counted-take_answer d id (some (x ∷ xs)) s h =
      elim (Bool-cases (check_headers hash_of parent (x ∷ xs))) [
        | inl e ↦ rw (take_answer, verify_block_headers, e) (Counted-count_answer d x xs s h e)
        | inr e ↦
            rw (take_answer, verify_block_headers, e)
              (Counted-refused d (some (x ∷ xs)) s (id ∷ s.bad_peers) h)
      ]

  agreed-counts :
      (d : String → ℕ) (quorum : ℕ) (m : List (String × ℕ)) (hash : String)
      → All (λ e. e.1 ≤ d e.0) m
      → agreed quorum m ≡ some hash
      → quorum ≤ d hash
  unfolding agreed
  agreed-counts d quorum [] hash h e = absurd (ground (arith, e))
  agreed-counts d quorum (x ∷ xs) hash h e = elim (Bool-cases (leb quorum x.1)) [
    | inl t ↦
        let same : x.0 ≡ hash = some-injective (sym (rw (agreed, t) refl) ∙ e) in
        let least : quorum ≤ d x.0 = ground (arith, t, h.0) in subst (λ j. quorum ≤ d j) same least
    | inr t ↦ agreed-counts d quorum xs hash h.1 (sym (rw (agreed, t) refl) ∙ e)
  ]

  ask_peers-supports :
      (quorum : ℕ) (ids : List ℕ) (d : String → ℕ) (s : Answers) (hs : List Header)
      → Counted d s
      → (ask_peers hash_of (some parent) answer quorum ids s).1 ≡ some hs
      → (hash : String) × (quorum ≤ d hash + supporters ids hash) × (supports (some hs) hash ≡ true)
  unfolding ask_peers supporters
  ask_peers-supports quorum [] d s hs h e = absurd (ground (arith, e))
  ask_peers-supports quorum (id ∷ ids) d s hs h e =
      let s1 = take_answer hash_of (some parent) id (answer id) s in
      let h1 = Counted-take_answer d id (answer id) s h in
      elim (Option-cases (agreed quorum s1.counter)) [
        | inl f ↦
            let (hash, enough, good) =
              ask_peers-supports quorum ids (more d (answer id)) s1 hs h1
                (sym (rw (ask_peers, f) refl) ∙ e) in
            (hash, omega (arith, enough), good)
        | inr (hash, f) ↦
            let enough = agreed-counts (more d (answer id)) quorum s1.counter hash h1.counts f in
            (hash, omega (arith, enough), h1.good hash hs (sym (rw (ask_peers, f) refl) ∙ e))
      ]

-- The headers that syncQuorumRangeBlockHeaders returns for a parent are not empty, are chained by their hashes from this parent on, and at
-- least as many of the peers as the quorum answered with such a chain that ends with the same hash as theirs.
pub sync_quorum_range_block_headers-supported :
    (hash_of : Header → String) (parent : String) (answer : ℕ → Option (List Header)) (quorum : ℕ)
    (peer_ids bad_peers : List ℕ) (hs : List Header)
    → (sync_quorum_range_block_headers hash_of (some parent) answer quorum peer_ids bad_peers).1
      ≡ some hs
    → (x : Header) × (xs : List Header) × (hs ≡ x ∷ xs)
      × Chained hash_of parent hs
      × (quorum ≤ supporters hash_of parent answer peer_ids (hash_of (last_header x xs)))
unfolding sync_quorum_range_block_headers
sync_quorum_range_block_headers-supported hash_of parent answer quorum peer_ids bad_peers hs e =
    let s0 : Answers = record { counter = []; headers_of = λ h. none; bad_peers = bad_peers } in
    let start : Counted hash_of parent answer (λ h. 0) s0 = record {
      counts = tt;
      good = λ g l there. absurd (ground (arith, there));
    } in
    let (hash, enough, good) =
      ask_peers-supports hash_of parent answer quorum peer_ids (λ h. 0) s0 hs start e in
    ended hs hash good enough
  where
    ended :
        (l : List Header) (hash : String)
        → supports hash_of parent answer (some l) hash ≡ true
        → quorum ≤ 0 + supporters hash_of parent answer peer_ids hash
        → (x : Header) × (xs : List Header) × (l ≡ x ∷ xs)
          × Chained hash_of parent l
          × (quorum ≤ supporters hash_of parent answer peer_ids (hash_of (last_header x xs)))
    ended [] hash good enough = absurd (unfold supports in ground (arith, good))
    ended (x ∷ xs) hash good enough =
        let chained : check_headers hash_of parent (x ∷ xs) ≡ true =
          unfold supports in ground (arith, good) in
        let same : hash ≡ hash_of (last_header x xs) =
          unfold supports in ground (arith, good, eq_iff (hash_of (last_header x xs)) hash) in
        (
          x,
          xs,
          refl,
          check_headers-Chained hash_of parent (x ∷ xs) chained,
          subst (λ j. quorum ≤ supporters hash_of parent answer peer_ids j) same
              (omega (arith, enough)),
        )
