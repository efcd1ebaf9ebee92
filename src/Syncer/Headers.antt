-- ===== src/Syncer/Headers.antt =====
-- The headers that a quorum of peers agrees on: verifyBlockHeaders and syncQuorumRangeBlockHeaders of
-- pkg/order/syncer/state_syncer.go.
use model_lib.Base.{
  ℕ, ◌+◌, leb, String, Bool, true, false, List, [], ◌∷◌, Option, none, some, if◌then◌else◌, str_eq,
  lookup, insert, put,
}

-- pb.BlockHeader, as far as the syncer reads it
pub record Header : Type 0 where
  pub number : ℕ
  pub parent_hash : String

-- The loop of verifyBlockHeaders, by the hash of a block
unfoldable pub check_headers : (Header → String) → String → List Header → Bool
check_headers hash_of parent [] = true
check_headers hash_of parent (h ∷ hs) =
    let rest = check_headers hash_of (hash_of h) hs in
    if str_eq parent h.parent_hash then rest else false

-- verifyBlockHeaders: whether there is no error
unfoldable pub verify_block_headers : (Header → String) → Option String → List Header → Bool
unfolding check_headers
verify_block_headers hash_of none headers = false
verify_block_headers hash_of (some parent) [] = false
verify_block_headers hash_of (some parent) (h ∷ hs) = check_headers hash_of parent (h ∷ hs)

-- headers[len(headers)-1], of headers that start with the first one
unfoldable pub last_header : Header → List Header → Header
last_header h [] = h
last_header h (x ∷ xs) = last_header x xs

-- The variables of syncQuorumRangeBlockHeaders
pub record Answers : Type 0 where
  pub counter : List (String × ℕ)
  pub headers_of : String → Option (List Header)
  pub bad_peers : List ℕ

unfoldable pub count_of : Option ℕ → ℕ
count_of none = 0
count_of (some n) = n

unfoldable pub count_answer : String → List Header → Answers → Answers
unfolding count_of lookup insert
count_answer hash headers s = record s {
  counter = insert hash (count_of (lookup hash s.counter) + 1) s.counter;
  headers_of = put s.headers_of hash headers;
}

-- fetchAndVerifyBlockHeaders, for what the peer answers
unfoldable pub take_answer :
    (Header → String) → Option String → ℕ → Option (List Header) → Answers → Answers
unfolding verify_block_headers count_answer last_header
take_answer hash_of parent id none s = s
take_answer hash_of parent id (some []) s = record s { bad_peers = id ∷ s.bad_peers }
take_answer hash_of parent id (some (h ∷ hs)) s =
    elim (verify_block_headers hash_of parent (h ∷ hs)) [
      | false ↦ record s { bad_peers = id ∷ s.bad_peers }
      | true ↦ count_answer (hash_of (last_header h hs)) (h ∷ hs) s
    ]

-- A hash with as many answers as the quorum
unfoldable pub agreed : ℕ → List (String × ℕ) → Option String
agreed quorum [] = none
agreed quorum (e ∷ es) = if leb quorum e.1 then some e.0 else agreed quorum es

-- The loop over the peers
unfoldable pub ask_peers :
    (Header → String)
    → Option String
    → (ℕ → Option (List Header))
    → ℕ
    → List ℕ
    → Answers
    → Answers × Option (List Header)
unfolding take_answer agreed
ask_peers hash_of parent answer quorum [] s = (s, none)
ask_peers hash_of parent answer quorum (id ∷ ids) s =
    let s1 = take_answer hash_of parent id (answer id) s in
    elim (agreed quorum s1.counter) [
      | none ↦ ask_peers hash_of parent answer quorum ids s1
      | some hash ↦ (s1, s1.headers_of hash)
    ]

-- syncQuorumRangeBlockHeaders: the bad peers and the headers, or nil
unfoldable pub sync_quorum_range_block_headers :
    (Header → String)
    → Option String
    → (ℕ → Option (List Header))
    → ℕ
    → List ℕ
    → List ℕ
    → List ℕ × Option (List Header)
unfolding ask_peers
sync_quorum_range_block_headers hash_of parent answer quorum peer_ids bad_peers =
    let (s, headers) =
      ask_peers hash_of parent answer quorum peer_ids
        (record { counter = []; headers_of = λ h. none; bad_peers = bad_peers }) in
    (s.bad_peers, headers)
