-- ===== src/Executor/Listing.antt =====
-- setTimeoutList and filterValidTx of internal/executor/handle.go: how the ids of a block's transactions
-- come into the timeout lists and leave them.
use model_lib.Base.{
  ℕ, ◌+◌, ◌-◌, ℤ, pos, negsuc, Bool, false, not, ◌&&◌, ◌||◌, String, List, [], ◌∷◌, Option, none,
  some, leb, ◌==◌, if◌then◌else◌, str_eq, max_uint64,
}
use model_lib.Protocol.{Protocol, get_ibtp_id, Ibtp, request, response, unknown}
use model_lib.Transactions.Status.{TransactionStatus, IbtpType, failure}
use model_lib.Transactions.Fsm.{status_eq}
use model_lib.Transactions.Report.{is_receipt_failure}
use model_lib.Transactions.State.{Store}
use model_lib.Executor.Timeouts.{write_to_str, add_timeout_list, remove_timeout_list, set_timeout}

-- A map from heights to texts that setTimeoutList iterates over.
abbrev pub HeightMap : Type 0
HeightMap = List (ℕ × List String)

-- m[height] = id, or m[height] = writeToStr(m[height], id)
unfoldable pub note_id : ℕ → String → HeightMap → HeightMap
unfolding write_to_str
note_id height id [] = (height, id ∷ []) ∷ []
note_id height id ((h, ids) ∷ m) =
    if h == height then (h, write_to_str ids (id ∷ [])) ∷ m else (h, ids) ∷ note_id height id m

-- pb.Transaction: one of Ethereum's, or one of BitXHub with its hash and the message that it carries
pub data Tx : Type 0 where
  eth : Tx
  bxh : String → Option Ibtp → Tx

-- What setTimeoutList collects before it writes, and the loop's error.
pub record Collected : Type 0 where
  pub adds : HeightMap
  pub removes : HeightMap

pub data Collecting : Type 0 where
  go_on : Collected → Collecting
  stop : Collecting

module _ (p : Protocol) where
  -- isDstChainFromBxh
  unfoldable pub is_dst_chain_from_bxh : String → String → Bool
  is_dst_chain_from_bxh receiver bxh_id = elim (p.parse_full_service_id receiver) [
    | none ↦ false
    | some (_, chain_id, _) ↦ str_eq chain_id bxh_id
  ]

  -- A request: the timeout height is noted, unless none is asked for or the sum does not fit.
  unfoldable pub collect_request : ℕ → String → ℤ → Collected → Collected
  unfolding note_id
  collect_request height tx_id (negsuc _) c = c
  collect_request height tx_id (pos timeout) c =
      if timeout == 0 || leb (max_uint64 - height) timeout
      then c
      else record c { adds = note_id (height + timeout) tx_id c.adds }

  -- A receipt: the id leaves the list of its record's height. One for a child of a global transaction
  -- is left to the contract, and one for an unknown transaction ends the loop.
  unfoldable pub collect_response : String → IbtpType → Store → Collected → Collecting
  unfolding note_id status_eq
  collect_response tx_id kind s c = elim (s.tx_info tx_id) [
    | none ↦ elim (s.global_id tx_id) [ none ↦ stop | some _ ↦ go_on c ]
    | some r ↦
        if is_receipt_failure kind && status_eq r.status failure
        then go_on c
        else go_on (record c { removes = note_id r.height tx_id c.removes })
  ]

  -- The body of setTimeoutList's loop
  unfoldable pub collect_one :
      ℕ → (String → Bool) → (String → Bool) → String → Store → Tx → Collected → Collecting
  unfolding get_ibtp_id is_dst_chain_from_bxh collect_request collect_response
  collect_one height invalid fail bxh_id s eth c = go_on c
  collect_one height invalid fail bxh_id s (bxh hash none) c = go_on c
  collect_one height invalid fail bxh_id s (bxh hash (some ibtp)) c =
      let tx_id = get_ibtp_id ibtp.sender ibtp.receiver ibtp.index in
      if is_dst_chain_from_bxh ibtp.receiver bxh_id then go_on c else elim ibtp.group_keys [
        | some _ ↦ go_on c
        | none ↦
            if invalid hash
            then go_on c
            else if fail hash
            then go_on c
            else elim (p.category ibtp.kind) [
              | request ↦ go_on (collect_request height tx_id ibtp.timeout_height c)
              | response ↦ collect_response tx_id ibtp.kind s c
              | unknown ↦ go_on c
            ]
      ]

  -- The loop of setTimeoutList
  unfoldable pub collect :
      ℕ → (String → Bool) → (String → Bool) → String → Store → List Tx → Collected → Collecting
  unfolding collect_one
  collect height invalid fail bxh_id s [] c = go_on c
  collect height invalid fail bxh_id s (tx ∷ txs) c =
      elim (collect_one height invalid fail bxh_id s tx c) [
        | stop ↦ stop
        | go_on c' ↦ collect height invalid fail bxh_id s txs c'
      ]

unfoldable pub apply_adds : HeightMap → Store → Store
unfolding set_timeout add_timeout_list
apply_adds [] s = s
apply_adds ((h, ids) ∷ m) s = apply_adds m (set_timeout h (add_timeout_list h ids s) s)

-- none for a panic
unfoldable pub apply_removes : HeightMap → Store → Option Store
unfolding set_timeout remove_timeout_list
apply_removes [] s = some s
apply_removes ((h, ids) ∷ m) s = elim (remove_timeout_list h ids s) [
  | none ↦ none
  | some fields ↦ apply_removes m (set_timeout h fields s)
]

-- The outcome of setTimeoutList: the new store, the error that leaves the store, or a panic.
pub data Listed : Type 0 where
  listed : Store → Listed
  unread : Listed
  panicked : Listed

-- setTimeoutList
unfoldable pub set_timeout_list :
    Protocol → ℕ → List Tx → (String → Bool) → (String → Bool) → String → Store → Listed
unfolding collect apply_adds apply_removes
set_timeout_list p height txs invalid fail bxh_id s =
    elim (collect p height invalid fail bxh_id s txs (record { adds = []; removes = [] })) [
      | stop ↦ unread
      | go_on c ↦ elim (apply_removes c.removes (apply_adds c.adds s)) [
        | none ↦ panicked
        | some s' ↦ listed s'
      ]
    ]

-- pb.Receipt, as far as filterValidTx reads it
pub record Receipt : Type 0 where
  pub tx_hash : String
  pub is_success : Bool
  pub tx_status : TransactionStatus
  pub ret : String

-- filterValidTx: the hashes of the invalid transactions and of those that began as a failure
unfoldable pub filter_valid_tx : List Receipt → (String → Bool) × (String → Bool)
unfolding status_eq
filter_valid_tx [] = (λ h. false, λ h. false)
filter_valid_tx (r ∷ rs) =
    let (invalid, fail) = filter_valid_tx rs in
    (
      λ h. (str_eq r.tx_hash h && (not r.is_success || str_eq r.ret "batch_ibtp")) || invalid h,
      λ h. (str_eq r.tx_hash h && status_eq r.tx_status TransactionStatus.begin_failure) || fail h,
    )
