-- ===== src/Protocol.antt =====
-- The messages of the interchain protocol, which the model of the contracts and of the executor
-- share, and the operations on them that the code takes from the protocol's own library
-- (github.com/meshplus/bitxhub-model/pb), a parameter here.
use model_lib.Base.{ℕ, ◌≡◌, ℤ, String, Bool, List, Option, text_append, decimal}
use model_lib.Transactions.Status.{
  TransactionStatus, IbtpType, interchain, receipt_success, receipt_failure, receipt_rollback,
}
use model_lib.Transactions.State.{StatusChange}

-- pb.IBTP. `group_keys` are the keys of the group, where there is one, and `proof` is the status that
-- the proof in `Extra` decodes to, none where these bytes are no proof.
pub record Ibtp : Type 0 where
  pub sender : String
  pub receiver : String
  pub index : ℕ
  pub kind : IbtpType
  pub timeout_height : ℤ
  pub group_keys : Option (List String)
  pub proof : Option TransactionStatus

-- fmt.Sprintf("%s-%s-%d", from, to, index), which getIBTPID, beginTransaction, reportTransaction and
-- setTimeoutList write; a uint64 has at most twenty digits.
unfoldable pub get_ibtp_id : String → String → ℕ → String
unfolding text_append decimal
get_ibtp_id sender receiver index =
    text_append sender (text_append "-" (text_append receiver (text_append "-" (decimal 20 index))))

-- pb.IBTP_Category
pub data Category : Type 0 where
  request response unknown : Category

-- What the code calls of the protocol's library, with what it relies on.
pub record Protocol : Type 0 where
  pub category : IbtpType → Category
  pub category_interchain : category interchain ≡ request
  pub category_success : category receipt_success ≡ response
  pub category_failure : category receipt_failure ≡ response
  pub category_rollback : category receipt_rollback ≡ response
  -- the bitxhub, the chain and the service of a full service id
  pub parse_full_service_id : String → Option (String × String × String)
  -- IBTP.ParseFrom and IBTP.ParseTo: the bitxhub of a sender or a receiver
  pub bitxhub_of : String → String
  -- IBTP.ID: the text "from-to-index"
  pub id : Ibtp → String
  pub id_lem : (m : Ibtp) → id m ≡ get_ibtp_id m.sender m.receiver m.index
  -- the source, the destination and the index of an id
  pub parse_ibtp_id : String → Option (String × String × ℕ)
  pub is_final_status : TransactionStatus → Bool
  -- whether the source and whether the destination are to be notified
  pub notify_flags : StatusChange → Bool × Bool
