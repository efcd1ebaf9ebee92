-- ===== src/Interchain/ServiceId.antt =====
-- The ids of services, "bitxhub:chain:service" (ChainService and parseChainService of
-- internal/executor/contracts/interchain.go).
use Prim.Native.Char.{Char}
use model_lib.Base.{
  ◌≡◌, ◌∙◌, Bool, String, List, [], ◌∷◌, Option, none, some, arith, str_eq, text_append, split_text,
  join_text, join-split_text,
}

pub record ChainService : Type 0 where
  pub bxh_id : String
  pub chain_id : String
  pub service_id : String
  pub is_local : Bool

abbrev colon : Char
colon = ":"

-- getFullServiceId
unfoldable pub get_full_service_id : ChainService → String
unfolding text_append
get_full_service_id cs =
    text_append cs.bxh_id
      (text_append ":" (text_append cs.chain_id (text_append ":" cs.service_id)))

-- getChainServiceId
unfoldable pub get_chain_service_id : ChainService → String
unfolding text_append
get_chain_service_id cs = text_append cs.chain_id (text_append ":" cs.service_id)

-- The three parts of an id, with the id of this bitxhub.
unfoldable pub from_splits : Option String → List String → Option ChainService
from_splits own (a ∷ b ∷ c ∷ []) = elim own [
  | none ↦ none
  | some bxh_id ↦
      some (record { bxh_id = a; chain_id = b; service_id = c; is_local = str_eq a bxh_id })
]
from_splits own _ = none

-- parseChainService; `own` is the id of this bitxhub that the contract has stored
unfoldable pub parse_chain_service : Option String → String → Option ChainService
unfolding split_text from_splits
parse_chain_service own id = from_splits own (split_text colon id)

from_splits_join :
    (own : Option String) (xs : List String) (cs : ChainService)
    → from_splits own xs ≡ some cs
    → get_full_service_id cs ≡ join_text colon xs
unfolding from_splits get_full_service_id join_text text_append
from_splits_join own [] cs e = ground arith
from_splits_join own (a ∷ []) cs e = ground arith
from_splits_join own (a ∷ b ∷ []) cs e = ground arith
from_splits_join none (a ∷ b ∷ c ∷ []) cs e = ground arith
from_splits_join (some w) (a ∷ b ∷ c ∷ []) cs e = ground arith
from_splits_join own (a ∷ b ∷ c ∷ d ∷ xs) cs e = ground arith

-- An id that is parsed is the full id of the service that it is parsed to.
pub full_service_id-parse :
    (own : Option String) (id : String) (cs : ChainService)
    → parse_chain_service own id ≡ some cs
    → get_full_service_id cs ≡ id
unfolding parse_chain_service
full_service_id-parse own id cs e =
    from_splits_join own (split_text colon id) cs e ∙ join-split_text colon id
