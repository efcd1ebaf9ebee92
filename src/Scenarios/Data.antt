-- ===== src/Scenarios/Data.antt =====
-- The instances and the data that the runs share.
use Prim.Native.Char.{Char}
use model_lib.Base.{
  ℕ, pos, refl, String, Bool, true, false, List, [], ◌∷◌, Option, none, some, str_eq, if◌then◌else◌,
  split_text,
}
use model_lib.Protocol.{Protocol, Ibtp, Category, request, response, unknown, get_ibtp_id}
use model_lib.Transactions.Status.{
  TransactionStatus, IbtpType, interchain, receipt_success, receipt_failure, receipt_rollback,
  success, failure, rollback,
}
use model_lib.Transactions.Fsm.{FsmPackage, find_transition}
use model_lib.Transactions.State.{Store, Context}
use model_lib.Interchain.State.{World, Call, Service, Peers}

abbrev pub machine : FsmPackage
machine = record { fire = find_transition; fire_lem = λ ds s e. refl }

abbrev separator : Char
separator = ":"

abbrev three_parts : List String → Option (String × String × String)
three_parts (a ∷ b ∷ c ∷ []) = some (a, b, c)
three_parts _ = none

abbrev first_part : List String → String
first_part [] = ""
first_part (a ∷ _) = a

abbrev category_of : IbtpType → Category
category_of interchain = request
category_of receipt_success = response
category_of receipt_failure = response
category_of receipt_rollback = response
category_of _ = unknown

abbrev is_final : TransactionStatus → Bool
is_final success = true
is_final failure = true
is_final rollback = true
is_final _ = false

abbrev pub service_a : String
service_a = "1356:chain_a:svc"

abbrev pub service_b : String
service_b = "1356:chain_b:svc"

abbrev pub first_id : String
first_id = "1356:chain_a:svc-1356:chain_b:svc-1"

abbrev pub second_id : String
second_id = "1356:chain_a:svc-1356:chain_c:svc-1"

abbrev known_id : String → Option (String × String × ℕ)
known_id id =
    if str_eq id first_id
    then some (service_a, service_b, 1)
    else if str_eq id second_id
    then some (service_a, "1356:chain_c:svc", 1)
    else none

unfoldable pub split_colon : String → List String
unfolding split_text
split_colon = split_text separator

abbrev pub library : Protocol
library = record {
  category = category_of;
  category_interchain = refl;
  category_success = refl;
  category_failure = refl;
  category_rollback = refl;
  parse_full_service_id = λ id. three_parts (split_colon id);
  bitxhub_of = λ id. first_part (split_colon id);
  id = λ m. get_ibtp_id m.sender m.receiver m.index;
  id_lem = λ m. refl;
  parse_ibtp_id = known_id;
  is_final_status = is_final;
  notify_flags = λ ch. (false, true);
}

abbrev open_service : Service
open_service = record { is_available = true; ordered = true; check_permission = λ id. true }

abbrev pub peers : Peers
peers = record {
  service_cache = λ id. some open_service;
  get_service_info = λ id. none;
  is_available_bitxhub = λ id. true;
  invoke_interchain = λ m. "invoked";
  interchain_contract_addr = "0xf";
}

abbrev pub deaf_peers : Peers
deaf_peers = record peers { service_cache = λ id. none }

abbrev pub global_of : Ibtp → String
global_of m = "group"

abbrev pub empty_store : Store
empty_store = record {
  tx_info = λ id. none;
  global_tx_info = λ id. none;
  timeout = λ h. none;
  global_id = λ id. none;
}

abbrev pub fresh : World
fresh = record {
  bitxhub_id = some "1356";
  interchains = λ id. none;
  index_map = λ id. none;
  index_receipt_map = λ id. none;
  multi_tx_notify = λ h. [];
  txs = empty_store;
  recorded = [];
  receipts_invoked = [];
  posted = [];
  audited = [];
}

abbrev pub call : Call
call = record { current_height = 100; tx_hash = "0x1"; tx_index = 0; enable_audit = false }

abbrev pub context : Context
context = record { current_caller = "0xf"; current_height = 100; interchain_contract_addr = "0xf" }

abbrev pub message : Ibtp
message = record {
  sender = service_a;
  receiver = service_b;
  index = 1;
  kind = interchain;
  timeout_height = pos 10;
  group_keys = none;
  proof = none;
}
