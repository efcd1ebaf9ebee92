-- ===== src/Interchain/Order.antt =====
-- The order of messages between two services (checkIBTP of
-- internal/executor/contracts/interchain.go).
use model_lib.Base.{
  ℕ, ◌≡◌, ◌<◌, sym, ap, ◌∙◌, false, none, some, inl, inr, arith, eq_iff, Option-cases,
}
use model_lib.Protocol.{Protocol, Ibtp, request}
use model_lib.Interchain.ServiceId.{
  ChainService, parse_chain_service, get_full_service_id, full_service_id-parse,
}
use model_lib.Interchain.State.{Interchain, World, Peers, ok, get_interchain, ibtp_index_exist}
use model_lib.Interchain.Check.{
  Checked, check_index, check_order, check_ibtp, check_request, next_index,
  check_tx_status_for_source_bxh,
}

-- Both services are of one bitxhub, so that a request is no notification.
abbrev pub IsIntra : Protocol → Ibtp → Type 0
IsIntra p m = p.bitxhub_of m.sender ≡ p.bitxhub_of m.receiver

-- An index is taken exactly when it is the expected one.
pub check_index_lem :
    (exp cur : ℕ)
    → (exp ≡ cur → check_index exp cur ≡ none)
      × (check_index exp cur ≡ none → exp ≡ cur)
      × (cur < exp → check_index exp cur ≡ some ibtp_index_exist)
unfolding check_index
check_index_lem exp cur = ((λ e. ground arith), (λ e. ground arith), (λ e. ground arith))

pub check_request-order :
    (p : Protocol) (e : Peers) (m : Ibtp) (src dst : ChainService) (ic : Interchain) (k : Checked)
    → check_request p e m src dst ic ≡ ok k
    → (k.source ≡ ic)
      × (k.is_batch ≡ false
          → m.index ≡ next_index (ic.interchain_counter (get_full_service_id dst)))
unfolding check_request check_order check_index
check_request-order p e m src dst ic k h = (ground arith, λ b. ground arith)

pub not_notification :
    (p : Protocol) (m : Ibtp) (w : World)
    → IsIntra p m
    → check_tx_status_for_source_bxh p m w ≡ some false
unfolding check_tx_status_for_source_bxh
not_notification p m w i = rw ((eq_iff (p.bitxhub_of m.sender) (p.bitxhub_of m.receiver)).1 i)

-- The check of such a request is that of the counter of its sender.
pub check_ibtp_intra :
    (p : Protocol) (e : Peers) (m : Ibtp) (w : World) (src dst : ChainService)
    → parse_chain_service w.bitxhub_id m.sender ≡ some src
    → parse_chain_service w.bitxhub_id m.receiver ≡ some dst
    → p.category m.kind ≡ request
    → IsIntra p m
    → check_ibtp p e m w ≡ check_request p e m src dst (get_interchain m.sender w).0
unfolding check_ibtp
check_ibtp_intra p e m w src dst x y c i =
    checked
    ∙ ap (λ id. check_request p e m src dst (get_interchain id w).0)
        (full_service_id-parse _ m.sender src x)
  where
    checked :
        check_ibtp p e m w
        ≡ check_request p e m src dst (get_interchain (get_full_service_id src) w).0
    checked = rw (x, check_ibtp, y, not_notification p m w i, c)

-- A request between services of one bitxhub that is accepted, for a destination that takes no
-- batches, carries the index that follows the last one of its sender and its receiver.
pub check_ibtp-next :
    (p : Protocol) (e : Peers) (m : Ibtp) (w : World) (k : Checked)
    → check_ibtp p e m w ≡ ok k
    → p.category m.kind ≡ request
    → IsIntra p m
    → k.is_batch ≡ false
    → m.index ≡ next_index ((get_interchain m.sender w).0.interchain_counter m.receiver)
check_ibtp-next p e m w k h c i b =
    elim (Option-cases (parse_chain_service w.bitxhub_id m.sender)) [
      | inl x ↦ absurd (unfold check_ibtp in ground arith)
      | inr (src, x) ↦ elim (Option-cases (parse_chain_service w.bitxhub_id m.receiver)) [
        | inl y ↦ absurd (unfold check_ibtp in ground arith)
        | inr (dst, y) ↦
            let found : check_request p e m src dst (get_interchain m.sender w).0 ≡ ok k =
              sym (check_ibtp_intra p e m w src dst x y c i) ∙ h in
            let next = (check_request-order p e m src dst _ k found).1 b in
            rw (full_service_id-parse _ m.receiver dst y) at next
      ]
    ]
