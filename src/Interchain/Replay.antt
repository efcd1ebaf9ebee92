-- ===== src/Interchain/Replay.antt =====
-- One request, once: what HandleIBTP of internal/executor/contracts/interchain.go does to the counter
-- of a sender and a receiver, and to a request that comes again.
use model_lib.Base.{
  ◌≡◌, ◌<◌, refl, sym, ap, ◌∙◌, false, ◌⊎◌, String, some, inl, inr, arith, Option-cases, max_uint64,
}
use model_lib.Protocol.{Protocol, Ibtp, request}
use model_lib.Transactions.Fsm.{FsmPackage}
use model_lib.Interchain.ServiceId.{
  ChainService, parse_chain_service, get_full_service_id, full_service_id-parse,
}
use model_lib.Interchain.State.{
  Interchain, World, Call, Peers, InterchainError, Answer, ok, err, panicked, get_interchain,
  ibtp_index_exist,
}
use model_lib.Interchain.Check.{
  Checked, check_ibtp, check_request, check_order, check_index, next_index,
}
use model_lib.Interchain.Handle.{transact, is_failed, handle_checked, handle_ibtp}
use model_lib.Interchain.Order.{IsIntra, check_ibtp_intra, check_request-order, check_ibtp-next}
use model_lib.Interchain.Counters.{transact-Keeps, handle_answered-counter}

pub Answer-cases {ℓ} :
    {A : Type ℓ} (r : Answer A)
    → ((a : A) × (r ≡ ok a)) ⊎ (((x : InterchainError) × (r ≡ err x)) ⊎ (r ≡ panicked))
Answer-cases (ok a) = inl (a, refl)
Answer-cases (err x) = inr (inl (x, refl))
Answer-cases panicked = inr (inr refl)

module _ (f : FsmPackage) (p : Protocol) (e : Peers) (g : Ibtp → String) where
  -- A message that goes through has passed the check.
  record Passed (c : Call) (m : Ibtp) (w w' : World) (ret : String) : Type 0 where
    src : ChainService
    dst : ChainService
    checked : Checked
    src_parsed : parse_chain_service w.bitxhub_id m.sender ≡ some src
    dst_parsed : parse_chain_service w.bitxhub_id m.receiver ≡ some dst
    accepted : check_ibtp p e m w ≡ ok checked
    handled : handle_checked f p e g c m src dst checked w ≡ (w', ok ret)

  handle_ibtp-Passed :
      (c : Call) (m : Ibtp) (w w' : World) (ret : String)
      → handle_ibtp f p e g c m w ≡ (w', ok ret)
      → Passed c m w w' ret
  unfolding handle_ibtp
  handle_ibtp-Passed c m w w' ret h = elim (Answer-cases (check_ibtp p e m w)) [
    | inr (inl (x, k)) ↦ absurd (ground arith)
    | inr (inr k) ↦ absurd (ground arith)
    | inl (k, a) ↦ elim (Option-cases (parse_chain_service w.bitxhub_id m.sender)) [
      | inl x ↦ absurd (ground arith)
      | inr (src, x) ↦ elim (Option-cases (parse_chain_service w.bitxhub_id m.receiver)) [
        | inl y ↦ absurd (ground arith)
        | inr (dst, y) ↦ record {
          src = src;
          dst = dst;
          checked = k;
          src_parsed = x;
          dst_parsed = y;
          accepted = a;
          handled = ground arith;
        }
      ]
    ]
  ]

  -- A request between services of one bitxhub that goes through raises the counter of its sender and
  -- its receiver by one, as a uint64, and keeps the id of the bitxhub.
  pub handle_ibtp-counter :
      (c : Call) (m : Ibtp) (w w' : World) (ret : String)
      → p.category m.kind ≡ request
      → IsIntra p m
      → handle_ibtp f p e g c m w ≡ (w', ok ret)
      → (w'.bitxhub_id ≡ w.bitxhub_id)
        × ((get_interchain m.sender w').0.interchain_counter m.receiver
            ≡ next_index ((get_interchain m.sender w).0.interchain_counter m.receiver))
  unfolding handle_checked
  handle_ibtp-counter c m w w' ret r i h =
      let q = handle_ibtp-Passed c m w w' ret h in
      let (same, up) =
        handle_answered-counter f p e g c m q.src q.dst q.checked w
          (transact f p e g (p.category m.kind) c m (is_failed q.checked.target_error) w) w' ret r i
          (transact-Keeps f p e g (p.category m.kind) c m (is_failed q.checked.target_error) w)
          q.handled in
      let source =
        (check_request-order p e m q.src q.dst _ q.checked (
          sym (check_ibtp_intra p e m w q.src q.dst q.src_parsed q.dst_parsed r i)
          ∙ q.accepted)).0 in
      (same, rw (← source) up)

  -- The check of a request that has been accepted, against a counter that has reached its index.
  check_request-again :
      (m : Ibtp) (src dst : ChainService) (ic ic' : Interchain) (k : Checked)
      → check_request p e m src dst ic ≡ ok k
      → k.is_batch ≡ false
      → m.index < max_uint64
      → ic'.interchain_counter (get_full_service_id dst) ≡ m.index
      → check_request p e m src dst ic' ≡ err ibtp_index_exist
  unfolding check_request check_order check_index
  check_request-again m src dst ic ic' k h b lt at = ground arith

  -- A request between services of one bitxhub that has gone through, for a destination that takes no
  -- batches and with an index below the largest uint64, is refused as one that is there already, and
  -- changes nothing, when it comes again as the next message, in any later call.
  pub handle_ibtp_once :
      (c c' : Call) (m : Ibtp) (w w' : World) (k : Checked) (ret : String)
      → p.category m.kind ≡ request
      → IsIntra p m
      → check_ibtp p e m w ≡ ok k
      → k.is_batch ≡ false
      → m.index < max_uint64
      → handle_ibtp f p e g c m w ≡ (w', ok ret)
      → handle_ibtp f p e g c' m w' ≡ (w', err ibtp_index_exist)
  unfolding handle_ibtp
  handle_ibtp_once c c' m w w' k ret r i a b lt h =
      let q = handle_ibtp-Passed c m w w' ret h in
      let (same, up) = handle_ibtp-counter c m w w' ret r i h in
      let at : (get_interchain m.sender w').0.interchain_counter m.receiver ≡ m.index =
        up ∙ sym (check_ibtp-next p e m w k a r i b) in
      let src' = ap (λ z. parse_chain_service z m.sender) same ∙ q.src_parsed in
      let dst' = ap (λ z. parse_chain_service z m.receiver) same ∙ q.dst_parsed in
      let refused : check_ibtp p e m w' ≡ err ibtp_index_exist =
        check_ibtp_intra p e m w' q.src q.dst src' dst' r i
        ∙ check_request-again m q.src q.dst _ _ k
            (sym (check_ibtp_intra p e m w q.src q.dst q.src_parsed q.dst_parsed r i) ∙ a) b lt
            (rw (full_service_id-parse _ m.receiver q.dst q.dst_parsed) at) in
      rw (refused, handle_ibtp)
