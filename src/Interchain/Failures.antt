-- ===== src/Interchain/Failures.antt =====
-- Messages that HandleIBTP of internal/executor/contracts/interchain.go refuses.
use model_lib.Base.{
  ◌≡◌, refl, sym, ap, ◌∙◌, Bool, false, String, inl, inr, arith, str_eq, Bool-cases, Option-cases,
}
use model_lib.Protocol.{Protocol, Ibtp, Category, request, response, unknown}
use model_lib.Transactions.Fsm.{FsmPackage}
use model_lib.Transactions.State.{Store, StatusChange, Response, ErrorCode}
use model_lib.Transactions.Outcomes.{
  report_err-unchanged, begin_err-unchanged, begin_multi_err-unchanged, begin_tx_err-unchanged,
}
use model_lib.Interchain.ServiceId.{ChainService, parse_chain_service}
use model_lib.Interchain.State.{
  World, Call, Peers, InterchainError, Answer, ok, err, panicked, post_audit,
}
use model_lib.Interchain.Check.{Checked, check_ibtp}
use model_lib.Interchain.Replay.{Answer-cases}
use model_lib.Interchain.Handle.{
  with_txs, begin_transaction, report_transaction, transact, is_failed, audit_both, handle_answered,
  handle_checked, handle_ibtp,
}

-- The transaction contract's errors leave its store, and so the world, as they were.
with_txs-unchanged :
    (w : World) (t : Store × Response StatusChange) (x : InterchainError)
    → ((k : ErrorCode) → t.1 ≡ Response.err k → t.0 ≡ w.txs)
    → (with_txs w t).1 ≡ err x
    → (with_txs w t).0 ≡ w
unfolding with_txs
with_txs-unchanged w (s, Response.ok change) x h a = absurd (ground arith)
with_txs-unchanged w (s, Response.err k) x h a = ap (λ t. record w { txs = t }) (h k refl)
with_txs-unchanged w (s, Response.panicked) x h a = absurd (ground arith)

module _ (f : FsmPackage) (p : Protocol) (e : Peers) (g : Ibtp → String) where
  begin_transaction-unchanged :
      (c : Call) (m : Ibtp) (b : Bool) (w : World) (x : InterchainError)
      → (begin_transaction f p e g c m b w).1 ≡ err x
      → (begin_transaction f p e g c m b w).0 ≡ w
  unfolding begin_transaction
  begin_transaction-unchanged c m b w x h =
      elim (Bool-cases (str_eq (p.bitxhub_of m.sender) (p.bitxhub_of m.receiver))) [
        | inl i ↦ elim (Option-cases m.group_keys) [
          | inl y ↦
              simp (i, begin_transaction, y)
                (with_txs-unchanged w _ x (begin_tx_err-unchanged _ _ _ _ _) (ground arith))
          | inr (ks, y) ↦
              simp (i, begin_transaction, y)
                (with_txs-unchanged w _ x (begin_multi_err-unchanged _ _ _ _ _ _ _) (ground arith))
        ]
        | inr i ↦ elim (Option-cases w.bitxhub_id) [
          | inl y ↦ ground arith
          | inr (own, y) ↦
              simp (i, begin_transaction, y)
                (with_txs-unchanged w _ x (begin_err-unchanged _ _ _ _ _ _ _) (ground arith))
        ]
      ]

  transact-unchanged :
      (k : Category) (c : Call) (m : Ibtp) (b : Bool) (w : World) (x : InterchainError)
      → (transact f p e g k c m b w).1 ≡ err x
      → (transact f p e g k c m b w).0 ≡ w
  unfolding transact report_transaction
  transact-unchanged request c m b w x h = begin_transaction-unchanged c m b w x h
  transact-unchanged response c m b w x h =
      with_txs-unchanged w _ x (report_err-unchanged f _ _ _ _) h
  transact-unchanged unknown c m b w x h = absurd (ground arith)

  audit_both-off :
      (c : Call) (m : Ibtp) (ret : String) (w : World)
      → c.enable_audit ≡ false
      → (audit_both f p e g c m ret w).1 ≡ ok ret
  unfolding audit_both post_audit
  audit_both-off c m ret w off = ground arith

  handle_answered-unchanged :
      (c : Call) (m : Ibtp) (src dst : ChainService) (k : Checked) (w : World)
      (t : World × Answer StatusChange) (x : InterchainError)
      → c.enable_audit ≡ false
      → ((y : InterchainError) → t.1 ≡ err y → t.0 ≡ w)
      → (handle_answered f p e g c m src dst k t).1 ≡ err x
      → (handle_answered f p e g c m src dst k t).0 ≡ w
  unfolding handle_answered
  handle_answered-unchanged c m src dst k w (w1, err y) x off h a = h y refl
  handle_answered-unchanged c m src dst k w (w1, panicked) x off h a = absurd (ground arith)
  handle_answered-unchanged c m src dst k w (w1, ok ch) x off h a =
      let clash = sym (audit_both-off c m _ _ off) ∙ a in cc clash

  -- Without audit events, a message that is answered with an error changes nothing: neither the
  -- counters nor the transactions nor what is handed to other contracts.
  pub handle_ibtp_err-unchanged :
      (c : Call) (m : Ibtp) (w : World) (x : InterchainError)
      → c.enable_audit ≡ false
      → (handle_ibtp f p e g c m w).1 ≡ err x
      → (handle_ibtp f p e g c m w).0 ≡ w
  unfolding handle_ibtp handle_checked
  handle_ibtp_err-unchanged c m w x off h = elim (Answer-cases (check_ibtp p e m w)) [
    | inr (inl (y, a)) ↦ rw (a, handle_ibtp)
    | inr (inr a) ↦ rw (a, handle_ibtp)
    | inl (k, a) ↦ elim (Option-cases (parse_chain_service w.bitxhub_id m.sender)) [
      | inl y ↦ absurd (ground arith)
      | inr (src, y) ↦ elim (Option-cases (parse_chain_service w.bitxhub_id m.receiver)) [
        | inl z ↦ absurd (ground arith)
        | inr (dst, z) ↦
            let done : handle_ibtp f p e g c m w ≡ handle_checked f p e g c m src dst k w =
              rw (a, handle_ibtp, y, z) in
            ap (λ (t : World × Answer String). t.0) done
            ∙ handle_answered-unchanged c m src dst k w
                (transact f p e g (p.category m.kind) c m (is_failed k.target_error) w) x off
                (λ v. transact-unchanged (p.category m.kind) c m (is_failed k.target_error) w v)
                (ap (λ (t : World × Answer String). t.1) (sym done) ∙ h)
      ]
    ]
  ]
