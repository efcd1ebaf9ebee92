-- ===== src/Interchain/Counters.antt =====
-- The counters of HandleIBTP in internal/executor/contracts/interchain.go.
use model_lib.Base.{
  ℕ, ◌≡◌, refl, ap, subst, ◌∙◌, Bool, true, false, not, ◌&&◌, String, List, [], ◌∷◌, inl, inr,
  arith, eq_iff, str_eq, Bool-cases, Option-cases, if◌then◌else◌,
}
use model_lib.Protocol.{Protocol, Ibtp, Category, request, response, unknown}
use model_lib.Transactions.Status.{TransactionStatus}
use model_lib.Transactions.Fsm.{FsmPackage}
use model_lib.Transactions.State.{Store, StatusChange, Response}
use model_lib.Interchain.ServiceId.{ChainService}
use model_lib.Interchain.State.{
  Interchain, World, Call, Peers, Answer, ok, err, panicked, internal_err, get_interchain,
  set_interchain, post_audit,
}
use model_lib.Interchain.Check.{Checked, next_index}
use model_lib.Interchain.Process.{
  process_ibtp, process_request, notify_src_dst, notify_children, add_to_multi_tx_notify_map,
  set_notify,
}
use model_lib.Interchain.Handle.{
  with_txs, begin_transaction, report_transaction, transact, audit_both, is_failed, handle_answered,
}
use model_lib.Interchain.Order.{IsIntra, not_notification}

-- What the calls around the counters leave alone.
pub record Keeps (w w' : World) : Type 0 where
  pub interchains : w'.interchains ≡ w.interchains
  pub bitxhub_id : w'.bitxhub_id ≡ w.bitxhub_id

pub Keeps-refl : (w : World) → Keeps w w
Keeps-refl w = record { interchains = refl; bitxhub_id = refl }

Keeps-trans : (u v w : World) → Keeps u v → Keeps v w → Keeps u w
Keeps-trans u v w h k = record {
  interchains = k.interchains ∙ h.interchains;
  bitxhub_id = k.bitxhub_id ∙ h.bitxhub_id;
}

if_Keeps : (b : Bool) (w u v : World) → Keeps w u → Keeps w v → Keeps w (if b then u else v)
if_Keeps true w u v h k = h
if_Keeps false w u v h k = k

with_txs-Keeps : (w : World) (r : Store × Response StatusChange) → Keeps w (with_txs w r).0
unfolding with_txs
with_txs-Keeps w (s, Response.ok change) = record { interchains = refl; bitxhub_id = refl }
with_txs-Keeps w (s, Response.err _) = record { interchains = refl; bitxhub_id = refl }
with_txs-Keeps w (s, Response.panicked) = record { interchains = refl; bitxhub_id = refl }

module _ (f : FsmPackage) (p : Protocol) (e : Peers) (g : Ibtp → String) where
  begin_transaction-Keeps :
      (c : Call) (m : Ibtp) (b : Bool) (w : World) → Keeps w (begin_transaction f p e g c m b w).0
  unfolding begin_transaction
  begin_transaction-Keeps c m b w =
      elim (Bool-cases (str_eq (p.bitxhub_of m.sender) (p.bitxhub_of m.receiver))) [
        | inl x ↦ elim (Option-cases m.group_keys) [
          | inl y ↦ rw (x, begin_transaction, y) (with_txs-Keeps w _)
          | inr (ks, y) ↦ rw (x, begin_transaction, y) (with_txs-Keeps w _)
        ]
        | inr x ↦ elim (Option-cases w.bitxhub_id) [
          | inl y ↦ record { interchains = ground arith; bitxhub_id = ground arith }
          | inr (own, y) ↦ simp (x, begin_transaction, y) (with_txs-Keeps w _)
        ]
      ]

  pub transact-Keeps :
      (k : Category) (c : Call) (m : Ibtp) (b : Bool) (w : World)
      → Keeps w (transact f p e g k c m b w).0
  unfolding transact report_transaction
  transact-Keeps request c m b w = begin_transaction-Keeps c m b w
  transact-Keeps response c m b w = with_txs-Keeps w _
  transact-Keeps unknown c m b w = Keeps-refl w

add_to_multi_tx_notify_map-Keeps :
    (p : Protocol) (h : ℕ) (ids : List String) (b : Bool) (w : World)
    → Keeps w (add_to_multi_tx_notify_map p h ids b w)
unfolding add_to_multi_tx_notify_map set_notify
add_to_multi_tx_notify_map-Keeps p h [] b w = Keeps-refl w
add_to_multi_tx_notify_map-Keeps p h (id ∷ ids) b w = record {
  interchains = refl;
  bitxhub_id = refl;
}

notify_src_dst-Keeps :
    (p : Protocol) (c : Call) (src dst : ChainService) (ch : StatusChange) (b : Bool) (w : World)
    → Keeps w (notify_src_dst p c src dst ch b w)
unfolding notify_src_dst notify_children
notify_src_dst-Keeps p c src dst ch b w =
    let (src_flag, dst_flag) = p.notify_flags ch in
    let w1 =
      if src_flag && src.is_local
      then add_to_multi_tx_notify_map p c.current_height ch.notify_src_ibtp_ids true w
      else w in
    let first =
      if_Keeps (src_flag && src.is_local) w _ w
        (add_to_multi_tx_notify_map-Keeps p c.current_height ch.notify_src_ibtp_ids true w)
        (Keeps-refl w) in
    let second =
      if_Keeps (dst_flag && dst.is_local) w1 _ w1
        (add_to_multi_tx_notify_map-Keeps p c.current_height ch.notify_dst_ibtp_ids false w1)
        (Keeps-refl w1) in
    let both = Keeps-trans w w1 _ first second in
    record { interchains = both.interchains; bitxhub_id = both.bitxhub_id }

-- The receiver's own counters are written after the sender's, and apart from them.
process_request-counter :
    (e : Peers) (c : Call) (m : Ibtp) (dst : ChainService) (ic : Interchain) (w : World)
    → (get_interchain m.sender (process_request e c m dst ic w).0).0.interchain_counter m.receiver
      ≡ next_index (ic.interchain_counter m.receiver)
unfolding process_request get_interchain set_interchain
process_request-counter e c m dst ic w =
    ground
      (arith, eq_iff m.sender m.sender, eq_iff m.receiver m.receiver, eq_iff m.receiver m.sender)

process_request-Keeps_id :
    (e : Peers) (c : Call) (m : Ibtp) (dst : ChainService) (ic : Interchain) (w : World)
    → (process_request e c m dst ic w).0.bitxhub_id ≡ w.bitxhub_id
unfolding process_request set_interchain
process_request-Keeps_id e c m dst ic w = ground arith

process_ibtp_request :
    (p : Protocol) (e : Peers) (c : Call) (m : Ibtp) (src dst : ChainService) (ic : Interchain)
    (tf b : Bool) (st : TransactionStatus) (ids : List String) (w : World)
    → p.category m.kind ≡ request
    → IsIntra p m
    → (process_ibtp p e c m src dst ic tf b st ids w).0 ≡ (process_request e c m dst ic w).0
unfolding process_ibtp
process_ibtp_request p e c m src dst ic tf b st ids w k i =
    rw (not_notification p m w i, process_ibtp, k) (ground arith)

post_audit-Keeps : (b : Bool) (id : String) (w : World) → Keeps w (post_audit b id w).0
unfolding post_audit
post_audit-Keeps b id w = record { interchains = ground arith; bitxhub_id = ground arith }

get_interchain-Keeps :
    (sender receiver : String) (w w' : World)
    → Keeps w w'
    → (get_interchain sender w').0.interchain_counter receiver
      ≡ (get_interchain sender w).0.interchain_counter receiver
unfolding get_interchain
get_interchain-Keeps sender receiver w w' k = ground (arith, ap (λ i. i sender) k.interchains)

module _ (f : FsmPackage) (p : Protocol) (e : Peers) (g : Ibtp → String) where
  audit_both-Keeps :
      (c : Call) (m : Ibtp) (ret : String) (w : World) → Keeps w (audit_both f p e g c m ret w).0
  unfolding audit_both
  audit_both-Keeps c m ret w =
      let (w1, first) = post_audit c.enable_audit m.sender w in
      let (w2, second) = post_audit c.enable_audit m.receiver w1 in
      let one = post_audit-Keeps c.enable_audit m.sender w in
      let two = Keeps-trans w w1 w2 one (post_audit-Keeps c.enable_audit m.receiver w1) in
      chosen w1 w2 first second one two
    where
      chosen :
          (w1 w2 : World) (a b : Bool)
          → Keeps w w1
          → Keeps w w2
          → Keeps w
              (if◌then◌else◌ {A = World × Answer String}
                (not a)
                (w1, err internal_err)
                (if not b then (w2, err internal_err) else (w2, ok ret))).0
      chosen w1 w2 false b x y = x
      chosen w1 w2 true false x y = y
      chosen w1 w2 true true x y = y

  -- The world after an accepted request that went through.
  pub handle_answered-counter :
      (c : Call) (m : Ibtp) (src dst : ChainService) (k : Checked) (w : World)
      (t : World × Answer StatusChange) (w' : World) (ret : String)
      → p.category m.kind ≡ request
      → IsIntra p m
      → Keeps w t.0
      → handle_answered f p e g c m src dst k t ≡ (w', ok ret)
      → (w'.bitxhub_id ≡ w.bitxhub_id)
        × ((get_interchain m.sender w').0.interchain_counter m.receiver
            ≡ next_index (k.source.interchain_counter m.receiver))
  unfolding handle_answered
  handle_answered-counter c m src dst k w (w1, err x) w' ret r i one h = absurd (ground arith)
  handle_answered-counter c m src dst k w (w1, panicked) w' ret r i one h = absurd (ground arith)
  handle_answered-counter c m src dst k w (w1, ok change) w' ret r i one h =
      let w2 = notify_src_dst p c src dst change k.is_batch w1 in
      let (w3, answer) =
        process_ibtp p e c m src dst k.source (is_failed k.target_error) k.is_batch
          change.cur_status change.child_ibtp_ids w2 in
      let two = Keeps-trans w w1 w2 one (notify_src_dst-Keeps p c src dst change k.is_batch w1) in
      let three : w3 ≡ (process_request e c m dst k.source w2).0 =
        process_ibtp_request p e c m src dst k.source (is_failed k.target_error) k.is_batch
          change.cur_status change.child_ibtp_ids w2 r i in
      let four =
        subst (λ (z : World × Answer String). Keeps w3 z.0) h (audit_both-Keeps c m answer w3) in
      (
        four.bitxhub_id
            ∙ (ap (λ (z : World). z.bitxhub_id) three
                ∙ (process_request-Keeps_id e c m dst k.source w2 ∙ two.bitxhub_id)),
        get_interchain-Keeps m.sender m.receiver w3 w' four
            ∙ (ap (λ z. (get_interchain m.sender z).0.interchain_counter m.receiver) three
                ∙ process_request-counter e c m dst k.source w2),
      )
