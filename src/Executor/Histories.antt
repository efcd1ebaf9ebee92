-- ===== src/Executor/Histories.antt =====
-- Histories of the transaction contract: the calls of
-- internal/executor/contracts/transaction_manager.go and the ends of blocks of
-- internal/executor/handle.go, in any order.
use model_lib.Base.{
  ℕ, ◌≡◌, refl, ◌∙◌, Bool, String, List, [], ◌∷◌, Option, some, arith, Option-cases, inl, inr,
}
use model_lib.Protocol.{Protocol}
use model_lib.Transactions.Status.{TransactionStatus, IbtpType}
use model_lib.Transactions.Fsm.{FsmPackage}
use model_lib.Transactions.State.{Store, Context}
use model_lib.Transactions.Begin.{begin_tx, begin_inter_bitxhub, begin_multi_txs}
use model_lib.Transactions.Report.{report}
use model_lib.Transactions.Consistency.{
  AllConsistent, report-AllConsistent, begin_multi_txs-AllConsistent,
}
use model_lib.Executor.Timeouts.{set_timeout, set_timeout_rollback, remove_timeout_list}
use model_lib.Executor.Listing.{
  Tx, Listed, listed, unread, panicked, Collecting, go_on, stop, HeightMap, collect, apply_adds,
  apply_removes, set_timeout_list,
}
use model_lib.Executor.Rollback.{set_timeout_rollback-AllConsistent}

-- What happens to the contract's store.
pub data Happening : Type 0 where
  begins : Context → String → ℕ → Bool → Happening
  begins_inter : Context → String → ℕ → Option TransactionStatus → Bool → Happening
  begins_multi : Context → String → String → ℕ → Bool → ℕ → Happening
  reports : Context → String → IbtpType → Happening
  lists : ℕ → List Tx → (String → Bool) → (String → Bool) → String → Happening
  rolls_back : ℕ → Happening

-- The store after the end of a block; a panic ends the node and an error writes nothing.
abbrev after_listing : Store → Listed → Store
after_listing s (listed s') = s'
after_listing s unread = s
after_listing s panicked = s

module _ (f : FsmPackage) (p : Protocol) where
  unfoldable pub happen : Happening → Store → Store
  happen (begins c id t b) s = (begin_tx c id t b s).0
  happen (begins_inter c id t proof b) s = (begin_inter_bitxhub f c id t proof b s).0
  happen (begins_multi c g id t b n) s = (begin_multi_txs c g id t b n s).0
  happen (reports c id r) s = (report f c id r s).0
  happen (lists h txs invalid fail bxh_id) s =
      after_listing s (set_timeout_list p h txs invalid fail bxh_id s)
  happen (rolls_back h) s = (set_timeout_rollback h s).0

  unfoldable pub history : List Happening → Store → Store
  unfolding happen
  history [] s = s
  history (x ∷ xs) s = history xs (happen x s)

begin_tx-global :
    (c : Context) (id : String) (t : ℕ) (b : Bool) (s : Store)
    → (begin_tx c id t b s).0.global_tx_info ≡ s.global_tx_info
unfolding begin_tx
begin_tx-global c id t b s = ground arith

begin_inter_bitxhub-global :
    (f : FsmPackage) (c : Context) (id : String) (t : ℕ) (proof : Option TransactionStatus)
    (b : Bool) (s : Store)
    → (begin_inter_bitxhub f c id t proof b s).0.global_tx_info ≡ s.global_tx_info
unfolding begin_inter_bitxhub
begin_inter_bitxhub-global f c id t proof b s = ground arith

apply_adds-global : (m : HeightMap) (s : Store) → (apply_adds m s).global_tx_info ≡ s.global_tx_info
unfolding apply_adds set_timeout
apply_adds-global [] s = refl
apply_adds-global ((h, ids) ∷ m) s = apply_adds-global m _

apply_removes-global :
    (m : HeightMap) (s s' : Store)
    → apply_removes m s ≡ some s'
    → s'.global_tx_info ≡ s.global_tx_info
unfolding apply_removes set_timeout
apply_removes-global [] s s' e = ground arith
apply_removes-global ((h, ids) ∷ m) s s' e = elim (Option-cases (remove_timeout_list h ids s)) [
  | inl n ↦ absurd (ground arith)
  | inr (fields, n) ↦ apply_removes-global m (set_timeout h fields s) s' (ground arith)
]

set_timeout_list-global :
    (p : Protocol) (h : ℕ) (txs : List Tx) (invalid fail : String → Bool) (bxh_id : String)
    (s : Store)
    → (after_listing s (set_timeout_list p h txs invalid fail bxh_id s)).global_tx_info
      ≡ s.global_tx_info
unfolding set_timeout_list
set_timeout_list-global p h txs invalid fail bxh_id s =
    go (collect p h invalid fail bxh_id s txs (record { adds = []; removes = [] })) refl
  where
    go :
        (r : Collecting)
        → collect p h invalid fail bxh_id s txs (record { adds = []; removes = [] }) ≡ r
        → (after_listing s (set_timeout_list p h txs invalid fail bxh_id s)).global_tx_info
          ≡ s.global_tx_info
    go stop e = rw (e, set_timeout_list)
    go (go_on c) e = elim (Option-cases (apply_removes c.removes (apply_adds c.adds s))) [
      | inl n ↦ rw (e, set_timeout_list, n)
      | inr (s', n) ↦
          rw (e, set_timeout_list, n)
            (apply_removes-global c.removes (apply_adds c.adds s) s' n ∙ apply_adds-global c.adds s)
    ]

happen-AllConsistent :
    (f : FsmPackage) (p : Protocol) (x : Happening) (s : Store)
    → AllConsistent s
    → AllConsistent (happen f p x s)
unfolding happen
happen-AllConsistent f p (begins c id t b) s a = rw (begin_tx-global c id t b s) a
happen-AllConsistent f p (begins_inter c id t proof b) s a =
    rw (begin_inter_bitxhub-global f c id t proof b s) a
happen-AllConsistent f p (begins_multi c g id t b n) s a =
    begin_multi_txs-AllConsistent c g id t b n s a
happen-AllConsistent f p (reports c id r) s a = report-AllConsistent f c id r s a
happen-AllConsistent f p (lists h txs invalid fail bxh_id) s a =
    rw (set_timeout_list-global p h txs invalid fail bxh_id s) a
happen-AllConsistent f p (rolls_back h) s a = set_timeout_rollback-AllConsistent h s a

-- After any history of calls and ends of blocks, from a store in which every global transaction is
-- consistent, every one is: the status of each of its children is one that fits its own.
pub history-AllConsistent :
    (f : FsmPackage) (p : Protocol) (xs : List Happening) (s : Store)
    → AllConsistent s
    → AllConsistent (history f p xs s)
unfolding history
history-AllConsistent f p [] s a = a
history-AllConsistent f p (x ∷ xs) s a =
    history-AllConsistent f p xs (happen f p x s) (happen-AllConsistent f p x s a)
