-- ===== src/Scenarios/Routing.antt =====
-- A block with two transactions of BitXHub, one of them for the chain "chain2", where a message also times out.
use model_lib.Base.{Distinct, ◌≡◌, refl, String, true, false, [], ◌∷◌, some, arith, if◌then◌else◌}
use model_lib.Router.{bxh_tx, Wrapper, Block, InterchainMeta, verified, wrapper_for}
use model_lib.Router.Wrappers.{listed, is_listed, wrapper_for_lem}

abbrev block : Block String
block = record { number = 8; txs = bxh_tx "tx0" ∷ bxh_tx "tx1" ∷ [] }

abbrev meta : InterchainMeta
meta = record {
  counter = ("chain2", record { index = 1; valid = true; is_batch = false } ∷ []) ∷ [];
  timeout_counter = ("chain2", "ibtp7" ∷ []) ∷ [];
  multi_tx_counter = ("chain3", "ibtp9" ∷ []) ∷ [];
  l2_roots = "root" ∷ [];
  timeout_l2_roots = "late" ∷ [];
}

wrapper_for_lem_example :
    (w : Wrapper String) × (wrapper_for "chain2" block meta ≡ some w)
    × (verified block.txs (listed "chain2" meta.counter) ≡ some w.transactions)
    × (w.timeout_ibtps ≡ listed "chain2" meta.timeout_counter)
    × (w.multi_tx_ibtps ≡ listed "chain2" meta.multi_tx_counter)
    × (w.timeout_l2_roots
        ≡ (if is_listed "chain2" meta.timeout_counter then meta.timeout_l2_roots else []))
    × (w.height ≡ 8)
    × (w.l2_roots ≡ "root" ∷ [])
unfolding Distinct
wrapper_for_lem_example =
    wrapper_for_lem block meta "chain2" (refl, tt) (refl, tt) (refl, tt) ((omega arith, tt), tt)
