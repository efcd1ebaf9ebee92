-- ===== src/Mempool/Times.antt =====
-- When the pool last broadcast a transaction, and when one arrived: txLiveTimeMap and txArrivedTimeMap of
-- pkg/order/mempool/tx_store.go, which are written alike, with makeAccountNonceKey of btree_index.go.
use model_lib.Base.{ℕ, String, List, [], ◌∷◌, none, some, put, delete, text_append, decimal}
use model_lib.Mempool.State.{Tx, TimeoutKey, same_timeout, Btree, LiveTimes}

-- makeAccountNonceKey; twenty digits are enough for a uint64
unfoldable pub account_nonce_key : String → ℕ → String
unfolding text_append decimal
account_nonce_key account nonce = text_append account (text_append "-" (decimal 20 nonce))

module _ (tree : Btree TimeoutKey same_timeout) where
  -- insertByTtlKey
  unfoldable pub insert_by_ttl_key : String → ℕ → ℕ → LiveTimes → LiveTimes
  unfolding account_nonce_key
  insert_by_ttl_key account nonce time l = record {
    items = put l.items (account_nonce_key account nonce) time;
    index = tree.insert (record { account = account; nonce = nonce; timestamp = time }) l.index;
  }

  unfoldable pub remove_account_ttl : String → List Tx → LiveTimes → LiveTimes
  unfolding account_nonce_key
  remove_account_ttl account [] l = l
  remove_account_ttl account (tx ∷ txs) l = elim (l.items (account_nonce_key account tx.nonce)) [
    | none ↦ remove_account_ttl account txs l
    | some time ↦ remove_account_ttl account txs (record {
      items = delete l.items (account_nonce_key account tx.nonce);
      index =
          tree.delete (record { account = account; nonce = tx.nonce; timestamp = time }) l.index;
    })
  ]

  -- removeByTtlKey
  unfoldable pub remove_by_ttl_key : List (String × List Tx) → LiveTimes → LiveTimes
  unfolding remove_account_ttl
  remove_by_ttl_key [] l = l
  remove_by_ttl_key ((account, txs) ∷ rest) l =
      remove_by_ttl_key rest (remove_account_ttl account txs l)

  -- updateByTtlKey
  unfoldable pub update_by_ttl_key : TimeoutKey → ℕ → LiveTimes → LiveTimes
  unfolding account_nonce_key insert_by_ttl_key
  update_by_ttl_key key time l = insert_by_ttl_key key.account key.nonce time (record {
    items = delete l.items (account_nonce_key key.account key.nonce);
    index = tree.delete key l.index;
  })

  -- insertOrUpdateByTtlKey
  unfoldable pub insert_or_update_by_ttl_key : String → ℕ → ℕ → LiveTimes → LiveTimes
  unfolding account_nonce_key insert_by_ttl_key
  insert_or_update_by_ttl_key account nonce time l =
      insert_by_ttl_key account nonce time (elim (l.items (account_nonce_key account nonce)) [
        | none ↦ l
        | some old ↦ record l {
          index =
              tree.delete (record { account = account; nonce = nonce; timestamp = old }) l.index;
        }
      ])
