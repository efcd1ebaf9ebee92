-- ===== src/Executor/World.antt =====
-- What internal/executor/handle.go calls: the state ledger, as its interface StateLedger shows it
-- (internal/ledger/state_accessor.go is an implementation), the virtual machines and the Ethereum
-- packages.
use model_lib.Base.{ℕ, ◌≡◌, ℤ, String, List, ◌∷◌, ◌++◌, Option, some, if◌then◌else◌, str_eq}

-- EvmLog
pub record EvmLog : Type 0 where
  pub address : String
  pub log_data : String

-- The methods of the ledger. GetBalance makes an account that is not there; RevertToSnapshot panics
-- on an id that is not there: none.
pub record World : Type 1 where
  pub State : Type 0
  pub get_balance : String → State → ℤ × State
  pub set_balance : String → ℤ → State → State
  pub set_nonce : String → ℕ → State → State
  pub prepare_evm : String → ℕ → State → State
  pub get_logs : String → State → List EvmLog
  pub finalise : State → State
  pub snapshot : State → ℕ × State
  pub revert_to_snapshot : ℕ → State → Option State

-- What the ledger promises. `Taken r s` says that the state holds the snapshots `r`, the last one
-- first, each with its id and the state in which it was taken, and that a revert to any of them is
-- still possible.
pub record Promises (w : World) : Type 1 where
  pub balance_at : w.State → String → ℤ
  pub nonce_at : w.State → String → ℕ
  pub Taken : List (ℕ × w.State) → w.State → Type 0
  -- balances
  pub get_balance_value : (a : String) (s : w.State) → (w.get_balance a s).0 ≡ balance_at s a
  pub get_balance_kept :
      (a : String) (s : w.State) (x : String) → balance_at (w.get_balance a s).1 x ≡ balance_at s x
  pub set_balance_kept :
      (a : String) (b : ℤ) (s : w.State) (x : String)
      → balance_at (w.set_balance a b s) x ≡ (if str_eq a x then b else balance_at s x)
  pub set_nonce_kept :
      (a : String) (n : ℕ) (s : w.State) (x : String)
      → balance_at (w.set_nonce a n s) x ≡ balance_at s x
  pub prepare_evm_kept :
      (h : String) (i : ℕ) (s : w.State) (x : String)
      → balance_at (w.prepare_evm h i s) x ≡ balance_at s x
  pub finalise_kept : (s : w.State) (x : String) → balance_at (w.finalise s) x ≡ balance_at s x
  -- nonces
  pub set_nonce_value : (a : String) (n : ℕ) (s : w.State) → nonce_at (w.set_nonce a n s) a ≡ n
  pub finalise_nonce : (s : w.State) (x : String) → nonce_at (w.finalise s) x ≡ nonce_at s x
  -- snapshots
  pub Taken_get_balance :
      (a : String) (r : List (ℕ × w.State)) (s : w.State)
      → Taken r s
      → Taken r (w.get_balance a s).1
  pub Taken_set_balance :
      (a : String) (b : ℤ) (r : List (ℕ × w.State)) (s : w.State)
      → Taken r s
      → Taken r (w.set_balance a b s)
  pub Taken_prepare_evm :
      (h : String) (i : ℕ) (r : List (ℕ × w.State)) (s : w.State)
      → Taken r s
      → Taken r (w.prepare_evm h i s)
  pub Taken_snapshot :
      (r : List (ℕ × w.State)) (s : w.State)
      → Taken r s
      → Taken (((w.snapshot s).0, s) ∷ r) (w.snapshot s).1
  pub snapshot_kept : (s : w.State) (x : String) → balance_at (w.snapshot s).1 x ≡ balance_at s x
  pub reverted :
      (later : List (ℕ × w.State)) (id : ℕ) (r : List (ℕ × w.State)) (t s : w.State)
      → Taken (later ++ (id, t) ∷ r) s
      → (s2 : w.State) × (w.revert_to_snapshot id s ≡ some s2)
        × Taken r s2
        × ((x : String) → balance_at s2 x ≡ balance_at t x)
