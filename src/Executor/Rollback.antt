-- ===== src/Executor/Rollback.antt =====
-- What a block's timeouts do to the transactions (setTimeoutRollback of internal/executor/handle.go).
use model_lib.Base.{
  ℕ, ◌≡◌, refl, sym, subst, Bool, true, false, inl, inr, Bool-cases, Option-cases, String, List, [],
  ◌∷◌, some, arith, eq_iff, str_eq, put, fill, All,
}
use model_lib.Transactions.Status.{begin_rollback}
use model_lib.Transactions.State.{TransactionInfo, Store}
use model_lib.Transactions.Groups.{fill-AllFit}
use model_lib.Transactions.Consistency.{AllConsistent, put-AllConsistent}
use model_lib.Executor.Timeouts.{
  get_timeout_list, is_global_id, rollback_one, rollback_list, set_timeout_rollback,
}

-- A transaction is rolled back: its record has the status BEGIN_ROLLBACK and the height, or, for the id
-- of a global transaction, its info has the status.
pub data RolledBack (height : ℕ) (s : Store) (id : String) : Type 0 where
  single :
      is_global_id id ≡ false
      → s.tx_info id ≡ some (record { status = begin_rollback; height = height })
      → RolledBack height s id
  global :
      is_global_id id ≡ true
      → (info : TransactionInfo) → s.global_tx_info id ≡ some info
      → info.global_state ≡ begin_rollback
      → RolledBack height s id

abbrev marked : TransactionInfo → TransactionInfo
marked info = record info {
  global_state = begin_rollback;
  child_tx_info = unfold fill in fill begin_rollback info.child_tx_info;
}

rollback_one-RolledBack :
    (height : ℕ) (id : String) (s s' : Store)
    → rollback_one height id s ≡ some s'
    → RolledBack height s' id
unfolding rollback_one
rollback_one-RolledBack height id s s' e = elim (Bool-cases (is_global_id id)) [
  | inr n ↦ single n (ground (arith, eq_iff id id))
  | inl g ↦ elim (Option-cases (s.global_tx_info id)) [
    | inl f ↦ absurd (ground arith)
    | inr (info, f) ↦ global g (marked info) (ground (arith, eq_iff id id)) refl
  ]
]

-- A later rollback of another id, or of the same one, keeps what the first has done.
rollback_one-keeps :
    (height : ℕ) (id other : String) (s s' : Store)
    → rollback_one height other s ≡ some s'
    → RolledBack height s id
    → RolledBack height s' id
unfolding rollback_one
rollback_one-keeps height id other s s' e (single n r) = single n (ground (arith, eq_iff other id))
rollback_one-keeps height id other s s' e (global g info f b) =
    elim (Bool-cases (is_global_id other)) [
      | inr n ↦ global g info (ground (arith, eq_iff other id)) b
      | inl o ↦ elim (Option-cases (s.global_tx_info other)) [
        | inl k ↦ absurd (ground arith)
        | inr (i2, k) ↦ elim (Bool-cases (str_eq other id)) [
          | inl same ↦ global g (marked i2) (ground arith) refl
          | inr apart ↦ global g info (ground arith) b
        ]
      ]
    ]

rollback_list-keeps :
    (height : ℕ) (id : String) (ids : List String) (s : Store)
    → RolledBack height s id
    → (rollback_list height ids s).1 ≡ true
    → RolledBack height (rollback_list height ids s).0 id
unfolding rollback_list
rollback_list-keeps height id [] s r t = r
rollback_list-keeps height id (x ∷ xs) s r t = elim (Option-cases (rollback_one height x s)) [
  | inl e ↦ absurd (ground arith)
  | inr (s1, e) ↦
      rw (e, rollback_list)
        (rollback_list-keeps height id xs s1 (rollback_one-keeps height id x s s1 e r)
          (ground arith))
]

rollback_list_step :
    (height : ℕ) (x : String) (xs : List String) (s s1 : Store)
    → rollback_one height x s ≡ some s1
    → rollback_list height (x ∷ xs) s ≡ rollback_list height xs s1
unfolding rollback_list
rollback_list_step height x xs s s1 e = rw (e, rollback_list)

rollback_list-All :
    (height : ℕ) (ids : List String) (s : Store)
    → (rollback_list height ids s).1 ≡ true
    → All (RolledBack height (rollback_list height ids s).0) ids
rollback_list-All height [] s t = tt
rollback_list-All height (x ∷ xs) s t = elim (Option-cases (rollback_one height x s)) [
  | inl e ↦ absurd (unfold rollback_list in ground arith)
  | inr (s1, e) ↦
      let step = rollback_list_step height x xs s s1 e in
      let rest : (rollback_list height xs s1).1 ≡ true = rw step at t in
      subst (λ (r : Store × Bool). All (RolledBack height r.0) (x ∷ xs)) (sym step)
        (
          rollback_list-keeps height x xs s1 (rollback_one-RolledBack height x s s1 e) rest,
          rollback_list-All height xs s1 rest,
        )
]

-- A block whose timeouts are handled without an error rolls back every transaction that the executor
-- reads in the list of its height.
pub set_timeout_rollback-RolledBack :
    (height : ℕ) (s : Store)
    → (set_timeout_rollback height s).1 ≡ true
    → All (RolledBack height (set_timeout_rollback height s).0) (get_timeout_list height s)
unfolding set_timeout_rollback
set_timeout_rollback-RolledBack height s t =
    rollback_list-All height (get_timeout_list height s) s t

rollback_one-AllConsistent :
    (height : ℕ) (id : String) (s s' : Store)
    → AllConsistent s
    → rollback_one height id s ≡ some s'
    → AllConsistent s'
unfolding rollback_one
rollback_one-AllConsistent height id s s' a e = elim (Bool-cases (is_global_id id)) [
  | inr n ↦ let same : s'.global_tx_info ≡ s.global_tx_info = ground arith in rw same a
  | inl g ↦ elim (Option-cases (s.global_tx_info id)) [
    | inl f ↦ absurd (ground arith)
    | inr (info, f) ↦
        let new : s'.global_tx_info ≡ put s.global_tx_info id (marked info) = ground arith in
        rw new (
          put-AllConsistent s.global_tx_info id (marked info) a
            (fill-AllFit begin_rollback begin_rollback info.child_tx_info refl))
  ]
]

rollback_list-AllConsistent :
    (height : ℕ) (ids : List String) (s : Store)
    → AllConsistent s
    → AllConsistent (rollback_list height ids s).0
unfolding rollback_list
rollback_list-AllConsistent height [] s a = a
rollback_list-AllConsistent height (x ∷ xs) s a = elim (Option-cases (rollback_one height x s)) [
  | inl e ↦ rw (e, rollback_list) a
  | inr (s1, e) ↦
      rw (e, rollback_list)
        (rollback_list-AllConsistent height xs s1 (rollback_one-AllConsistent height x s s1 a e))
]

-- The timeouts of a block keep every global transaction consistent, also where they stop with an
-- error.
pub set_timeout_rollback-AllConsistent :
    (height : ℕ) (s : Store) → AllConsistent s → AllConsistent (set_timeout_rollback height s).0
unfolding set_timeout_rollback
set_timeout_rollback-AllConsistent height s a =
    rollback_list-AllConsistent height (get_timeout_list height s) s a
