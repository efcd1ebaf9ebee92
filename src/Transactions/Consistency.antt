-- ===== src/Transactions/Consistency.antt =====
-- The consistency of global transactions over the handlers of
-- internal/executor/contracts/transaction_manager.go.
use model_lib.Base.{
  ℕ, ◌≡◌, refl, subst, Bool, true, false, ◌⊎◌, inl, inr, Bool-cases, Option-cases, String, Option,
  some, arith, str_eq, lookup, put, if◌then◌else◌,
}
use model_lib.Transactions.Status.{TransactionStatus, IbtpType, begin, begin_failure}
use model_lib.Transactions.Fsm.{FsmPackage, status_eq}
use model_lib.Transactions.State.{
  TransactionRecord, TransactionInfo, Store, Context, Response, ErrorCode, ok, err, panicked,
}
use model_lib.Transactions.Begin.{
  begin_multi_txs, begin_child, store_multi, new_info, remove_from_timeout_list,
  add_to_timeout_list, check_current_caller,
}
use model_lib.Transactions.Report.{report, report_single, report_child, change_multi_tx_status}
use model_lib.Transactions.Groups.{
  IsConsistent, fits, Taken-IsConsistent, change_multi_tx_status-Taken, insert-AllFit, fill-AllFit,
}

-- Every stored global transaction is consistent.
abbrev pub AllConsistent : Store → Type 0
AllConsistent s =
    (g : String) (info : TransactionInfo) → s.global_tx_info g ≡ some info → IsConsistent info

-- Storing a consistent info in a store of consistent ones.
pub put-AllConsistent :
    (m : String → Option TransactionInfo) (k : String) (info : TransactionInfo)
    → ((g : String) (i : TransactionInfo) → m g ≡ some i → IsConsistent i)
    → IsConsistent info
    → (g : String) (i : TransactionInfo) → put m k info g ≡ some i
    → IsConsistent i
put-AllConsistent m k info a c g i h = elim (Bool-cases (str_eq k g)) [
  | inl e ↦ let same : info ≡ i = ground arith in subst IsConsistent same c
  | inr e ↦ a g i (ground arith)
]

-- A timeout list is apart from the other families of keys.
remove_from_timeout_list-global :
    (h : ℕ) (id : String) (s s' : Store)
    → remove_from_timeout_list h id s ≡ some s'
    → s'.global_tx_info ≡ s.global_tx_info
unfolding remove_from_timeout_list
remove_from_timeout_list-global h id s s' e = ground arith

change_multi_tx_status-global :
    (p : FsmPackage) (global_id : String) (info : TransactionInfo) (status : TransactionStatus)
    (tx_id : String) (result : IbtpType) (s : Store) (info' : TransactionInfo) (s' : Store)
    → change_multi_tx_status p global_id info status tx_id result s ≡ ok (info', s')
    → s'.global_tx_info ≡ s.global_tx_info
unfolding change_multi_tx_status
change_multi_tx_status-global p global_id info status tx_id result s info' s' h =
    elim (Option-cases (remove_from_timeout_list info.height global_id s)) [
      | inl e ↦ ground arith
      | inr (s1, e) ↦ ground (arith, remove_from_timeout_list-global info.height global_id s s1 e)
    ]

Response-cases {ℓ} :
    {A : Type ℓ} (r : Response A)
    → ((a : A) × (r ≡ ok a)) ⊎ (((e : ErrorCode) × (r ≡ err e)) ⊎ (r ≡ panicked))
Response-cases (ok a) = inl (a, refl)
Response-cases (err e) = inr (inl (e, refl))
Response-cases panicked = inr (inr refl)

report_child-AllConsistent :
    (p : FsmPackage) (tx_id : String) (result : IbtpType) (global_id : String)
    (info : TransactionInfo) (s : Store)
    → AllConsistent s
    → IsConsistent info
    → AllConsistent (report_child p tx_id result global_id info s).0
unfolding report_child
report_child-AllConsistent p tx_id result global_id info s a c =
    elim (Option-cases (lookup tx_id info.child_tx_info)) [
      | inl e ↦ rw (e, report_child) a
      | inr (status, e) ↦
          elim (Response-cases (change_multi_tx_status p global_id info status tx_id result s)) [
            | inl ((info', s'), h) ↦
                rw (e, report_child, h)
                  (put-AllConsistent s'.global_tx_info global_id info'
                    (rw
                      (change_multi_tx_status-global p global_id info status tx_id result s info' s'
                        h)
                      a)
                    (Taken-IsConsistent p info status tx_id result c e (
                      change_multi_tx_status-Taken p global_id info status tx_id result s info' s'
                        h)))
            | inr (inl (x, h)) ↦ rw (e, report_child, h) a
            | inr (inr h) ↦ rw (e, report_child, h) a
          ]
    ]

report_single-global :
    (p : FsmPackage) (tx_id : String) (result : IbtpType) (r : TransactionRecord) (s : Store)
    → (report_single p tx_id result r s).0.global_tx_info ≡ s.global_tx_info
unfolding report_single
report_single-global p tx_id result r s = ground arith

-- A receipt, taken or refused, leaves every stored global transaction consistent, where all of them
-- were: the status of every child is one that fits the status of the whole.
pub report-AllConsistent :
    (p : FsmPackage) (c : Context) (tx_id : String) (result : IbtpType) (s : Store)
    → AllConsistent s
    → AllConsistent (report p c tx_id result s).0
unfolding report
report-AllConsistent p c tx_id result s a = elim (Bool-cases (check_current_caller c)) [
  | inl e ↦ rw (e, report) a
  | inr e ↦ elim (Option-cases (s.tx_info tx_id)) [
    | inr (r, f) ↦ rw (e, report, f) (rw (report_single-global p tx_id result r s) a)
    | inl f ↦ elim (Option-cases (s.global_id tx_id)) [
      | inl k ↦ rw (e, report, f, k) a
      | inr (gid, k) ↦ elim (Option-cases (s.global_tx_info gid)) [
        | inl l ↦ rw (e, report, f, k, l) a
        | inr (info, l) ↦
            rw (e, report, f, k, l)
              (report_child-AllConsistent p tx_id result gid info s a (a gid info l))
      ]
    ]
  ]
]

add_to_timeout_list-global :
    (h : ℕ) (id : String) (s : Store)
    → (add_to_timeout_list h id s).global_tx_info ≡ s.global_tx_info
unfolding add_to_timeout_list
add_to_timeout_list-global h id s = refl

-- A child that joins under the status of the whole fits.
fits_self : (g : TransactionStatus) → fits g g ≡ true
fits_self g = ground arith

begin_child-AllConsistent :
    (global_id ibtp_id : String) (failed : Bool) (info : TransactionInfo) (s : Store)
    → AllConsistent s
    → IsConsistent info
    → AllConsistent (begin_child global_id ibtp_id failed info s).0
unfolding begin_child store_multi status_eq
begin_child-AllConsistent global_id ibtp_id failed info s a c =
    elim (Bool-cases (status_eq info.global_state begin)) [
      | inr n ↦
          rw (n, begin_child)
            (put-AllConsistent s.global_tx_info global_id _ a
              (insert-AllFit info.global_state _ ibtp_id _ (fits_self info.global_state) c))
      | inl y ↦ elim (Bool-cases failed) [
        | inr n ↦
            rw (y, n, begin_child)
              (put-AllConsistent s.global_tx_info global_id _ a
                (insert-AllFit info.global_state begin ibtp_id _ (begin_of info.global_state y) c))
        | inl f ↦ elim (Option-cases (remove_from_timeout_list info.height global_id s)) [
          | inl e ↦ rw (y, f, begin_child, e) a
          | inr (s', e) ↦
              rw (y, f, begin_child, e)
                (put-AllConsistent s'.global_tx_info global_id _
                  (rw (remove_from_timeout_list-global info.height global_id s s' e) a)
                  (insert-AllFit begin_failure begin_failure ibtp_id _ refl
                    (fill-AllFit begin_failure begin_failure _ refl)))
        ]
      ]
    ]
  where
    begin_of : (g : TransactionStatus) → status_eq g begin ≡ true → fits g begin ≡ true
    begin_of g h = ground arith

new_info-IsConsistent :
    (c : Context) (ibtp_id : String) (timeout : ℕ) (failed : Bool) (count : ℕ)
    → IsConsistent (new_info c ibtp_id timeout failed count)
unfolding new_info
new_info-IsConsistent c ibtp_id timeout true count = (refl, tt)
new_info-IsConsistent c ibtp_id timeout false count = (refl, tt)

-- A child that begins, the first or a further one, or is refused, leaves every stored global
-- transaction consistent, where all of them were.
pub begin_multi_txs-AllConsistent :
    (c : Context) (global_id ibtp_id : String) (timeout : ℕ) (failed : Bool) (count : ℕ) (s : Store)
    → AllConsistent s
    → AllConsistent (begin_multi_txs c global_id ibtp_id timeout failed count s).0
unfolding begin_multi_txs store_multi
begin_multi_txs-AllConsistent c global_id ibtp_id timeout failed count s a =
    elim (Bool-cases (check_current_caller c)) [
      | inl e ↦ rw (e, begin_multi_txs) a
      | inr e ↦ elim (Option-cases (s.global_tx_info global_id)) [
        | inl f ↦
            rw (e, begin_multi_txs, f)
              (put-AllConsistent _ global_id _ (first _ failed)
                (new_info-IsConsistent c ibtp_id timeout failed count))
        | inr (info, f) ↦ elim (Option-cases (lookup ibtp_id info.child_tx_info)) [
          | inl k ↦
              rw (e, begin_multi_txs, f, k)
                (begin_child-AllConsistent global_id ibtp_id failed info s a (a global_id info f))
          | inr (_, k) ↦ rw (e, begin_multi_txs, f, k) a
        ]
      ]
    ]
  where
    first : (h : ℕ) (b : Bool) → AllConsistent (if b then s else add_to_timeout_list h global_id s)
    first h true = a
    first h false = rw (add_to_timeout_list-global h global_id s) a
