-- ===== src/Governance/Thresholds.antt =====
-- The numbers of votes that MakeStrategyDecision of internal/repo/repo.go asks for, and the end of a
-- vote in countVote of internal/executor/contracts/governance.go.
use model_lib.Base.{
  ℕ, zero, suc, ◌+◌, ◌-◌, ◌≤◌, ◌<◌, ◌==◌, ◌≡◌, ◌↔◌, sym, ap, subst, String, Bool, true, false, leb,
  arith, inl, inr, Bool-cases, ==_iff,
}
use model_lib.Governance.State.{Reply, ok}
use model_lib.Governance.Strategy.{
  Evaluate, make_strategy_decision, threshold_from, get_cur_threshold_approve_num,
}
use model_lib.Governance.Counting.{Reply-cases}

-- With so many votes in favour the proposal passes, or does not pass without a failed evaluation.
unfoldable pub Passes : Reply (Bool × Bool) → Type 0
Passes r = (over : Bool) × (r ≡ ok (over, true))

unfoldable pub FallsShort : Reply (Bool × Bool) → Type 0
FallsShort r = (over : Bool) × (r ≡ ok (over, false))

module _ (evaluate : Evaluate) (expression : String) (r total available : ℕ) where
  abbrev decision : ℕ → Reply (Bool × Bool)
  decision a = make_strategy_decision evaluate expression a r total available

  -- `n` is the first number from `a` on that passes, and at most `total`.
  unfoldable pub IsThreshold : ℕ → ℕ → Type 0
  unfolding Passes FallsShort make_strategy_decision
  IsThreshold a n =
      a ≤ n × n ≤ total × Passes (decision n) × ((m : ℕ) → a ≤ m → m < n → FallsShort (decision m))

  from-IsThreshold :
      (rounds a n : ℕ)
      → a + rounds ≡ total + 1
      → threshold_from evaluate rounds expression a r total available ≡ ok n
      → IsThreshold a n
  unfolding IsThreshold threshold_from Passes FallsShort
  from-IsThreshold zero a n b h = absurd (ground (arith, h))
  from-IsThreshold (suc k) a n b h = elim (Reply-cases (decision a)) [
    | inr (inl (_, e)) ↦ absurd (ground (arith, h, e))
    | inr (inr e) ↦ absurd (ground (arith, h, e))
    | inl ((o, true), e) ↦
        let same : a ≡ n = ground (arith, h, e) in
        subst (λ x. IsThreshold a x) same
          (omega arith, omega arith, (o, e), λ m l g. absurd (omega (arith, l, g)))
    | inl ((o, false), e) ↦
        let rest : threshold_from evaluate k expression (a + 1) r total available ≡ ok n =
          ground (arith, h, e) in
        let (low, high, passes, short) = from-IsThreshold k (a + 1) n (omega arith) rest in
        (
          omega arith,
          high,
          passes,
          λ m l g. elim (Bool-cases (a == m)) [
            | inl s ↦ subst (λ x. FallsShort (decision x)) ((==_iff a m).0 s) (o, e)
            | inr s ↦ short m (ground arith) g
          ],
        )
  ]

  IsThreshold-from :
      (rounds a n : ℕ)
      → a + rounds ≡ total + 1
      → IsThreshold a n
      → threshold_from evaluate rounds expression a r total available ≡ ok n
  unfolding IsThreshold threshold_from Passes FallsShort
  IsThreshold-from zero a n b (low, high, passes, short) = absurd (omega (arith, b, low, high))
  IsThreshold-from (suc k) a n b (low, high, passes, short) = elim (Bool-cases (a == n)) [
    | inl s ↦
        let same : a ≡ n = (==_iff a n).0 s in
        let passes' : Passes (decision a) = subst (λ x. Passes (decision x)) (sym same) passes in
        rw (threshold_from, passes'.1) (ap ok same)
    | inr s ↦
        let below = short a (omega arith) (ground (arith, s, low)) in
        rw (threshold_from, below.1)
          (IsThreshold-from k (a + 1) n (omega arith)
            (ground (arith, s, low), high, passes, λ m l g. short m (omega (arith, l)) g))
  ]

  -- The number that getCurThresholdApproveNum returns is the least one, from the votes in favour so far
  -- and at most the number of electors, with which the proposal passes, and it returns this number
  -- wherever there is one and no evaluation below it fails.
  pub get_cur_threshold_lem :
      (a n : ℕ)
      → (get_cur_threshold_approve_num evaluate expression a r total available ≡ ok n)
        ↔ IsThreshold a n
  unfolding get_cur_threshold_approve_num
  get_cur_threshold_lem a n = elim (Bool-cases (leb a total)) [
    | inl s ↦
        let rounds : a + (total + 1 - a) ≡ total + 1 = ground (arith, s) in
        (from-IsThreshold _ a n rounds, IsThreshold-from _ a n rounds)
    | inr s ↦ (
      λ e. absurd (ground (arith, s, e)),
      λ t. absurd (unfold IsThreshold in omega (arith, t.0, t.1, above s)),
    )
  ]
    where
      above : leb a total ≡ false → total < a
      above s = ground (arith, s)
