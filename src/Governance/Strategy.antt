-- ===== src/Governance/Strategy.antt =====
-- MakeStrategyDecision and CheckManageModule of internal/repo/repo.go, and getCurThresholdApproveNum of
-- internal/executor/contracts/governance.go. The evaluation of an expression (github.com/Knetic/govaluate)
-- is a parameter.
use model_lib.Base.{
  ℕ, zero, suc, ◌+◌, ◌-◌, String, Bool, true, false, leb, if◌then◌else◌, uint64_mod,
}
use model_lib.Governance.State.{ProposalType, other_module, Reply, ok, err, panicked, internal_err}

-- The value of an expression for the numbers of votes in favour, of votes against and of all votes.
pub data Value : Type 0 where
  no_value not_a_bool : Value
  holds : Bool → Value

abbrev pub Evaluate : Type 0
Evaluate = String → ℕ → ℕ → ℕ → Value

-- a - b on uint64
unfoldable pub sub_uint64 : ℕ → ℕ → ℕ
sub_uint64 a b = if leb b a then a - b else a + uint64_mod - b

module _ (evaluate : Evaluate) where
  -- MakeStrategyDecision: whether the vote is over, and whether the proposal has passed. An expression
  -- that is no expression has no value.
  unfoldable pub make_strategy_decision : String → ℕ → ℕ → ℕ → ℕ → Reply (Bool × Bool)
  unfolding sub_uint64
  make_strategy_decision expression a r total available = elim (evaluate expression a r total) [
    | no_value ↦ err internal_err
    | not_a_bool ↦ err internal_err
    | holds true ↦ ok (true, true)
    | holds false ↦ elim (evaluate expression (sub_uint64 available r) r total) [
      | no_value ↦ err internal_err
      | not_a_bool ↦ panicked
      | holds true ↦ ok (false, false)
      | holds false ↦ ok (true, false)
    ]
  ]

  -- The loop of getCurThresholdApproveNum, with the rounds left and the number that is tried.
  unfoldable pub threshold_from : ℕ → String → ℕ → ℕ → ℕ → ℕ → Reply ℕ
  unfolding make_strategy_decision
  threshold_from zero expression n r total available = err internal_err
  threshold_from (suc rounds) expression n r total available =
      elim (make_strategy_decision expression n r total available) [
        | err e ↦ err e
        | panicked ↦ panicked
        | ok (_, true) ↦ ok n
        | ok (_, false) ↦ threshold_from rounds expression (n + 1) r total available
      ]

  -- getCurThresholdApproveNum: the loop tries the numbers from `a` to `total`.
  unfoldable pub get_cur_threshold_approve_num : String → ℕ → ℕ → ℕ → ℕ → Reply ℕ
  unfolding threshold_from
  get_cur_threshold_approve_num expression a r total available =
      threshold_from (total + 1 - a) expression a r total available

-- CheckManageModule
unfoldable pub check_manage_module : ProposalType → Bool
check_manage_module (other_module _) = false
check_manage_module _ = true
