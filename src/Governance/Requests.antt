-- ===== src/Governance/Requests.antt =====
-- The calls that change the proposals of internal/executor/contracts/governance.go, as one step.
use model_lib.Base.{ℕ, String}
use model_lib.Governance.State.{EventType, EndReason, Proposals, Calling, Offices}
use model_lib.Governance.Strategy.{Evaluate}
use model_lib.Governance.Handlers.{
  zero_permission_end, withdraw_proposal, end_obj_proposal, lock_low_priority, unlock_low_priority,
}
use model_lib.Governance.Ballots.{
  Submission, submit_proposal, vote, update_available_electorate_num,
}

pub data Request : Type 0 where
  submitting : Submission → Request
  zero_permission_of : String → Request
  withdrawing : String → String → Request
  ending_obj : String → EndReason → String → Request
  voting : String → String → String → Request
  locking unlocking : String → EventType → Request
  resizing : String → ℕ → Request

-- The store after a call
unfoldable pub handle : Evaluate → Offices → Calling → Request → Proposals → Proposals
unfolding submit_proposal zero_permission_end withdraw_proposal end_obj_proposal vote
    lock_low_priority unlock_low_priority update_available_electorate_num
handle evaluate o c (submitting m) s = (submit_proposal evaluate o c m s).0
handle evaluate o c (zero_permission_of id) s = (zero_permission_end o c id s).0
handle evaluate o c (withdrawing id why) s = (withdraw_proposal o c id why s).0
handle evaluate o c (ending_obj obj why extra) s = (end_obj_proposal o c obj why extra s).0
handle evaluate o c (voting id ballot why) s = (vote evaluate o c id ballot why s).0
handle evaluate o c (locking obj event) s = (lock_low_priority o c obj event s).0
handle evaluate o c (unlocking obj event) s = (unlock_low_priority o c obj event s).0
handle evaluate o c (resizing id num) s = (update_available_electorate_num evaluate o c id num s).0
