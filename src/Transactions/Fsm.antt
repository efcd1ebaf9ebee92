-- ===== src/Transactions/Fsm.antt =====
-- TransactionManager.setFSM: the table of transitions that the contract hands to the state machine
-- package, and the status that the call leaves. The package (github.com/looplab/fsm) is a parameter.
use model_lib.Base.{
  ℕ, ◌≡◌, refl, ap, ◌∙◌, Bool, false, ◌&&◌, ◌||◌, List, [], ◌∷◌, Option, none, some, ◌==◌,
  if◌then◌else◌,
}
use model_lib.Transactions.Status.{
  TransactionStatus, TransactionEvent, begin, begin_failure, begin_rollback, success, failure,
  rollback,
}

-- A state of the machine is a text: the name of a status, or "init".
pub data FsmState : Type 0 where
  init : FsmState
  named : TransactionStatus → FsmState

-- fsm.EventDesc
pub record EventDesc : Type 0 where
  pub name : TransactionEvent
  pub src : List FsmState
  pub dst : FsmState

event_code : TransactionEvent → ℕ
event_code TransactionEvent.begin = 0
event_code TransactionEvent.begin_failure = 1
event_code TransactionEvent.timeout = 2
event_code TransactionEvent.failure = 3
event_code TransactionEvent.success = 4
event_code TransactionEvent.rollback = 5
event_code TransactionEvent.dst_rollback = 6
event_code TransactionEvent.dst_failure = 7
event_code TransactionEvent.nameless = 8

-- The number of a status in the protocol.
unfoldable pub status_code : TransactionStatus → ℕ
status_code begin = 0
status_code begin_failure = 1
status_code begin_rollback = 2
status_code success = 3
status_code failure = 4
status_code rollback = 5

unfoldable pub status_eq : TransactionStatus → TransactionStatus → Bool
unfolding status_code
status_eq a b = status_code a == status_code b

state_code : FsmState → ℕ
unfolding status_code
state_code init = 6
state_code (named s) = status_code s

has_state : FsmState → List FsmState → Bool
unfolding state_code
has_state s [] = false
has_state s (x ∷ xs) = state_code x == state_code s || has_state s xs

-- What the package documents of a machine that is built from a table and receives an event: the
-- entry for the event and the current state that stands last in the table gives the next state;
-- without one, or where the state would not change, the call returns an error.
unfoldable pub find_transition : List EventDesc → FsmState → TransactionEvent → Option FsmState
unfolding event_code has_state
find_transition [] s e = none
find_transition (d ∷ ds) s e = elim (find_transition ds s e) [
  | some t ↦ some t
  | none ↦
      if event_code d.name == event_code e && has_state s d.src
      then (if state_code d.dst == state_code s then none else some d.dst)
      else none
]

-- fsm.NewFSM followed by FSM.Event: the new current state, or none for an error.
pub record FsmPackage : Type 0 where
  pub fire : List EventDesc → FsmState → TransactionEvent → Option FsmState
  pub fire_lem :
      (ds : List EventDesc) (s : FsmState) (e : TransactionEvent)
      → fire ds s e ≡ find_transition ds s e

-- fsm.Events in setFSM
unfoldable pub transitions : List EventDesc
transitions =
    record { name = TransactionEvent.begin; src = init ∷ []; dst = named begin }
    ∷ record {
      name = TransactionEvent.begin_failure;
      src = init ∷ named begin ∷ [];
      dst = named begin_failure;
    }
    ∷ record { name = TransactionEvent.timeout; src = named begin ∷ []; dst = named begin_rollback }
    ∷ record { name = TransactionEvent.success; src = named begin ∷ []; dst = named success }
    ∷ record {
      name = TransactionEvent.failure;
      src = named begin ∷ named begin_failure ∷ [];
      dst = named failure;
    }
    ∷ record {
      name = TransactionEvent.rollback;
      src = named begin_rollback ∷ [];
      dst = named rollback;
    }
    ∷ record {
      name = TransactionEvent.failure;
      src = named begin_rollback ∷ [];
      dst = named rollback;
    }
    ∷ record { name = TransactionEvent.dst_failure; src = named begin ∷ []; dst = named failure }
    ∷ record { name = TransactionEvent.dst_rollback; src = named begin ∷ []; dst = named rollback }
    ∷ []

-- The callback: pb.TransactionStatus_value at the current state, 0 for a name that is not there.
unfoldable pub status_value : FsmState → TransactionStatus
status_value init = begin
status_value (named s) = s

abbrev written_status : Option FsmState → Option TransactionStatus
written_status none = none
written_status (some t) = some (unfold status_value in status_value t)

-- setFSM: the status that the callback writes, or none for the error of the call.
unfoldable pub set_fsm :
    FsmPackage → TransactionStatus → TransactionEvent → Option TransactionStatus
unfolding transitions status_value
set_fsm p s e = written_status (p.fire transitions (named s) e)

-- The diagram of the statuses, written out.
unfoldable pub next_status : TransactionStatus → TransactionEvent → Option TransactionStatus
next_status begin TransactionEvent.begin_failure = some begin_failure
next_status begin TransactionEvent.timeout = some begin_rollback
next_status begin TransactionEvent.success = some success
next_status begin TransactionEvent.failure = some failure
next_status begin TransactionEvent.dst_failure = some failure
next_status begin TransactionEvent.dst_rollback = some rollback
next_status begin_failure TransactionEvent.failure = some failure
next_status begin_rollback TransactionEvent.rollback = some rollback
next_status begin_rollback TransactionEvent.failure = some rollback
next_status _ _ = none

diagram :
    (s : TransactionStatus) (e : TransactionEvent)
    → written_status (find_transition transitions (named s) e) ≡ next_status s e
unfolding find_transition transitions status_value next_status
diagram begin TransactionEvent.begin = refl
diagram begin_failure TransactionEvent.begin = refl
diagram begin_rollback TransactionEvent.begin = refl
diagram success TransactionEvent.begin = refl
diagram failure TransactionEvent.begin = refl
diagram rollback TransactionEvent.begin = refl
diagram _ _ = refl

-- The table that the contract hands to the state machine package gives, for every status and event,
-- the step of the diagram next_status, and an error where the diagram has none.
pub set_fsm_lem :
    (p : FsmPackage) (s : TransactionStatus) (e : TransactionEvent)
    → set_fsm p s e ≡ next_status s e
unfolding set_fsm
set_fsm_lem p s e = ap written_status (p.fire_lem transitions (named s) e) ∙ diagram s e
