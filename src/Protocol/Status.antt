-- ===== src/Protocol/Status.antt =====
-- src/protocol.ts: the statuses, the transition function of one assignee's row, and the names
-- that A2A has for the statuses.
pub mod Transitions
use agent_comm_hub.Prelude.{Option, none, some, List, [], ◌∷◌, Bool, true, false}

pub data AckStatus : Type 0 where
  accepted working input_required rejected done failed canceled : AckStatus

pub data TaskStatus : Type 0 where
  pending accepted working input_required rejected done failed timeout canceled : TaskStatus

pub data A2ATaskState : Type 0 where
  submitted working input_required completed canceled failed rejected unknown : A2ATaskState

unfoldable pub a2a_state : TaskStatus → A2ATaskState
a2a_state TaskStatus.pending = A2ATaskState.submitted
a2a_state TaskStatus.accepted = A2ATaskState.submitted
a2a_state TaskStatus.working = A2ATaskState.working
a2a_state TaskStatus.input_required = A2ATaskState.input_required
a2a_state TaskStatus.done = A2ATaskState.completed
a2a_state TaskStatus.canceled = A2ATaskState.canceled
a2a_state TaskStatus.failed = A2ATaskState.failed
a2a_state TaskStatus.timeout = A2ATaskState.failed
a2a_state TaskStatus.rejected = A2ATaskState.rejected

-- `CLIENT_ACK_STATUSES.includes(ack)`
abbrev pub is_client_ack_status : AckStatus → Bool
is_client_ack_status AckStatus.canceled = false
is_client_ack_status _ = true

-- `TERMINAL_TASK_STATUSES.includes(status)`
abbrev pub is_terminal : TaskStatus → Bool
is_terminal TaskStatus.rejected = true
is_terminal TaskStatus.done = true
is_terminal TaskStatus.failed = true
is_terminal TaskStatus.timeout = true
is_terminal TaskStatus.canceled = true
is_terminal _ = false

unfoldable pub ack_to_task_status : AckStatus → TaskStatus
ack_to_task_status AckStatus.accepted = TaskStatus.accepted
ack_to_task_status AckStatus.working = TaskStatus.working
ack_to_task_status AckStatus.input_required = TaskStatus.input_required
ack_to_task_status AckStatus.rejected = TaskStatus.rejected
ack_to_task_status AckStatus.done = TaskStatus.done
ack_to_task_status AckStatus.failed = TaskStatus.failed
ack_to_task_status AckStatus.canceled = TaskStatus.canceled

-- An `accepted` must not rewind a row that is further on: it leaves the row where it is.
abbrev keep_unless_forward : TaskStatus → TaskStatus → TaskStatus
keep_unless_forward current TaskStatus.accepted = current
keep_unless_forward current next = next

-- `null` is `none`: the ack must not change the ledger.
unfoldable pub next_task_status : TaskStatus → AckStatus → Option TaskStatus
unfolding ack_to_task_status
next_task_status TaskStatus.pending ack = some (ack_to_task_status ack)
next_task_status TaskStatus.accepted ack = some (ack_to_task_status ack)
next_task_status TaskStatus.working ack =
    some (keep_unless_forward TaskStatus.working (ack_to_task_status ack))
next_task_status TaskStatus.input_required ack =
    some (keep_unless_forward TaskStatus.input_required (ack_to_task_status ack))
next_task_status _ ack = none
