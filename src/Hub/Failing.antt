-- ===== src/Hub/Failing.antt =====
-- src/hub.ts, the drops that end a task for a peer that can never pick it up again:
-- `failTaskForGoneAssignee`, `failTaskForDroppedMessage` and `notifyTaskEnded`.
use agent_comm_hub.Prelude.{
  ℕ, String, if◌then◌else◌, Bool, true, false, ◌&&◌, not, Option, none, some, List, [], map,
}
use agent_comm_hub.Protocol.{
  BridgeMessage, TaskRecord, TaskAckEvent, AssigneeState, DropReason, Note, NoticeText,
}
use agent_comm_hub.Protocol.Status.{AckStatus, TaskStatus, is_terminal}
use agent_comm_hub.Protocol.Aggregate.{aggregate_task_status}
use agent_comm_hub.Timeline.{push_ack_event, push_assignee_ack}
use agent_comm_hub.Dict.{get}
use agent_comm_hub.Hub.State.{Env}
use agent_comm_hub.Hub.Outcome.{M, ◌>>◌, return}
use agent_comm_hub.Hub.Events.{task_changed}
use agent_comm_hub.Hub.Compose.{is_known}
use agent_comm_hub.Hub.Notes.{
  synthetic_event_id, published, put_task, row_of, update_row, warn_sender,
}
use agent_comm_hub.Hub.Deliver.{route_now}
use agent_comm_hub.Hub.Timers.{realign_task_timer}

abbrev pub row_statuses : List AssigneeState → List TaskStatus
row_statuses = map λ a. a.status

-- `record.status = aggregateTaskStatus(record.assignees)` with the rows given anew.
unfoldable pub with_rows : List AssigneeState → ℕ → TaskRecord → TaskRecord
with_rows rows now task = record task {
  assignees = rows;
  status = aggregate_task_status (row_statuses rows);
  updated_at = now;
}

unfoldable notify_task_ended : Env → TaskRecord → NoticeText → M (Unit {0})
notify_task_ended env task text h =
    if is_known task.from h
    then (do route_now env (warn_sender task text); return tt) h
    else return tt h

unfoldable failure : Env → String → String → Note → DropReason → TaskAckEvent
failure env task_id peer note reason = record {
  from = peer;
  status = AckStatus.failed;
  note = some note;
  progress = none;
  ts = env.now;
  message_id = synthetic_event_id task_id reason;
  applied = true;
  artifacts = [];
  system = true;
}

-- The row of the peer fails; `unbook` also takes back the booking of its delivery.
unfoldable fail_row : Bool → TaskAckEvent → AssigneeState → AssigneeState
fail_row unbook event a =
    push_assignee_ack
      (record a {
        status = TaskStatus.failed;
        delivered_ms = if unbook then none else a.delivered_ms;
      })
      event

unfoldable failed_task : Env → Bool → String → TaskAckEvent → TaskRecord → TaskRecord
failed_task env unbook peer event task =
    with_rows (update_row peer (fail_row unbook event) task.assignees) env.now
      (push_ack_event task event)

abbrev row_is_open : Option AssigneeState → Bool
row_is_open none = false
row_is_open (some a) = not (is_terminal a.status)

unfoldable fail_known : Env → Bool → String → String → Note → DropReason → TaskRecord → M (Unit {0})
fail_known env unbook id peer note reason task h =
    if not (is_terminal task.status) && row_is_open (row_of peer task.assignees)
    then (let failed = failed_task env unbook peer (failure env id peer note reason) task in
        notify_task_ended env failed (NoticeText.copy_lost id peer reason failed.status) (
          task_changed env (published failed)
            (realign_task_timer env failed (put_task id failed h))))
    else return tt h

unfoldable fail_task : Env → Bool → String → String → Note → DropReason → M (Unit {0})
fail_task env unbook id peer note reason h = elim (get id h.task_ledger) [
  | none ↦ return tt h
  | some task ↦ fail_known env unbook id peer note reason task h
]

-- The parked mailbox of the peer expired with the task inside.
unfoldable pub fail_task_for_gone_assignee : Env → String → String → ℕ → M (Unit {0})
unfolding fail_task fail_known failed_task failure notify_task_ended fail_row
fail_task_for_gone_assignee env id peer ttl =
    fail_task env false id peer (Note.never_came_back ttl) DropReason.expired

-- The peer left, or its last copy of the task was evicted from the dead letters.
unfoldable pub fail_task_for_dropped_message :
    Env → BridgeMessage → String → DropReason → M (Unit {0})
unfolding fail_task fail_known failed_task failure notify_task_ended fail_row
fail_task_for_dropped_message env m peer reason =
    fail_task env true m.id peer (Note.message_lost reason) reason
