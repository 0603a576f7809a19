-- ===== src/Hub/Tasks/Ledger.antt =====
-- src/hub.ts, the task ledger: `resolveAssignees`, `recordTask`, `evictOverflowTasks`,
-- `applyAckToLedger`, `fireTaskTimeout` and `taskOf`.
pub mod Acks
pub mod Deadline
use agent_comm_hub.Prelude.{
  ℕ, zero, suc, ◌+◌, ◌-◌, min, max, String, str_eq, ltb, leb, if◌then◌else◌, Bool, true, false,
  ◌&&◌, ◌||◌, not, Option, none, some, List, [], ◌∷◌, ◌++◌, map, length, take, drop, any, filter,
  or_default,
}
use Prim.Native.String
use agent_comm_hub.Protocol.{
  BridgeMessage, TaskContent, AckContent, TaskArtifact, TaskAckEvent, AssigneeState, TaskRecord,
  Note, broadcast,
}
use agent_comm_hub.Protocol.Status.{AckStatus, TaskStatus, is_terminal, next_task_status}
use agent_comm_hub.Protocol.Aggregate.{aggregate_task_status}
use agent_comm_hub.Timeline.{push_ack_event, push_assignee_ack}
use agent_comm_hub.Dict.{Dict, get, set, delete, values}
use agent_comm_hub.Hub.State.{Env, AgentHub, GroupState, TaskTimer, max_tasks, max_task_artifacts}
use agent_comm_hub.Hub.Events.{task_changed}
use agent_comm_hub.Hub.Compose.{audience}
use agent_comm_hub.Hub.Notes.{published, put_task, update_row, row_of}
use agent_comm_hub.Hub.Timers.{schedule_task_timeout, clear_task_timer}
use agent_comm_hub.Hub.Failing.{row_statuses}

abbrev others : String → Option GroupState → String → List String
others to none from = to ∷ []
others to (some g) from = filter (λ m. not (str_eq m from)) g.members

unfoldable pub resolve_assignees : String → String → AgentHub → List String
resolve_assignees from to h =
    if str_eq to broadcast
    then filter (λ p. not (str_eq p from)) (audience h)
    else others to (get to h.groups) from

abbrev new_row : String → AssigneeState
new_row peer = record {
  peer_id = peer;
  status = TaskStatus.pending;
  delivered_ms = none;
  acks = [];
}

-- A timeout of 0 is no timeout.
abbrev positive : Option ℕ → Option ℕ
positive none = none
positive (some t) = if ltb 0 t then some t else none

abbrev deadline : ℕ → Option ℕ → Option ℕ
deadline now none = none
deadline now (some t) = some (now + t)

unfoldable pub new_task : BridgeMessage → TaskContent → List String → TaskRecord
new_task m task ids = record {
  id = m.id;
  from = m.from;
  to = m.to;
  prompt = task.prompt;
  context = task.context;
  deliverable = task.deliverable;
  status = TaskStatus.pending;
  acks = [];
  artifacts = [];
  assignees = map new_row ids;
  timeout_ms = positive task.timeout_ms;
  deadline_at = deadline m.ts (positive task.timeout_ms);
  drop_notified = none;
  thread_id = m.thread_id;
  created_at = m.ts;
  updated_at = m.ts;
}

-- `sort((a, b) => a.updatedAt - b.updatedAt)`, which is stable.
abbrev insert_stalest : TaskRecord → List TaskRecord → List TaskRecord
insert_stalest t [] = t ∷ []
insert_stalest t (u ∷ us) =
    if leb t.updated_at u.updated_at then t ∷ u ∷ us else u ∷ insert_stalest t us

stalest_first : List TaskRecord → List TaskRecord
stalest_first [] = []
stalest_first (t ∷ ts) = insert_stalest t (stalest_first ts)

forget_tasks : List TaskRecord → AgentHub → AgentHub
forget_tasks [] h = h
forget_tasks (t ∷ ts) h =
    let h1 = clear_task_timer t.id h in
    forget_tasks ts (record h1 { task_ledger = delete t.id h1.task_ledger })

unfoldable pub evict_overflow_tasks : AgentHub → AgentHub
unfolding forget_tasks stalest_first
evict_overflow_tasks h =
    let ended = filter (λ t. is_terminal t.status) (values h.task_ledger) in
    forget_tasks (take (length h.task_ledger - max_tasks) (stalest_first ended)) h

-- `taskOf(id)`, the copy without the internal mark.
abbrev pub task_of : String → AgentHub → Option TaskRecord
task_of id h = elim (get id h.task_ledger) [ none ↦ none | some task ↦ some (published task) ]

-- `this.taskChanged(this.taskOf(id)!)`
abbrev announce : Env → Option TaskRecord → AgentHub → AgentHub
announce env none h = h
announce env (some task) h = task_changed env task h

unfoldable pub announce_task : Env → String → AgentHub → AgentHub
announce_task env id h = announce env (task_of id h) h

unfoldable pub record_task : Env → BridgeMessage → TaskContent → AgentHub → AgentHub
unfolding resolve_assignees new_task evict_overflow_tasks announce_task
record_task env m task h =
    let row = new_task m task (resolve_assignees m.from m.to h) in
    announce_task env m.id
      (evict_overflow_tasks (schedule_task_timeout env row (put_task m.id row h)))

-- What an ack makes of the row of its sender; `none` for no row, or one that refuses it.
abbrev next_of : Option AssigneeState → AckStatus → Option TaskStatus
next_of none ack = none
next_of (some a) ack = next_task_status a.status ack

abbrev pub is_applied : Option TaskStatus → Bool
is_applied none = false
is_applied (some _) = true

abbrev said : Option String → Option Note
said none = none
said (some s) = some (Note.said s)

-- `Math.max(0, Math.min(100, ack.progress))`
abbrev clamp_progress : Option ℕ → Option ℕ
clamp_progress none = none
clamp_progress (some p) = some (min 100 p)

unfoldable pub ack_event : BridgeMessage → String → AckContent → Bool → TaskAckEvent
ack_event m from ack applied = record {
  from = from;
  status = ack.status;
  note = said ack.note;
  progress = clamp_progress ack.progress;
  ts = m.ts;
  message_id = m.id;
  applied = applied;
  artifacts = ack.artifacts;
  system = false;
}

-- Newest wins.
unfoldable pub merge_artifacts : List TaskArtifact → List TaskArtifact → List TaskArtifact
merge_artifacts old [] = old
merge_artifacts old (a ∷ new) =
    let merged = old ++ a ∷ new in drop (length merged - max_task_artifacts) merged

-- `if (record.assignees.length > 0) record.status = aggregateTaskStatus(record.assignees)`
abbrev pub rederived : TaskStatus → List AssigneeState → TaskStatus
rederived status [] = status
rederived status (a ∷ rows) = aggregate_task_status (row_statuses (a ∷ rows))

-- The record after an ack that is not applied, which only joins the timeline, and after one that
-- moves the sender's row to `next`.
apply_next : TaskAckEvent → String → Option TaskStatus → TaskRecord → TaskRecord
apply_next event from none task = record (push_ack_event task event) {
  status = rederived task.status task.assignees;
}
apply_next event from (some next) task =
    let rows =
      update_row from (λ a. push_assignee_ack (record a { status = next }) event) task.assignees in
    record (push_ack_event task event) {
      artifacts = merge_artifacts task.artifacts event.artifacts;
      assignees = rows;
      status = rederived task.status rows;
      updated_at = event.ts;
    }

unfoldable pub acked : BridgeMessage → String → AckContent → TaskRecord → TaskRecord
unfolding ack_event apply_next
acked m from ack task =
    let next = next_of (row_of from task.assignees) ack.status in
    apply_next (ack_event m from ack (is_applied next)) from next task

abbrev clear_if_over : TaskRecord → AgentHub → AgentHub
clear_if_over task h = if is_terminal task.status then clear_task_timer task.id h else h

unfoldable pub apply_ack_to_ledger :
    Env → BridgeMessage → String → String → AckContent → AgentHub → AgentHub
unfolding acked
apply_ack_to_ledger env m from ref ack h = elim (get ref h.task_ledger) [
  | none ↦ h
  | some task ↦
      let task' = acked m from ack task in
      task_changed env (published task') (clear_if_over task' (put_task ref task' h))
]

timeout_event : Env → TaskRecord → TaskAckEvent
timeout_event env task = record {
  from = task.to;
  status = AckStatus.failed;
  note = some (Note.timed_out (or_default task.timeout_ms 0));
  progress = none;
  ts = env.now;
  message_id = String.◌++◌ "timeout-" task.id;
  applied = true;
  artifacts = [];
  system = true;
}

abbrev time_out_row : TaskAckEvent → AssigneeState → AssigneeState
time_out_row event a =
    if is_terminal a.status
    then a
    else push_assignee_ack (record a { status = TaskStatus.timeout }) event

unfoldable pub timed_out_task : Env → TaskRecord → TaskRecord
unfolding timeout_event
timed_out_task env task = record (push_ack_event task (timeout_event env task)) {
  assignees = map (time_out_row (timeout_event env task)) task.assignees;
  status = TaskStatus.timeout;
  updated_at = env.now;
}

abbrev fire_known : Env → String → TaskRecord → AgentHub → AgentHub
fire_known env id task h =
    if is_terminal task.status
    then h
    else task_changed env (published (timed_out_task env task))
        (clear_task_timer id (put_task id (timed_out_task env task) h))

unfoldable pub fire_task_timeout : Env → String → AgentHub → AgentHub
unfolding timed_out_task
fire_task_timeout env id h = elim (get id h.task_ledger) [
  | none ↦ clear_task_timer id h
  | some task ↦ fire_known env id task (clear_task_timer id h)
]

-- A pending timer of a task is due: it fires, or arms the next segment.
abbrev rearm : Env → Option TaskRecord → AgentHub → AgentHub
rearm env none h = h
rearm env (some task) h = schedule_task_timeout env task h

due : Env → String → Option TaskTimer → AgentHub → AgentHub
due env id none h = h
due env id (some (TaskTimer.fire_at _)) h = fire_task_timeout env id h
due env id (some (TaskTimer.rearm_at _)) h = rearm env (get id h.task_ledger) h

unfoldable pub task_timer_due : Env → String → AgentHub → AgentHub
unfolding due fire_task_timeout
task_timer_due env id h = due env id (get id h.task_timers) h
