-- ===== src/Hub/Tasks.antt =====
-- src/hub.ts, the methods on tasks: `sendTask`, `sendAck`, `ackForRunner`, `cancelTask` and
-- `taskInput`. A record of the ledger is read again after each delivery, which may note a dropped
-- copy on it; a delivery changes no row's status, so the rows as a loop finds them tell which of
-- them it has to serve.
pub mod Ledger
pub mod Listing
mod Tests
use agent_comm_hub.Prelude.{
  ℕ, zero, suc, String, str_eq, if◌then◌else◌, Bool, true, false, ◌&&◌, ◌||◌, not, Option, none,
  some, List, [], ◌∷◌, any,
}
use agent_comm_hub.Protocol.{
  BridgeMessage, MessageKind, Content, TaskContent, AckContent, TaskAckEvent, AssigneeState,
  TaskRecord, Note,
}
use agent_comm_hub.Protocol.Status.{AckStatus, TaskStatus, is_terminal}
use agent_comm_hub.Protocol.Aggregate.{aggregate_task_status, is_input_required}
use agent_comm_hub.Timeline.{push_ack_event, push_assignee_ack}
use agent_comm_hub.Dict.{get}
use agent_comm_hub.Hub.State.{Env, AgentHub}
use agent_comm_hub.Hub.Outcome.{M, Error, threw, ◌>>=◌, ◌>>◌, return, modify, throw, refuse_if}
use agent_comm_hub.Hub.Compose.{Draft, compose, dispatch, find_message}
use agent_comm_hub.Hub.Notes.{put_task}
use agent_comm_hub.Hub.Deliver.{deliver_now, route_now}
use agent_comm_hub.Hub.Failing.{with_rows}
use Ledger.{record_task, apply_ack_to_ledger, announce_task}

unfoldable pub send_task :
    Env → String → String → TaskContent → Option String → Option ℕ → M BridgeMessage
send_task env from to task ref expires_at = do
  m ← compose env (record {
    from = from;
    to = to;
    kind = MessageKind.task;
    content = Content.task_content task;
    ref = ref;
    thread_id = task.thread_id;
    expires_at = expires_at;
    system = false;
    priority = task.priority;
  })
  modify (record_task env m task)
  dispatch (deliver_now env) m
  return m

abbrev ack_draft : String → String → Option String → String → Bool → AckContent → Draft
ack_draft from to thread_id ref system ack = record {
  from = from;
  to = to;
  kind = MessageKind.ack;
  content = Content.ack_content ack;
  ref = some ref;
  thread_id = thread_id;
  expires_at = none;
  system = system;
  priority = none;
}

-- The ack goes out, and then into the ledger.
route_ack : Env → String → String → Option String → String → Bool → AckContent → M BridgeMessage
route_ack env from to thread_id ref system ack = do
  m ← route_now env (ack_draft from to thread_id ref system ack)
  modify (apply_ack_to_ledger env m from ref ack)
  return m

abbrev pub has_row : String → TaskRecord → Bool
has_row peer task = any (λ a. str_eq a.peer_id peer) task.assignees

abbrev ack_task : Env → String → String → AckContent → TaskRecord → M BridgeMessage
ack_task env from ref ack task = do
  refuse_if (λ h. not (has_row from task)) Error.not_an_assignee
  route_ack env from task.from task.thread_id ref false ack

abbrev ack_message : Env → String → String → AckContent → Option BridgeMessage → M BridgeMessage
ack_message env from ref ack none = throw Error.unknown_message
ack_message env from ref ack (some m) = route_ack env from m.from m.thread_id ref false ack

unfoldable pub send_ack : Env → String → String → AckContent → M BridgeMessage
unfolding route_ack
send_ack env from ref ack h = elim (get ref h.task_ledger) [
  | none ↦ ack_message env from ref ack (find_message ref h.history_ring) h
  | some task ↦ ack_task env from ref ack task h
]

unfoldable pub ack_for_runner : Env → String → String → AckStatus → Option String → M BridgeMessage
unfolding route_ack
ack_for_runner env peer ref status note h = elim (get ref h.task_ledger) [
  | none ↦ threw Error.unknown_task h
  | some task ↦
      route_ack env peer task.from none ref true
        (record { status = status; note = note; progress = none; artifacts = [] }) h
]

abbrev update_at : ℕ → (AssigneeState → AssigneeState) → List AssigneeState → List AssigneeState
update_at i f [] = []
update_at zero f (a ∷ rows) = f a ∷ rows
update_at (suc i) f (a ∷ rows) = a ∷ update_at i f rows

abbrev change_task : String → (TaskRecord → TaskRecord) → AgentHub → AgentHub
change_task id f h = elim (get id h.task_ledger) [ none ↦ h | some task ↦ put_task id (f task) h ]

abbrev said : Option String → Option Note
said none = none
said (some s) = some (Note.said s)

-- The event of the sender's own word to one row.
abbrev sender_event : AckContent → BridgeMessage → TaskAckEvent
sender_event ack m = record {
  from = m.from;
  status = ack.status;
  note = said ack.note;
  progress = none;
  ts = m.ts;
  message_id = m.id;
  applied = true;
  artifacts = [];
  system = false;
}

abbrev note_row :
    (TaskAckEvent → AssigneeState → AssigneeState) → ℕ → TaskAckEvent → TaskRecord → TaskRecord
note_row change i event task = record (push_ack_event task event) {
  assignees = update_at i (change event) task.assignees;
}

-- The sender tells each wanted row, from index `i` on; the result is the last message.
tell_rows :
    Env
    → TaskRecord
    → AckContent
    → (AssigneeState → Bool)
    → (TaskAckEvent → AssigneeState → AssigneeState)
    → ℕ
    → List AssigneeState
    → Option BridgeMessage
    → M (Option BridgeMessage)
tell_rows env task ack wanted change i [] last h = return last h
tell_rows env task ack wanted change i (a ∷ rows) last h =
    let next = tell_rows env task ack wanted change (suc i) rows in
    if wanted a
    then (do
      m ← route_now env (ack_draft task.from a.peer_id task.thread_id task.id false ack)
      modify (change_task task.id (note_row change i (sender_event ack m)))
      next (some m))
        h
    else next last h

abbrev settle : ℕ → TaskRecord → TaskRecord
settle ts task = with_rows task.assignees ts task

settle_told : Env → String → Option BridgeMessage → M BridgeMessage
settle_told env ref none = throw Error.no_assignee_left
settle_told env ref (some m) = do
  modify (change_task ref (settle m.ts))
  modify (announce_task env ref)
  return m

abbrev cancel_row : TaskAckEvent → AssigneeState → AssigneeState
cancel_row event a = push_assignee_ack (record a { status = TaskStatus.canceled }) event

abbrev cancel_ack : Option String → AckContent
cancel_ack reason = record {
  status = AckStatus.canceled;
  note = reason;
  progress = none;
  artifacts = [];
}

cancel_for_all : Env → String → Option String → TaskRecord → M BridgeMessage
unfolding tell_rows settle_told
cancel_for_all env ref reason task = do
  last ←
      tell_rows env task (cancel_ack reason) (λ a. not (is_terminal a.status)) cancel_row 0
        task.assignees none
  settle_told env ref last

cancel_known : Env → String → String → Option String → TaskRecord → M BridgeMessage
unfolding cancel_for_all
cancel_known env from ref reason task = do
  refuse_if (λ h. not (str_eq from task.from) && not (has_row from task)) Error.not_a_party
  refuse_if (λ h. is_terminal task.status) Error.task_is_over
  λ h.
      if str_eq from task.from
      then cancel_for_all env ref reason task h
      else send_ack env from ref (cancel_ack reason) h

unfoldable pub cancel_task : Env → String → String → Option String → M BridgeMessage
unfolding cancel_known
cancel_task env from ref reason h = elim (get ref h.task_ledger) [
  | none ↦ threw Error.unknown_task h
  | some task ↦ cancel_known env from ref reason task h
]

abbrev answer_row : TaskAckEvent → AssigneeState → AssigneeState
answer_row event a =
    if is_input_required a.status
    then push_assignee_ack (record a { status = TaskStatus.working }) event
    else a

-- The rows that wait for an answer, or all of them if none does.
abbrev is_asked : TaskRecord → AssigneeState → Bool
is_asked task a =
    is_input_required a.status || not (any (λ b. is_input_required b.status) task.assignees)

answer_known : Env → String → String → String → TaskRecord → M BridgeMessage
unfolding tell_rows settle_told
answer_known env from ref input task = do
  refuse_if (λ h. not (str_eq from task.from)) Error.not_a_party
  refuse_if (λ h. is_terminal task.status) Error.task_is_over
  last ←
      tell_rows env task
        (record { status = AckStatus.working; note = some input; progress = none; artifacts = [] })
        (is_asked task) answer_row 0 task.assignees none
  settle_told env ref last

unfoldable pub task_input : Env → String → String → String → M BridgeMessage
unfolding answer_known
task_input env from ref input h = elim (get ref h.task_ledger) [
  | none ↦ threw Error.unknown_task h
  | some task ↦ answer_known env from ref input task h
]
