-- ===== src/Hub/Notes.antt =====
-- src/hub.ts: what a delivery writes into the task ledger, `markTaskDelivered`,
-- `noteTaskDeliveryDropped` and `syntheticEventId`. A record of the ledger is read again wherever
-- the source goes on with the object it holds, which is the same object.
pub mod Settles
use agent_comm_hub.Prelude.{
  ℕ, String, str_eq, if◌then◌else◌, Bool, true, false, not, ◌&&◌, ◌||◌, Option, none, some, List,
  [], ◌∷◌, find,
}
use Prim.Native.String
use agent_comm_hub.Protocol.{
  BridgeMessage, TaskRecord, TaskAckEvent, AssigneeState, DropReason, Note, Content, NoticeText,
  NoticeLevel, MessageKind, hub_peer,
}
use agent_comm_hub.Protocol.Status.{AckStatus, is_terminal}
use agent_comm_hub.Timeline.{push_ack_event}
use agent_comm_hub.Dict.{get, set, has}
use agent_comm_hub.Hub.State.{Env, AgentHub}
use agent_comm_hub.Hub.Outcome.{M, ◌>>=◌, ◌>>◌, return, modify}
use agent_comm_hub.Hub.Events.{task_changed}
use agent_comm_hub.Hub.Compose.{Draft, route, is_known}
use agent_comm_hub.Hub.Matching.{is_set}

abbrev event_prefix : DropReason → String
event_prefix DropReason.expired = "expired-"
event_prefix DropReason.dead_letter = "dead-letter-"
event_prefix DropReason.dead_letter_evicted = "evicted-"
event_prefix DropReason.unregistered = "unregistered-"
event_prefix _ = "dropped-"

unfoldable pub synthetic_event_id : String → DropReason → String
synthetic_event_id task_id reason = String.◌++◌ (event_prefix reason) task_id

-- The copy that `taskOf` makes, without the internal mark.
abbrev pub published : TaskRecord → TaskRecord
published task = record task { drop_notified = none }

abbrev pub put_task : String → TaskRecord → AgentHub → AgentHub
put_task id task h = record h { task_ledger = set id task h.task_ledger }

-- Writes the first row of a peer, as `find` returns it.
abbrev pub update_row :
    String → (AssigneeState → AssigneeState) → List AssigneeState → List AssigneeState
update_row peer f [] = []
update_row peer f (a ∷ rows) =
    if str_eq a.peer_id peer then f a ∷ rows else a ∷ update_row peer f rows

abbrev pub row_of : String → List AssigneeState → Option AssigneeState
row_of peer = find (λ a. str_eq a.peer_id peer)

abbrev book : Env → String → String → ℕ → TaskRecord → AgentHub → AgentHub
book env task_id target ts task h =
    let booked = record task {
      assignees = update_row target (λ a. record a { delivered_ms = some ts }) task.assignees;
      updated_at = ts;
    } in
    task_changed env (published booked) (put_task task_id booked h)

mark_row : Env → String → String → ℕ → TaskRecord → Option AssigneeState → AgentHub → AgentHub
unfolding task_changed
mark_row env task_id target ts task none h = h
mark_row env task_id target ts task (some a) h =
    if is_set a.delivered_ms then h else book env task_id target ts task h

unfoldable pub mark_task_delivered : Env → String → String → ℕ → AgentHub → AgentHub
unfolding mark_row
mark_task_delivered env task_id target ts h = elim (get task_id h.task_ledger) [
  | none ↦ h
  | some task ↦ mark_row env task_id target ts task (row_of target task.assignees) h
]

unfoldable drop_event : Env → String → DropReason → TaskRecord → TaskAckEvent
unfolding synthetic_event_id
drop_event env peer reason task = record {
  from = peer;
  status = AckStatus.failed;
  note = some (Note.delivery_dropped reason);
  progress = none;
  ts = env.now;
  message_id = synthetic_event_id task.id reason;
  applied = false;
  artifacts = [];
  system = true;
}

-- The hub's warning to the sender of a task.
unfoldable pub warn_sender : TaskRecord → NoticeText → Draft
warn_sender task text = record {
  from = hub_peer;
  to = task.from;
  kind = MessageKind.notice;
  content = Content.notice_content text NoticeLevel.warn;
  ref = none;
  thread_id = task.thread_id;
  expires_at = none;
  system = true;
  priority = none;
}

-- One warning for each open task whose sender can still be reached.
wants_warning : TaskRecord → AgentHub → Bool
wants_warning task h =
    not (is_terminal task.status) && not (is_set task.drop_notified) && is_known task.from h

note_dropped :
    Env
    → (String → BridgeMessage → M (Unit {0}))
    → String
    → String
    → DropReason
    → TaskRecord
    → M (Unit {0})
note_dropped env deliver task_id peer reason task h =
    let noted = push_ack_event task (drop_event env peer reason task) in
    let warned = record noted { drop_notified = some env.now } in
    if wants_warning task h
    then (do
      route env deliver (warn_sender task (NoticeText.delivery_lost task.id peer reason))
      return tt)
        (put_task task_id warned h)
    else return tt (put_task task_id noted h)

pub note_task_delivery_dropped :
    Env → (String → BridgeMessage → M (Unit {0})) → String → String → DropReason → M (Unit {0})
note_task_delivery_dropped env deliver task_id peer reason h = elim (get task_id h.task_ledger) [
  | none ↦ return tt h
  | some task ↦ note_dropped env deliver task_id peer reason task h
]
