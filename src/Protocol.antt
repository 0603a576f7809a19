-- ===== src/Protocol.antt =====
-- src/protocol.ts: message kinds, the statuses of acks and tasks, the routed message, the task
-- record, and the fixed limits of the wire protocol.
--
-- The wording of the hub's notices and notes is left out; what they tell is a constructor.
-- `content` is the JSON text of a payload in the source; the model keeps the payload itself
-- (`Content`), which is what `decodeContent` gives back for the text that `encodeContent` made.
-- An absent `hop` is 0, as every reader takes it (`hop ?? 0`).
pub mod Status
pub mod Aggregate
pub mod Ids
mod Tests
use agent_comm_hub.Prelude.{ℕ, String, Option, none, some, List, [], Bool, true, false}
use Status.{TaskStatus, AckStatus}

-- `KINDS`
pub data MessageKind : Type 0 where
  chat task notice ack : MessageKind

-- `BROADCAST`
abbrev pub broadcast : String
broadcast = "all"

-- `HUB_PEER`
abbrev pub hub_peer : String
hub_peer = "hub"

abbrev pub max_hop : ℕ
max_hop = 5

abbrev pub max_reply_chain : ℕ
max_reply_chain = 50

pub record TaskArtifact : Type 0 where
  pub name : String
  pub mime_type : Option String
  pub text : Option String
  pub url : Option String

pub record TaskContent : Type 0 where
  pub prompt : String
  pub context : Option String
  pub deliverable : Option String
  pub timeout_ms : Option ℕ
  pub thread_id : Option String
  pub priority : Option ℕ

pub record AckContent : Type 0 where
  pub status : AckStatus
  pub note : Option String
  pub progress : Option ℕ
  pub artifacts : List TaskArtifact

pub data NoticeLevel : Type 0 where
  info warn error : NoticeLevel

-- Why a message did not reach its reader.
pub data DropReason : Type 0 where
  overflow expired rate dead_letter dead_letter_evicted unregistered : DropReason

-- The text of a notice: a peer's own words, or one that the hub words around the values given.
pub data NoticeText : Type 0 where
  words : String → NoticeText
  messages_lost : DropReason → ℕ → NoticeText
  delivery_lost : String → String → DropReason → NoticeText
  copy_lost : String → String → DropReason → TaskStatus → NoticeText

pub data Content : Type 0 where
  text : String → Content
  task_content : TaskContent → Content
  ack_content : AckContent → Content
  notice_content : NoticeText → NoticeLevel → Content

-- The note of an ack event: a peer's own words, or the hub's account of what happened.
pub data Note : Type 0 where
  said : String → Note
  never_came_back : ℕ → Note
  message_lost : DropReason → Note
  delivery_dropped : DropReason → Note
  timed_out : ℕ → Note

pub record BridgeMessage : Type 0 where
  pub id : String
  pub from : String
  pub to : String
  pub kind : MessageKind
  pub content : Content
  pub ref : Option String
  pub channel : Option String
  pub thread_id : Option String
  pub hop : ℕ
  pub priority : Option ℕ
  pub seq : Option ℕ
  pub expires_at : Option ℕ
  pub ts : ℕ

-- One entry of a timeline. `system` is false where the source leaves the field out.
pub record TaskAckEvent : Type 0 where
  pub from : String
  pub status : AckStatus
  pub note : Option Note
  pub progress : Option ℕ
  pub ts : ℕ
  pub message_id : String
  pub applied : Bool
  pub artifacts : List TaskArtifact
  pub system : Bool

pub record AssigneeState : Type 0 where
  pub peer_id : String
  pub status : TaskStatus
  pub delivered_ms : Option ℕ
  pub acks : List TaskAckEvent

-- An empty `artifacts` stands for the absent field.
pub record TaskRecord : Type 0 where
  pub id : String
  pub from : String
  pub to : String
  pub prompt : String
  pub context : Option String
  pub deliverable : Option String
  pub status : TaskStatus
  pub acks : List TaskAckEvent
  pub artifacts : List TaskArtifact
  pub assignees : List AssigneeState
  pub timeout_ms : Option ℕ
  pub deadline_at : Option ℕ
  pub drop_notified : Option ℕ
  pub thread_id : Option String
  pub created_at : ℕ
  pub updated_at : ℕ

abbrev pub is_task : MessageKind → Bool
is_task MessageKind.task = true
is_task _ = false

abbrev pub is_ack : MessageKind → Bool
is_ack MessageKind.ack = true
is_ack _ = false

abbrev pub is_chat : MessageKind → Bool
is_chat MessageKind.chat = true
is_chat _ = false
