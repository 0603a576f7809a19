-- ===== src/Hub/Matching.antt =====
-- src/hub.ts: `ackStatusOf` and `matchesWaiter`, the filter of a waiter.
pub mod Safety
mod Tests
use agent_comm_hub.Prelude.{
  String, str_eq, opt_str_eq, if◌then◌else◌, Bool, true, false, not, ◌&&◌, ◌||◌, Option, none, some,
  List, any,
}
use agent_comm_hub.Protocol.{BridgeMessage, TaskRecord, Content, hub_peer, is_ack, is_chat}
use agent_comm_hub.Protocol.Status.{AckStatus, is_terminal, ack_to_task_status}
use agent_comm_hub.Dict.{Dict, get}
use agent_comm_hub.Hub.State.{Waiter}

abbrev pub ack_eq : AckStatus → AckStatus → Bool
ack_eq AckStatus.accepted AckStatus.accepted = true
ack_eq AckStatus.working AckStatus.working = true
ack_eq AckStatus.input_required AckStatus.input_required = true
ack_eq AckStatus.rejected AckStatus.rejected = true
ack_eq AckStatus.done AckStatus.done = true
ack_eq AckStatus.failed AckStatus.failed = true
ack_eq AckStatus.canceled AckStatus.canceled = true
ack_eq _ _ = false

abbrev pub content_status : Content → Option AckStatus
content_status (Content.ack_content a) = some a.status
content_status _ = none

unfoldable pub ack_status_of : BridgeMessage → Option AckStatus
ack_status_of m = if is_ack m.kind then content_status m.content else none

-- The sender of the task or one of its assignees.
abbrev pub is_party : String → TaskRecord → Bool
is_party peer task = str_eq task.from peer || any (λ a. str_eq a.peer_id peer) task.assignees

-- A ref that the ledger does not know has nobody to check against.
abbrev pub party_allows : String → Option TaskRecord → Bool
party_allows sender none = true
party_allows sender (some task) = is_party sender task

abbrev pub lists_status : Option (List AckStatus) → AckStatus → Bool
lists_status none s = true
lists_status (some ss) s = any (ack_eq s) ss

abbrev pub status_passes : Waiter → Option AckStatus → Bool
status_passes w none = false
status_passes w (some s) =
    lists_status w.statuses s && (not w.terminal_only || is_terminal (ack_to_task_status s))

abbrev pub is_set {ℓ} : {A : Type ℓ} → Option A → Bool
is_set none = false
is_set (some a) = true

abbrev pub sender_passes : Option String → BridgeMessage → Bool
sender_passes none m = true
sender_passes (some f) m = str_eq m.from f

ref_passes : Waiter → Option String → BridgeMessage → Dict TaskRecord → Bool
unfolding ack_status_of
ref_passes w none m ledger = true
ref_passes w (some r) m ledger =
    opt_str_eq m.ref (some r)
    && (is_ack m.kind || is_chat m.kind)
    && (not (is_chat m.kind) || party_allows m.from (get r ledger))
    && (not (is_set w.statuses || w.terminal_only) || status_passes w (ack_status_of m))

abbrev pub thread_passes : Option String → BridgeMessage → Bool
thread_passes none m = true
thread_passes (some t) m = opt_str_eq m.thread_id (some t)

unfoldable pub matches_waiter : Waiter → BridgeMessage → Dict TaskRecord → Bool
unfolding ref_passes
matches_waiter w m ledger =
    (str_eq m.from hub_peer || (sender_passes w.from m && ref_passes w w.ref m ledger))
    && thread_passes w.thread_id m
