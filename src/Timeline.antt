-- ===== src/Timeline.antt =====
-- src/hub.ts, the bounded ack timelines of a task: `trimAcks`, `pushAckEvent` and
-- `pushAssigneeAck`. The `while` loop of `trimAcks` runs on fuel, one unit for each event: a round
-- removes one event, so the loop ends by its test (Timeline/Bounds).
pub mod Bounds
mod Tests
use agent_comm_hub.Prelude.{
  ℕ, zero, suc, ltb, if◌then◌else◌, Bool, true, false, not, ◌&&◌, Option, none, some, List, [], ◌∷◌,
  ◌++◌, length, remove_at, find_index,
}
use agent_comm_hub.Protocol.{TaskAckEvent, TaskRecord, AssigneeState}

-- `MAX_TASK_ACKS`
abbrev pub max_task_acks : ℕ
max_task_acks = 200

-- A rejection that a peer caused, which moved no ledger state.
abbrev is_rejection : TaskAckEvent → Bool
is_rejection e = not e.system && not e.applied

abbrev is_from_peer : TaskAckEvent → Bool
is_from_peer e = not e.system

-- `victim` when no rejection is left, then when no event of a peer is left.
abbrev fallback_victim : Option ℕ → ℕ
fallback_victim none = 0
fallback_victim (some i) = i

abbrev choose_victim : Option ℕ → List TaskAckEvent → ℕ
choose_victim (some i) events = i
choose_victim none events = fallback_victim (find_index is_from_peer events)

victim : List TaskAckEvent → ℕ
victim events = choose_victim (find_index is_rejection events) events

trim : ℕ → List TaskAckEvent → List TaskAckEvent
trim zero events = events
trim (suc fuel) events =
    let rest = trim fuel (remove_at (victim events) events) in
    if ltb max_task_acks (length events) then rest else events

unfoldable pub trim_acks : List TaskAckEvent → List TaskAckEvent
unfolding trim victim
trim_acks events = trim (length events) events

unfoldable pub push_ack_event : TaskRecord → TaskAckEvent → TaskRecord
push_ack_event task event = record task { acks = trim_acks (task.acks ++ event ∷ []) }

unfoldable pub push_assignee_ack : AssigneeState → TaskAckEvent → AssigneeState
push_assignee_ack assignee event = record assignee {
  acks = trim_acks (assignee.acks ++ event ∷ []);
}
