-- ===== src/Hub/Tasks/Ledger/Acks.antt =====
-- What an ack does to the record of a task.
use agent_comm_hub.Prelude.{
  ◌-◌, ◌≤◌, ◌≡◌, refl, ◌⊎◌, inl, inr, String, str_eq, true, false, none, some, List, [], ◌∷◌, ◌++◌,
  length, length-drop, arith, Bool-cases, Option-cases, All,
}
use agent_comm_hub.Protocol.{
  BridgeMessage, AckContent, TaskArtifact, TaskAckEvent, AssigneeState, TaskRecord,
}
use agent_comm_hub.Protocol.Status.{AckStatus, TaskStatus, is_terminal, next_task_status}
use agent_comm_hub.Protocol.Status.Transitions.{stage, next-none, next-stage}
use agent_comm_hub.Timeline.{push_assignee_ack, push_ack_event}
use agent_comm_hub.Hub.State.{max_task_artifacts}
use agent_comm_hub.Hub.Notes.{update_row, row_of}
use agent_comm_hub.Hub.Tasks.Ledger.{
  next_of, ack_event, merge_artifacts, apply_next, acked, rederived,
}

-- What an ack of `from` may do to a row: nothing, or, to its own open row, move it on.
abbrev pub RowMoves : String → AssigneeState → AssigneeState → Type 0
RowMoves from a b =
    (b ≡ a)
    ⊎ ((b.peer_id ≡ a.peer_id)
        × (str_eq a.peer_id from ≡ true)
        × (is_terminal a.status ≡ false)
        × (stage a.status ≤ stage b.status))

-- Row by row.
abbrev pub RowsMove : String → List AssigneeState → List AssigneeState → Type 0
RowsMove from [] [] = Unit
RowsMove from [] (b ∷ bs) = ⊥
RowsMove from (a ∷ rows) [] = ⊥
RowsMove from (a ∷ rows) (b ∷ bs) = RowMoves from a b × RowsMove from rows bs

RowsMove-self : (from : String) (rows : List AssigneeState) → RowsMove from rows rows
RowsMove-self from [] = tt
RowsMove-self from (a ∷ rows) = (inl refl, RowsMove-self from rows)

open_of_next :
    (s t : TaskStatus) (a : AckStatus) → next_task_status s a ≡ some t → is_terminal s ≡ false
unfolding next_task_status
open_of_next s t a h = ground arith

moved_row :
    (from : String) (ack : AckStatus) (next : TaskStatus) (event : TaskAckEvent) (a : AssigneeState)
    → str_eq a.peer_id from ≡ true
    → next_task_status a.status ack ≡ some next
    → RowMoves from a (push_assignee_ack (record a { status = next }) event)
unfolding push_assignee_ack
moved_row from ack next event a hit e =
    inr (refl, hit, open_of_next a.status next ack e, next-stage a.status next ack e)

update_row-RowsMove :
    (from : String) (ack : AckStatus) (next : TaskStatus) (event : TaskAckEvent)
    (rows : List AssigneeState)
    → next_of (row_of from rows) ack ≡ some next
    → RowsMove from rows
        (update_row from (λ a. push_assignee_ack (record a { status = next }) event) rows)
update_row-RowsMove from ack next event [] e = tt
update_row-RowsMove from ack next event (a ∷ rows) e = elim (Bool-cases (str_eq a.peer_id from)) [
  | inl hit ↦ rw hit (moved_row from ack next event a hit (rw hit at e), RowsMove-self from rows)
  | inr miss ↦ rw miss (inl refl, update_row-RowsMove from ack next event rows (rw miss at e))
]

-- An ack changes no row but that of the peer it comes from, and that one only while it is open and
-- never to an earlier stage; no row is added, dropped or given to another peer.
pub acked-RowsMove :
    (m : BridgeMessage) (from : String) (ack : AckContent) (task : TaskRecord)
    → RowsMove from task.assignees (acked m from ack task).assignees
unfolding acked apply_next push_ack_event
acked-RowsMove m from ack task =
    elim (Option-cases (next_of (row_of from task.assignees) ack.status)) [
      | inl e ↦ rw e (RowsMove-self from task.assignees)
      | inr (next, e) ↦
          rw e
            (update_row-RowsMove from ack.status next (ack_event m from ack true) task.assignees e)
    ]

next_of_closed :
    (from : String) (ack : AckStatus) (rows : List AssigneeState)
    → All (λ a. (str_eq a.peer_id from ≡ false) ⊎ (is_terminal a.status ≡ true)) rows
    → next_of (row_of from rows) ack ≡ none
next_of_closed from ack [] h = refl
next_of_closed from ack (a ∷ rows) h = elim (Bool-cases (str_eq a.peer_id from)) [
  | inl hit ↦ rw hit (next-none a.status ack (ground (arith, h.0)))
  | inr miss ↦ rw miss (next_of_closed from ack rows h.1)
]

-- An ack of a peer that has no open row on the task leaves the rows, the results and the time of
-- the last change as they are; the status is derived from the rows again.
pub acked_of_outsider :
    (m : BridgeMessage) (from : String) (ack : AckContent) (task : TaskRecord)
    → All (λ a. (str_eq a.peer_id from ≡ false) ⊎ (is_terminal a.status ≡ true)) task.assignees
    → let task' = acked m from ack task in
      (task'.assignees ≡ task.assignees)
      × (task'.artifacts ≡ task.artifacts)
      × (task'.updated_at ≡ task.updated_at)
      × (task'.status ≡ rederived task.status task.assignees)
unfolding acked apply_next push_ack_event
acked_of_outsider m from ack task h =
    rw (next_of_closed from ack.status task.assignees h) (refl, refl, refl, refl)

length-merge_artifacts :
    (old new : List TaskArtifact)
    → length old ≤ max_task_artifacts
    → length (merge_artifacts old new) ≤ max_task_artifacts
unfolding merge_artifacts
length-merge_artifacts old [] h = h
length-merge_artifacts old (a ∷ new) h =
    let merged = old ++ a ∷ new in
    omega (arith, length-drop (length merged - max_task_artifacts) merged)

-- If a task has at most 50 results, it has at most 50 after any ack.
pub length-acked_artifacts :
    (m : BridgeMessage) (from : String) (ack : AckContent) (task : TaskRecord)
    → length task.artifacts ≤ max_task_artifacts
    → length (acked m from ack task).artifacts ≤ max_task_artifacts
unfolding acked apply_next push_ack_event
length-acked_artifacts m from ack task h =
    elim (Option-cases (next_of (row_of from task.assignees) ack.status)) [
      | inl e ↦ rw e h
      | inr (next, e) ↦
          rw e (length-merge_artifacts task.artifacts (ack_event m from ack true).artifacts h)
    ]
