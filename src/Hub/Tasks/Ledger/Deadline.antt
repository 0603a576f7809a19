-- ===== src/Hub/Tasks/Ledger/Deadline.antt =====
-- What is left of a task whose deadline passed.
use agent_comm_hub.Prelude.{
  ◌⊎◌, List, [], ◌∷◌, map, false, ◌≡◌, refl, String, eq_refl, true, Option, none, some, Bool-cases,
  Option-cases, inl, inr,
}
use agent_comm_hub.Timeline.{push_ack_event, push_assignee_ack}
use agent_comm_hub.Protocol.{TaskRecord, TaskAckEvent, AssigneeState}
use agent_comm_hub.Protocol.Status.{TaskStatus, is_terminal}
use agent_comm_hub.Dict.{get, delete}
use agent_comm_hub.Dict.Laws.{get-set, get-delete}
use agent_comm_hub.Hub.State.{Env, AgentHub}
use agent_comm_hub.Hub.Events.{task_changed, record_event}
use agent_comm_hub.Hub.Timers.{clear_task_timer}
use agent_comm_hub.Hub.Tasks.Ledger.{
  time_out_row, timeout_event, timed_out_task, fire_known, fire_task_timeout,
}

-- The task is over, or the ledger does not know it.
abbrev pub IsOver : Option TaskRecord → Type 0
IsOver none = Unit
IsOver (some task) = is_terminal task.status ≡ true

fire_known-IsOver :
    (env : Env) (id : String) (task : TaskRecord) (h : AgentHub)
    → get id h.task_ledger ≡ some task
    → get id h.task_timers ≡ none
    → let h' = fire_known env id task h in
      IsOver (get id h'.task_ledger) × (get id h'.task_timers ≡ none)
unfolding task_changed record_event clear_task_timer timed_out_task
fire_known-IsOver env id task h e t = elim (Bool-cases (is_terminal task.status)) [
  | inl over ↦ rw (over, e) (over, t)
  | inr going ↦
      rw
        (
          going,
          get-set id id (timed_out_task env task) h.task_ledger,
          get-delete id id h.task_timers,
          eq_refl id,
        )
        (refl, refl)
]

-- When the timer of a task fires, the task is over afterwards, unless the ledger no longer knows
-- it, and no timer of the task is pending.
pub fire_task_timeout-IsOver :
    (env : Env) (id : String) (h : AgentHub)
    → let h' = fire_task_timeout env id h in
      IsOver (get id h'.task_ledger) × (get id h'.task_timers ≡ none)
unfolding fire_task_timeout clear_task_timer
fire_task_timeout-IsOver env id h =
    let cleared : get id (delete id h.task_timers) ≡ none =
      rw (get-delete id id h.task_timers, eq_refl id) refl in
    elim (Option-cases (get id h.task_ledger)) [
      | inl e ↦ rw (e, fire_task_timeout) (rw e tt, cleared)
      | inr (task, e) ↦
          rw (e, fire_task_timeout)
            (fire_known-IsOver env id task (clear_task_timer id h) e cleared)
    ]

-- What the deadline does to one row.
abbrev pub RowEnds : AssigneeState → AssigneeState → Type 0
RowEnds a b =
    (is_terminal b.status ≡ true)
    × (b.peer_id ≡ a.peer_id)
    × ((b ≡ a) ⊎ ((is_terminal a.status ≡ false) × (b.status ≡ TaskStatus.timeout)))

abbrev pub RowsEnd : List AssigneeState → List AssigneeState → Type 0
RowsEnd [] [] = Unit
RowsEnd [] (b ∷ bs) = ⊥
RowsEnd (a ∷ rows) [] = ⊥
RowsEnd (a ∷ rows) (b ∷ bs) = RowEnds a b × RowsEnd rows bs

time_out_row-RowEnds : (event : TaskAckEvent) (a : AssigneeState) → RowEnds a (time_out_row event a)
unfolding push_assignee_ack
time_out_row-RowEnds event a = elim (Bool-cases (is_terminal a.status)) [
  | inl over ↦ rw over (over, refl, inl refl)
  | inr going ↦ rw going (refl, refl, inr (refl, refl))
]

time_out_rows :
    (event : TaskAckEvent) (rows : List AssigneeState)
    → RowsEnd rows (map (time_out_row event) rows)
time_out_rows event [] = tt
time_out_rows event (a ∷ rows) = (time_out_row-RowEnds event a, time_out_rows event rows)

-- A deadline ends every row of the task: an open one becomes `timeout`, and one that had ended is
-- left as it was.
pub timed_out_task-RowsEnd :
    (env : Env) (task : TaskRecord) → RowsEnd task.assignees (timed_out_task env task).assignees
unfolding timed_out_task push_ack_event
timed_out_task-RowsEnd env task = time_out_rows (timeout_event env task) task.assignees
