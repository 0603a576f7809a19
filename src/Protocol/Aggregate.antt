-- ===== src/Protocol/Aggregate.antt =====
-- src/protocol.ts, `aggregateTaskStatus`: the status of a task from the rows of its assignees.
pub mod Weight
use agent_comm_hub.Prelude.{
  List, [], ◌∷◌, map, Bool, true, false, ◌||◌, any, all, filter, if◌then◌else◌,
}
use agent_comm_hub.Protocol.Status.{TaskStatus}

abbrev pub is_pending : TaskStatus → Bool
is_pending TaskStatus.pending = true
is_pending _ = false

abbrev pub is_accepted : TaskStatus → Bool
is_accepted TaskStatus.accepted = true
is_accepted _ = false

abbrev pub is_working : TaskStatus → Bool
is_working TaskStatus.working = true
is_working _ = false

abbrev pub is_input_required : TaskStatus → Bool
is_input_required TaskStatus.input_required = true
is_input_required _ = false

abbrev pub is_done : TaskStatus → Bool
is_done TaskStatus.done = true
is_done _ = false

abbrev pub is_failed : TaskStatus → Bool
is_failed TaskStatus.failed = true
is_failed _ = false

abbrev pub is_timeout : TaskStatus → Bool
is_timeout TaskStatus.timeout = true
is_timeout _ = false

abbrev pub is_canceled : TaskStatus → Bool
is_canceled TaskStatus.canceled = true
is_canceled _ = false

abbrev is_active : TaskStatus → Bool
is_active s = is_pending s || is_accepted s || is_working s

active_status : List TaskStatus → TaskStatus
active_status active =
    if any is_working active
    then TaskStatus.working
    else (if any is_accepted active then TaskStatus.accepted else TaskStatus.pending)

-- What is left when no row is open.
ended_status : List TaskStatus → TaskStatus
ended_status statuses =
    if all is_done statuses
    then TaskStatus.done
    else (if any is_failed statuses
        then TaskStatus.failed
        else (if any is_timeout statuses
            then TaskStatus.timeout
            else (if any is_canceled statuses then TaskStatus.canceled else TaskStatus.rejected)))

abbrev is_nonempty : List TaskStatus → Bool
is_nonempty [] = false
is_nonempty (_ ∷ _) = true

aggregate_nonempty : List TaskStatus → TaskStatus
unfolding active_status ended_status
aggregate_nonempty statuses =
    if any is_input_required statuses
    then TaskStatus.input_required
    else (let active = filter is_active statuses in
        if is_nonempty active then active_status active else ended_status statuses)

-- The source takes the rows; their statuses are all that it reads.
unfoldable pub aggregate_task_status : List TaskStatus → TaskStatus
unfolding aggregate_nonempty
aggregate_task_status [] = TaskStatus.pending
aggregate_task_status (s ∷ ss) = aggregate_nonempty (s ∷ ss)
