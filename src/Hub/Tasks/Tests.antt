-- ===== src/Hub/Tasks/Tests.antt =====
-- A task for two peers: one failed, and then the deadline passed.
use agent_comm_hub.Prelude.{
  ◌≡◌, ◌≤◌, inl, inr, refl, none, some, [], ◌∷◌, length, arith, List, Perm, All, min, ◌++◌,
}
use agent_comm_hub.Protocol.{AckContent, TaskRecord}
use agent_comm_hub.Protocol.Status.{AckStatus, TaskStatus, next_task_status}
use agent_comm_hub.Protocol.Aggregate.{aggregate_task_status}
use agent_comm_hub.Timeline.{push_ack_event, push_assignee_ack}
use agent_comm_hub.Dict.{get, values}
use agent_comm_hub.Hub.Notes.{published}
use agent_comm_hub.Fixtures.{env, chat_from}
use agent_comm_hub.Hub.State.{AgentHub, TaskTimer, empty_hub}
use agent_comm_hub.Hub.Tasks.Ledger.{acked, timed_out_task, fire_task_timeout, rederived}
use agent_comm_hub.Hub.Tasks.Ledger.Acks.{
  RowsMove, acked-RowsMove, acked_of_outsider, length-acked_artifacts,
}
use agent_comm_hub.Hub.Tasks.Listing.{
  Role, Listing, IsNewestFirst, collect, list_limit, list_tasks, insert_newest, newest_first,
  list_tasks_lem,
}
use agent_comm_hub.Hub.Tasks.Ledger.Deadline.{
  RowsEnd, timed_out_task-RowsEnd, IsOver, fire_task_timeout-IsOver,
}

abbrev task : TaskRecord
task = record {
  id = "t1";
  from = "alice";
  to = "team";
  prompt = "do it";
  context = none;
  deliverable = none;
  status = TaskStatus.working;
  acks = [];
  artifacts = [];
  assignees =
      record { peer_id = "bob"; status = TaskStatus.failed; delivered_ms = none; acks = [] }
      ∷ record { peer_id = "carol"; status = TaskStatus.working; delivered_ms = none; acks = [] }
      ∷ [];
  timeout_ms = some 5;
  deadline_at = some 9;
  drop_notified = none;
  thread_id = none;
  created_at = 4;
  updated_at = 4;
}

abbrev done_ack : AckContent
done_ack = record { status = AckStatus.done; note = none; progress = none; artifacts = [] }

-- The deadline makes the task `timeout`, and an ack that is refused afterwards makes it `failed`.
late_ack_test :
    ((timed_out_task env task).status ≡ TaskStatus.timeout)
    × ((acked (chat_from "carol" "m1" 0) "carol" done_ack (timed_out_task env task)).status
        ≡ TaskStatus.failed)
unfolding acked timed_out_task next_task_status aggregate_task_status push_ack_event
    push_assignee_ack
late_ack_test = (refl, refl)

acked-RowsMove_example :
    RowsMove "carol" task.assignees
      (acked (chat_from "carol" "m1" 0) "carol" done_ack task).assignees
acked-RowsMove_example = acked-RowsMove (chat_from "carol" "m1" 0) "carol" done_ack task

acked_of_outsider_example :
    ((acked (chat_from "bob" "m1" 0) "bob" done_ack task).assignees ≡ task.assignees)
    × ((acked (chat_from "bob" "m1" 0) "bob" done_ack task).artifacts ≡ [])
    × ((acked (chat_from "bob" "m1" 0) "bob" done_ack task).updated_at ≡ 4)
    × ((acked (chat_from "bob" "m1" 0) "bob" done_ack task).status
        ≡ rederived TaskStatus.working task.assignees)
acked_of_outsider_example =
    acked_of_outsider (chat_from "bob" "m1" 0) "bob" done_ack task (inr refl, (inl refl, tt))

length-acked_artifacts_example :
    length (acked (chat_from "carol" "m1" 0) "carol" done_ack task).artifacts ≤ 50
length-acked_artifacts_example =
    length-acked_artifacts (chat_from "carol" "m1" 0) "carol" done_ack task (omega arith)

abbrev waiting : AgentHub
waiting = record empty_hub {
  task_ledger = ("t1", task) ∷ [];
  task_timers = ("t1", TaskTimer.fire_at 9) ∷ [];
}

fire_task_timeout-IsOver_example :
    IsOver (get "t1" (fire_task_timeout env "t1" waiting).task_ledger)
    × (get "t1" (fire_task_timeout env "t1" waiting).task_timers ≡ none)
fire_task_timeout-IsOver_example = fire_task_timeout-IsOver env "t1" waiting

timed_out_task-RowsEnd_example : RowsEnd task.assignees (timed_out_task env task).assignees
timed_out_task-RowsEnd_example = timed_out_task-RowsEnd env task

abbrev later_task : TaskRecord
later_task = record task { id = "t2"; updated_at = 7 }

abbrev busy_hub : AgentHub
busy_hub = record empty_hub { task_ledger = ("t1", task) ∷ ("t2", later_task) ∷ [] }

abbrev latest : Listing
latest = record { peer = some "alice"; role = Role.sent; status = none; limit = some 1 }

latest_test : list_tasks latest busy_hub ≡ published later_task ∷ []
unfolding list_tasks collect newest_first insert_newest get
latest_test = refl

list_tasks_lem_example :
    IsNewestFirst (list_tasks latest busy_hub)
    × (length (list_tasks latest busy_hub)
        ≡ min
            (list_limit (some 1))
            (length (collect latest busy_hub (values busy_hub.task_ledger))))
    × ((rest : List TaskRecord) × Perm
          (list_tasks latest busy_hub ++ rest)
          (collect latest busy_hub (values busy_hub.task_ledger))
        × All (λ t. All (λ u. u.updated_at ≤ t.updated_at) rest) (list_tasks latest busy_hub))
list_tasks_lem_example = list_tasks_lem latest busy_hub
