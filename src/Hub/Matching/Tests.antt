-- ===== src/Hub/Matching/Tests.antt =====
-- A wait for the outcome of a task, and a chat of its assignee and of a stranger.
use agent_comm_hub.Prelude.{◌≡◌, refl, true, false, none, some, [], ◌∷◌}
use agent_comm_hub.Protocol.{BridgeMessage, TaskRecord}
use agent_comm_hub.Protocol.Status.{TaskStatus}
use agent_comm_hub.Dict.{Dict, get}
use agent_comm_hub.Fixtures.{chat_from}
use agent_comm_hub.Hub.State.{Waiter}
use agent_comm_hub.Hub.Matching.{matches_waiter, ref_passes, ack_status_of}
use agent_comm_hub.Hub.Matching.Safety.{Answers, AskedOption, matches_waiter_lem}

abbrev waiter : Waiter
waiter = record {
  id = 0;
  started_at = 0;
  due = 100;
  from = none;
  ref = some "t1";
  statuses = none;
  terminal_only = false;
  thread_id = none;
  manual = false;
  batch = false;
}

abbrev task : TaskRecord
task = record {
  id = "t1";
  from = "bob";
  to = "alice";
  prompt = "do it";
  context = none;
  deliverable = none;
  status = TaskStatus.working;
  acks = [];
  artifacts = [];
  assignees =
      record { peer_id = "alice"; status = TaskStatus.working; delivered_ms = none; acks = [] }
      ∷ [];
  timeout_ms = none;
  deadline_at = none;
  drop_notified = none;
  thread_id = none;
  created_at = 4;
  updated_at = 4;
}

abbrev ledger : Dict TaskRecord
ledger = ("t1", task) ∷ []

abbrev answer : BridgeMessage
answer = record (chat_from "alice" "m1" 0) { ref = some "t1" }

matches-answer : matches_waiter waiter answer ledger ≡ true
unfolding matches_waiter ref_passes ack_status_of get
matches-answer = refl

knows_task : get "t1" ledger ≡ some task
unfolding get
knows_task = refl

stranger_test :
    matches_waiter waiter (record (chat_from "mallory" "m2" 0) { ref = some "t1" }) ledger ≡ false
unfolding matches_waiter ref_passes ack_status_of get
stranger_test = refl

matches_waiter_lem_example : Answers waiter "t1" task answer × AskedOption none none
matches_waiter_lem_example =
    matches_waiter_lem waiter answer ledger "t1" task refl knows_task matches-answer
