-- ===== src/Hub/Compose/Tests.antt =====
-- Composing a chat.
use agent_comm_hub.Prelude.{◌≤◌, ◌≡◌, none, some, length, false}
use agent_comm_hub.Protocol.{MessageKind, Content}
use agent_comm_hub.Fixtures.{env}
use agent_comm_hub.Hub.State.{empty_hub}
use agent_comm_hub.Hub.Compose.{Draft, build_message}
use agent_comm_hub.Hub.Compose.Laws.{composed}
use agent_comm_hub.Hub.Compose.Bounds.{composed_bounded}

abbrev hello : Draft
hello = record {
  from = "alice";
  to = "bob";
  kind = MessageKind.chat;
  content = Content.text "hello";
  ref = none;
  thread_id = none;
  expires_at = none;
  system = false;
  priority = none;
}

composed_bounded_example :
    ((composed env hello empty_hub).seq_counter ≡ 1)
    × ((build_message env hello empty_hub).seq ≡ some (composed env hello empty_hub).seq_counter)
    × ((build_message env hello empty_hub).hop ≤ 50)
    × (length (composed env hello empty_hub).history_ring ≡ 1)
composed_bounded_example = composed_bounded env hello empty_hub
