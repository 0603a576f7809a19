-- ===== src/Fixtures.antt =====
-- Messages, options and an environment for the tests of every module.
use agent_comm_hub.Prelude.{ℕ, String, none, some, [], true, false}
use agent_comm_hub.Protocol.{BridgeMessage, MessageKind, Content, TaskAckEvent}
use agent_comm_hub.Protocol.Status.{AckStatus}
use agent_comm_hub.Hub.State.{Env, HubOptions}

abbrev pub chat_from : String → String → ℕ → BridgeMessage
chat_from sender id priority = record {
  id = id;
  from = sender;
  to = "bob";
  kind = MessageKind.chat;
  content = Content.text "hello";
  ref = none;
  channel = none;
  thread_id = none;
  hop = 0;
  priority = some priority;
  seq = some 1;
  expires_at = none;
  ts = 10;
}

abbrev pub options : HubOptions
options = record {
  max_queue = 2;
  history_limit = 3;
  wait_timeout_ms = 1000;
  connected_window_ms = none;
  peer_idle_timeout_ms = none;
  parked_ttl_ms = none;
  lease_ttl_ms = none;
  rate_per_min = some 2;
  max_attempts = none;
}

abbrev pub env : Env
env = record { options = options; now = 10; random_uuid = λ n. "m"; is_peer_live = λ p. true }

abbrev pub ack_event : AckStatus → TaskAckEvent
ack_event status = record {
  from = "bob";
  status = status;
  note = none;
  progress = none;
  ts = 10;
  message_id = "a1";
  applied = true;
  artifacts = [];
  system = false;
}
