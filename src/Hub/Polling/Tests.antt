-- ===== src/Hub/Polling/Tests.antt =====
-- A wait for the mail of one sender.
use agent_comm_hub.Prelude.{◌≡◌, refl, str_eq, none, some, false, List, [], ◌∷◌, Bool}
use agent_comm_hub.Protocol.{BridgeMessage}
use agent_comm_hub.Fixtures.{chat_from}
use agent_comm_hub.Hub.State.{AgentHub, empty_hub}
use agent_comm_hub.Hub.Polling.{take_matching, WaitOptions}
use agent_comm_hub.Hub.Polling.Waited.{Waited}

abbrev mailbox : List BridgeMessage
mailbox = chat_from "alice" "m1" 0 ∷ chat_from "carol" "m2" 0 ∷ chat_from "alice" "m3" 0 ∷ []

abbrev is_alice : BridgeMessage → Bool
is_alice m = str_eq m.from "alice"

take_matching_test :
    take_matching is_alice 1 mailbox
    ≡ (chat_from "alice" "m1" 0 ∷ [], chat_from "carol" "m2" 0 ∷ chat_from "alice" "m3" 0 ∷ [])
unfolding take_matching
take_matching_test = refl

abbrev waiting_hub : AgentHub
waiting_hub = record empty_hub { queues = ("bob", mailbox) ∷ [] }

abbrev for_alice : WaitOptions
for_alice = record {
  timeout_ms = 5;
  from = some "alice";
  ref = none;
  thread_id = none;
  manual = false;
  max_messages = 2;
  statuses = none;
  terminal_only = false;
  aborted = false;
}
