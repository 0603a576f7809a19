-- ===== src/Hub/History/Tests.antt =====
-- Reading the history of a hub without messages.
use agent_comm_hub.Prelude.{◌≡◌, none, true, length, All, ◌&&◌, [], ◌∷◌, refl, List, reverse, ◌++◌}
use agent_comm_hub.Protocol.{BridgeMessage}
use agent_comm_hub.Fixtures.{chat_from}
use agent_comm_hub.Hub.State.{AgentHub, empty_hub}
use agent_comm_hub.Hub.History.{history, is_after, involves}
use agent_comm_hub.Hub.History.Reading.{history_lem}

abbrev two_messages : AgentHub
two_messages = record empty_hub {
  history_ring = chat_from "alice" "m1" 0 ∷ chat_from "carol" "m2" 0 ∷ [];
}

newest_test : history "bob" 1 none two_messages ≡ chat_from "carol" "m2" 0 ∷ []
unfolding history
newest_test = refl

history_lem_example :
    All
      (λ m. is_after none m && involves "bob" two_messages m ≡ true)
      (history "bob" 1 none two_messages)
    × ((older : List BridgeMessage) × (older ++ reverse (history "bob" 1 none two_messages)
          ≡ chat_from "alice" "m1" 0 ∷ chat_from "carol" "m2" 0 ∷ []))
    × (length (history "bob" 1 none two_messages) ≡ 1)
history_lem_example = history_lem "bob" 1 none two_messages
