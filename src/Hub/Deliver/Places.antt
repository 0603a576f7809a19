-- ===== src/Hub/Deliver/Places.antt =====
-- Where a delivered message ends up.
use agent_comm_hub.Prelude.{
  ◌≡◌, String, Bool, true, false, Option, none, some, ◌≢◌, ◌&&◌, ◌++◌, List, [], ◌∷◌,
}
use agent_comm_hub.Protocol.{BridgeMessage, hub_peer}
use agent_comm_hub.Mailbox.Order.{place}
use agent_comm_hub.Dict.{get_or}
use agent_comm_hub.Hub.State.{Env, AgentHub, Waiter}
use agent_comm_hub.Hub.Outcome.{Outcome, done, threw, exhausted}
use agent_comm_hub.Hub.Counters.{take_waiter, take_token}
use agent_comm_hub.Hub.Deliver.{has_expired}

abbrev pub is_nobody : Option (Waiter × List Waiter) → Bool
is_nobody none = true
is_nobody (some w) = false

-- What the mailbox `q` is after a message that has expired, and after one that is or is not stored.
abbrev pub Becomes : Bool → Bool → BridgeMessage → List BridgeMessage → List BridgeMessage → Type 0
Becomes true stored m q q' = (n : BridgeMessage) × (n.from ≡ hub_peer) × (q' ≡ q ++ n ∷ [])
Becomes false true m q q' = q' ≡ place m q
Becomes false false m q q' = q' ≡ q

abbrev pub Delivered : Env → String → BridgeMessage → AgentHub → Outcome (Unit {0}) → Type 0
Delivered env target m h (done a h') =
    Becomes (has_expired env.now m.expires_at)
      (is_nobody (take_waiter target m h) && (take_token env target h).0) m
      (get_or target [] h.queues) (get_or target [] h'.queues)
    × ((j : String) → j ≢ target → get_or j [] h'.queues ≡ get_or j [] h.queues)
Delivered env target m h (threw e h') = ⊥
Delivered env target m h exhausted = ⊥
