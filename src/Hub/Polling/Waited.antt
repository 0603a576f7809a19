-- ===== src/Hub/Polling/Waited.antt =====
-- src/hub.ts: what `wait` answers, and what it leaves of the mailbox.
use mathlib.Core.List.Perm
use agent_comm_hub.Prelude.{
  max, ◌≡◌, ◌≢◌, String, Bool, Option, none, some, List, [], ◌∷◌, ◌++◌, take, map, filter, Perm,
}
use agent_comm_hub.Protocol.{BridgeMessage}
use agent_comm_hub.Dict.{get_or}
use agent_comm_hub.Hub.State.{Env, AgentHub, WaitResult}
use agent_comm_hub.Hub.Outcome.{Outcome, done, threw, exhausted}
use agent_comm_hub.Hub.Matching.{matches_waiter}
use agent_comm_hub.Hub.Polling.{queue_of, WaitOptions, waiter_of}

abbrev pub wanted : Env → WaitOptions → AgentHub → BridgeMessage → Bool
wanted env o h m = matches_waiter (waiter_of env o h.waiter_count) m h.task_ledger

-- The messages of an answer, and none of a wait that is over without one.
abbrev pub answered : WaitResult → List BridgeMessage
answered (WaitResult.message d) = d.message ∷ []
answered (WaitResult.messages ds) = map (λ d. d.message) ds
answered (WaitResult.timeout elapsed status) = []

-- An answer at once hands over the first messages that are wanted, as many as the limit allows, and
-- leaves the others in the mailbox. Without an answer no message is wanted, the mailboxes stay, and
-- the waiter is the last of those of the peer.
abbrev pub Waited : Env → String → WaitOptions → AgentHub → Outcome (Option WaitResult) → Type 0
Waited env peer o h (done none h') =
    (filter (wanted env o h) (queue_of peer h) ≡ [])
    × (h'.queues ≡ h.queues)
    × (get_or peer [] h'.waiters ≡ get_or peer [] h.waiters ++ waiter_of env o h.waiter_count ∷ [])
Waited env peer o h (done (some r) h') =
    (answered r ≡ take (max 1 o.max_messages) (filter (wanted env o h) (queue_of peer h)))
    × Perm (answered r ++ queue_of peer h') (queue_of peer h)
    × ((j : String) → j ≢ peer → queue_of j h' ≡ queue_of j h)
Waited env peer o h (threw e h') = ⊥
Waited env peer o h exhausted = ⊥
