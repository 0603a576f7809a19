-- ===== src/Hub/History.antt =====
-- src/hub.ts, reading the history ring: `lastSeq`, `history`, `historyChannel` and `historyAll`.
pub mod Reading
mod Tests
use agent_comm_hub.Prelude.{
  ℕ, String, str_eq, opt_str_eq, ltb, Bool, true, false, ◌&&◌, ◌||◌, Option, none, some, List,
  reverse, filter, any, map, slice_last, or_default,
}
use agent_comm_hub.Protocol.{BridgeMessage, broadcast}
use agent_comm_hub.Dict.{has, values}
use agent_comm_hub.Hub.State.{AgentHub}

abbrev pub last_seq : AgentHub → ℕ
last_seq h = h.seq_counter

-- `since === undefined || (message.seq ?? 0) > since`
abbrev pub is_after : Option ℕ → BridgeMessage → Bool
is_after none m = true
is_after (some since) m = ltb since (or_default m.seq 0)

abbrev groups_with : String → AgentHub → List String
groups_with peer h =
    map (λ g. g.id) (filter (λ g. any (λ m. str_eq m peer) g.members) (values h.groups))

abbrev on_channel : List String → Option String → Bool
on_channel ids none = false
on_channel ids (some c) = any (λ i. str_eq i c) ids

abbrev pub involves : String → AgentHub → BridgeMessage → Bool
involves peer h m =
    str_eq m.from peer
    || str_eq m.to peer
    || str_eq m.to broadcast
    || on_channel (groups_with peer h) m.channel

-- Newest first. A limit below zero is passed on as 0.
abbrev pub newest : ℕ → List BridgeMessage → List BridgeMessage
newest limit ms = reverse (slice_last limit ms)

unfoldable pub history : String → ℕ → Option ℕ → AgentHub → List BridgeMessage
history peer limit since h =
    newest limit (filter (λ m. is_after since m && involves peer h m) h.history_ring)

abbrev is_on : String → AgentHub → BridgeMessage → Bool
is_on id h m =
    opt_str_eq m.channel (some id)
    || (str_eq m.to id && opt_str_eq m.channel none && has id h.groups)

unfoldable pub history_channel : String → ℕ → Option ℕ → AgentHub → List BridgeMessage
history_channel id limit since h =
    newest limit (filter (λ m. is_after since m && is_on id h m) h.history_ring)

unfoldable pub history_all : ℕ → Option ℕ → AgentHub → List BridgeMessage
history_all limit since h = newest limit (filter (is_after since) h.history_ring)
