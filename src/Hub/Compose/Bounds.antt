-- ===== src/Hub/Compose/Bounds.antt =====
-- What a composed message is numbered with, and what the history keeps.
use agent_comm_hub.Prelude.{
  ℕ, suc, ◌+◌, ◌-◌, ◌≤◌, min, ◌≡◌, ◌⊎◌, String, if◌then◌else◌, ◌&&◌, Option, none, some, List, [],
  ◌∷◌, ◌++◌, length, length-append, length-drop, arith,
}
use agent_comm_hub.Protocol.{BridgeMessage, MessageKind, max_hop, max_reply_chain, is_task}
use agent_comm_hub.Hub.State.{Env, AgentHub}
use agent_comm_hub.Hub.Compose.{
  Draft, parent_hop, parent_is_task, reply_hop, hop_of, find_message, build_message, remember,
}
use agent_comm_hub.Hub.Compose.Laws.{composed}

-- The ceiling of the chain that a message and the one it answers belong to.
abbrev ceiling : MessageKind → Option BridgeMessage → ℕ
ceiling kind parent = if is_task kind && parent_is_task parent then max_hop else max_reply_chain

-- A reply is one hop deeper than the message it answers until the ceiling of its chain, where it
-- stays: 5 for a task that answers a task, 50 for every other reply.
reply_hop-ceiling :
    (kind : MessageKind) (parent : Option BridgeMessage)
    → (reply_hop kind parent ≤ ceiling kind parent)
      × ((reply_hop kind parent ≡ parent_hop parent + 1)
          ⊎ ((reply_hop kind parent ≡ ceiling kind parent)
              × (ceiling kind parent ≤ parent_hop parent)))
unfolding reply_hop
reply_hop-ceiling kind parent = ground arith

hop_of-le :
    (kind : MessageKind) (ref : Option String) (ring : List BridgeMessage)
    → hop_of kind ref ring ≤ max_reply_chain
hop_of-le kind none ring = omega arith
hop_of-le kind (some r) ring = ground (arith, reply_hop-ceiling kind (find_message r ring))

-- Composing a message counts the sequence number up by one and numbers the message with it, makes
-- no message deeper than 50 hops, and lengthens the history by one message up to the limit of the
-- options.
pub composed_bounded :
    (env : Env) (d : Draft) (h : AgentHub)
    → let m = build_message env d h in
      let h' = composed env d h in
      (h'.seq_counter ≡ suc h.seq_counter)
      × (m.seq ≡ some h'.seq_counter)
      × (m.hop ≤ max_reply_chain)
      × (length h'.history_ring ≡ min env.options.history_limit (length h.history_ring + 1))
unfolding composed build_message remember
composed_bounded env d h =
    let m = build_message env d h in
    let ring = h.history_ring ++ m ∷ [] in
    (
      ground arith,
      ground arith,
      hop_of-le d.kind d.ref h.history_ring,
      ground (
        arith,
        length-drop (length ring - env.options.history_limit) ring,
        length-append h.history_ring (m ∷ []),
      ),
    )
