-- ===== src/Hub/Compose.antt =====
-- src/hub.ts: `compose`, `remember`, `audience` and `dispatch`. `dispatch` hands each recipient to
-- a delivery function, since delivery in turn composes the hub's notices (Hub/Deliver).
pub mod Laws
pub mod Bounds
mod Tests
pub mod Settles
use agent_comm_hub.Prelude.{
  ℕ, suc, ◌+◌, ◌-◌, min, String, str_eq, ltb, if◌then◌else◌, Bool, true, false, not, ◌&&◌, ◌||◌,
  Option, none, some, List, [], ◌∷◌, ◌++◌, length, drop, any, filter, find_last,
}
use agent_comm_hub.Protocol.{
  BridgeMessage, MessageKind, Content, broadcast, max_hop, max_reply_chain, is_task, is_ack,
}
use agent_comm_hub.Dict.{Dict, get, set, has, keys}
use agent_comm_hub.Hub.State.{Env, AgentHub, GroupState, Effect, emit}
use agent_comm_hub.Hub.Outcome.{M, Error, ◌>>=◌, ◌>>◌, return, modify, refuse_if}
use agent_comm_hub.Hub.Counters.{bump_traffic, TrafficField}

-- What a caller of `route` says about the message.
pub record Draft : Type 0 where
  pub from : String
  pub to : String
  pub kind : MessageKind
  pub content : Content
  pub ref : Option String
  pub thread_id : Option String
  pub expires_at : Option ℕ
  pub system : Bool
  pub priority : Option ℕ

abbrev pub has_group : String → AgentHub → Bool
has_group id h = has id h.groups

abbrev pub is_known : String → AgentHub → Bool
is_known id h = has id h.last_seen || has id h.parked_at

-- `group.members.includes(peer)` for the group of that id, true if there is none.
abbrev includes : String → Option GroupState → Bool
includes peer none = true
includes peer (some g) = any (λ m. str_eq m peer) g.members

abbrev group_id : Option GroupState → Option String
group_id none = none
group_id (some g) = some g.id

abbrev parent_hop : Option BridgeMessage → ℕ
parent_hop none = 0
parent_hop (some m) = m.hop

abbrev parent_is_task : Option BridgeMessage → Bool
parent_is_task none = false
parent_is_task (some m) = is_task m.kind

-- The depth of a reply to `parent`, which saturates at the ceiling of its chain.
unfoldable pub reply_hop : MessageKind → Option BridgeMessage → ℕ
reply_hop kind parent =
    min (parent_hop parent + 1)
      (if is_task kind && parent_is_task parent then max_hop else max_reply_chain)

abbrev pub find_message : String → List BridgeMessage → Option BridgeMessage
find_message id ring = find_last (λ m. str_eq m.id id) ring

abbrev hop_of : MessageKind → Option String → List BridgeMessage → ℕ
hop_of kind none ring = 0
hop_of kind (some r) ring = reply_hop kind (find_message r ring)

unfoldable pub build_message : Env → Draft → AgentHub → BridgeMessage
unfolding reply_hop
build_message env d h = record {
  id = env.random_uuid h.uuid_count;
  from = d.from;
  to = d.to;
  kind = d.kind;
  content = d.content;
  ref = d.ref;
  channel = group_id (get d.to h.groups);
  thread_id = d.thread_id;
  hop = hop_of d.kind d.ref h.history_ring;
  priority = d.priority;
  seq = some (suc h.seq_counter);
  expires_at = d.expires_at;
  ts = env.now;
}

unfoldable pub remember : Env → BridgeMessage → AgentHub → AgentHub
remember env m h =
    let ring = h.history_ring ++ m ∷ [] in
    emit (Effect.on_message m)
      (record h { history_ring = drop (length ring - env.options.history_limit) ring })

-- What `compose` changes once the message is built.
abbrev count_sent : Env → Draft → BridgeMessage → AgentHub → AgentHub
count_sent env d m h =
    let h1 = record h { seq_counter = suc h.seq_counter; uuid_count = suc h.uuid_count } in
    let h2 = (if d.system then h1 else record h1 { last_seen = set d.from env.now h1.last_seen }) in
    let h3 = bump_traffic d.from TrafficField.sent h2 in
    if is_ack d.kind then bump_traffic d.from TrafficField.acked h3 else h3

finish : Env → Draft → BridgeMessage → M BridgeMessage
unfolding remember bump_traffic
finish env d m h = return m (remember env m (count_sent env d m h))

unfoldable pub compose : Env → Draft → M BridgeMessage
unfolding build_message finish
compose env d = do
  refuse_if (λ h. not d.system && not (has d.from h.last_seen)) Error.sender_not_registered
  refuse_if (λ h. not (str_eq d.to broadcast) && not (has_group d.to h) && not (is_known d.to h))
      Error.unknown_recipient
  refuse_if (λ h. not d.system && not (includes d.from (get d.to h.groups))) Error.not_a_member
  λ h. finish env d (build_message env d h) h

-- The live peers and then the parked ones that are not live.
unfoldable pub audience : AgentHub → List String
audience h = keys h.last_seen ++ filter (λ id. not (has id h.last_seen)) (keys h.parked_at)

-- One delivery after the other.
deliver_each : (String → BridgeMessage → M (Unit {0})) → BridgeMessage → List String → M (Unit {0})
deliver_each deliver m [] = return tt
deliver_each deliver m (peer ∷ peers) =
    let rest = deliver_each deliver m peers in
    if str_eq peer m.from then rest else (deliver peer m >> rest)

dispatch_group :
    (String → BridgeMessage → M (Unit {0})) → BridgeMessage → Option GroupState → M (Unit {0})
unfolding deliver_each
dispatch_group deliver m none = deliver m.to m
dispatch_group deliver m (some g) = deliver_each deliver m g.members

unfoldable pub dispatch : (String → BridgeMessage → M (Unit {0})) → BridgeMessage → M (Unit {0})
unfolding deliver_each dispatch_group audience
dispatch deliver m h =
    if str_eq m.to broadcast
    then deliver_each deliver m (audience h) h
    else dispatch_group deliver m (get m.to h.groups) h

unfoldable pub route : Env → (String → BridgeMessage → M (Unit {0})) → Draft → M BridgeMessage
unfolding compose dispatch
route env deliver d = do m ← compose env d; dispatch deliver m; return m
