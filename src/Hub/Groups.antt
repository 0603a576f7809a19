-- ===== src/Hub/Groups.antt =====
-- src/hub.ts, the group channels: `createGroup`, `deleteGroup`, `groupOf`, `addGroupMember`,
-- `removeGroupMember`, `allGroups` and `sendToGroup`. `importGroups` is not modelled.
pub mod Namespace
use agent_comm_hub.Prelude.{
  includes, dedup, ℕ, String, str_eq, leb, if◌then◌else◌, Bool, true, false, ◌&&◌, ◌||◌, not,
  Option, none, some, List, [], ◌∷◌, ◌++◌, length, any, all, remove_at, find_index,
}
use agent_comm_hub.Protocol.{BridgeMessage, MessageKind, Content, broadcast, hub_peer}
use agent_comm_hub.Protocol.Ids.{is_peer_id}
use agent_comm_hub.Dict.{get, set, has, delete, values}
use agent_comm_hub.Hub.State.{Env, AgentHub, GroupState, Effect, emit}
use agent_comm_hub.Hub.Outcome.{M, Error, threw, ◌>>◌, return, modify, throw, refuse_if}
use agent_comm_hub.Hub.Deliver.{SendOptions, send}
use agent_comm_hub.Hub.Registry.{owns_mailbox}

abbrev with_creator : String → List String → List String
with_creator creator ids = if includes ids creator then ids else creator ∷ ids

abbrev nonempty_name : Option String → Option String
nonempty_name none = none
nonempty_name (some s) = if str_eq s "" then none else some s

abbrev is_empty : List String → Bool
is_empty [] = true
is_empty (_ ∷ _) = false

abbrev new_group : Env → String → List String → String → Option String → GroupState
new_group env id members creator name = record {
  id = id;
  name = nonempty_name name;
  members = with_creator creator (dedup members);
  created_by = creator;
  created_at = env.now;
}

abbrev put_group : String → GroupState → AgentHub → AgentHub
put_group id g h = emit Effect.on_groups_changed (record h { groups = set id g h.groups })

unfoldable pub create_group : Env → String → List String → String → Option String → M GroupState
unfolding is_peer_id dedup
create_group env id members creator name = do
  refuse_if (λ h. has id h.groups) Error.group_exists
  refuse_if (λ h. not (is_peer_id id)) Error.invalid_group_id
  refuse_if (λ h. str_eq id broadcast) Error.group_id_taken
  refuse_if (λ h. str_eq id hub_peer) Error.group_id_taken
  refuse_if (λ h. has id h.last_seen || owns_mailbox id h || has id h.profiles)
      Error.group_collides_with_peer
  refuse_if (λ h. is_empty (dedup members)) Error.no_members
  refuse_if (λ h. not (all (λ m. has m h.last_seen) (dedup members))) Error.unknown_member
  modify (put_group id (new_group env id members creator name))
  return (new_group env id members creator name)

unfoldable pub delete_group : String → AgentHub → Bool × AgentHub
delete_group id h =
    if has id h.groups
    then (true, emit Effect.on_groups_changed (record h { groups = delete id h.groups }))
    else (false, h)

abbrev pub group_of : String → AgentHub → Option GroupState
group_of id h = get id h.groups

abbrev add_to : String → String → GroupState → M GroupState
add_to id member g = do
  refuse_if (λ h. includes g.members member) Error.already_member
  refuse_if (λ h. not (has member h.last_seen)) Error.unknown_member
  modify (put_group id (record g { members = g.members ++ member ∷ [] }))
  return (record g { members = g.members ++ member ∷ [] })

unfoldable pub add_group_member : String → String → M GroupState
add_group_member id member h = elim (get id h.groups) [
  | none ↦ threw Error.unknown_group h
  | some g ↦ add_to id member g h
]

abbrev remove_index : String → GroupState → Option ℕ → M GroupState
remove_index id g none = throw Error.not_in_group
remove_index id g (some i) = do
  modify (put_group id (record g { members = remove_at i g.members }))
  return (record g { members = remove_at i g.members })

abbrev remove_from : String → String → GroupState → M GroupState
remove_from id member g = do
  refuse_if (λ h. str_eq member g.created_by) Error.creator_stays
  remove_index id g (find_index (λ m. str_eq m member) g.members)

unfoldable pub remove_group_member : String → String → M GroupState
remove_group_member id member h = elim (get id h.groups) [
  | none ↦ threw Error.unknown_group h
  | some g ↦ remove_from id member g h
]

abbrev pub all_groups : AgentHub → List GroupState
all_groups h = values h.groups

abbrev no_options : SendOptions
no_options = record { ref = none; thread_id = none; expires_at = none; priority = none }

unfoldable pub send_to_group : Env → String → String → Content → M BridgeMessage
send_to_group env from id content = do
  refuse_if (λ h. not (has id h.groups)) Error.unknown_group
  send env from id MessageKind.chat content no_options
