-- ===== src/Hub/Renaming.antt =====
-- src/hub.ts: `renamePeer`. A message is one object in the ring, in every mailbox that holds it and
-- in every lease, so a new name that the ring gives it shows in all of them, for as long as the ring
-- has it; a copy of a message that the ring has dropped keeps the old name.
pub mod Folding
pub mod Keys
pub mod Moved
pub mod Apart
mod Tests
use agent_comm_hub.Prelude.{
  ℕ, ◌+◌, String, str_eq, opt_str_eq, ltb, if◌then◌else◌, Bool, true, false, ◌&&◌, ◌||◌, not,
  Option, none, some, List, [], ◌∷◌, map, any, includes, dedup,
}
use agent_comm_hub.Protocol.{
  BridgeMessage, TaskRecord, TaskAckEvent, AssigneeState, broadcast, hub_peer,
}
use agent_comm_hub.Protocol.Status.{is_terminal}
use agent_comm_hub.Protocol.Ids.{is_peer_id}
use agent_comm_hub.Dict.{Dict, get, set, has, delete, get_or}
use agent_comm_hub.Hub.State.{
  Env, AgentHub, Waiter, Lease, PeerProfile, PeerCard, GroupState, Effect, emit,
}
use agent_comm_hub.Hub.Outcome.{M, Error, ◌>>=◌, ◌>>◌, return, modify, refuse_if}
use agent_comm_hub.Hub.Timers.{schedule_task_timeout}
use agent_comm_hub.Hub.Registry.{owns_mailbox, peers}
use Folding.{fold_rows, fold_duplicate_assignees}

abbrev pub or_else {ℓ} : {A : Type ℓ} → Option A → Option A → Option A
or_else (some a) o = some a
or_else none o = o

-- The value of one key goes to another, if there is one.
abbrev pub put_some {ℓ} : {A : Type ℓ} → String → Option A → Dict A → Dict A
put_some new none d = d
put_some new (some a) d = set new a d

unfoldable pub move {ℓ} : {A : Type ℓ} → String → String → Dict A → Dict A
move old new d = put_some new (get old d) (delete old d)

abbrev pub map_values {ℓ κ} : {A : Type ℓ} {B : Type κ} → (A → B) → Dict A → Dict B
map_values f = map (λ e. (e.0, f e.1))

module _ (old new : String) where
  abbrev pub renamed : String → String
  renamed id = if str_eq id old then new else id

  abbrev pub rename_message : BridgeMessage → BridgeMessage
  rename_message m = record m { from = renamed m.from; to = renamed m.to }

  -- A message of a mailbox, which the ring may hold.
  abbrev pub rename_shared : List BridgeMessage → BridgeMessage → BridgeMessage
  rename_shared ring m = if any (λ r. str_eq r.id m.id) ring then rename_message m else m

  abbrev pub rename_lease : List BridgeMessage → Lease → Lease
  rename_lease ring l = record l { message = rename_shared ring l.message }

  abbrev rename_sender : Option String → Option String
  rename_sender none = none
  rename_sender (some f) = some (renamed f)

  abbrev pub rename_waiter : Waiter → Waiter
  rename_waiter w = record w { from = rename_sender w.from }

  abbrev pub rename_event : TaskAckEvent → TaskAckEvent
  rename_event e = record e { from = renamed e.from }

  abbrev pub rename_row : AssigneeState → AssigneeState
  rename_row a = record a { peer_id = renamed a.peer_id; acks = map rename_event a.acks }

  -- `is_group`: a task to a group of that name is not the peer's.
  abbrev pub rename_task : Bool → TaskRecord → TaskRecord
  rename_task is_group task = record task {
    from = renamed task.from;
    to = if is_group then task.to else renamed task.to;
    acks = map rename_event task.acks;
    assignees = map rename_row task.assignees;
  }

  abbrev rename_member : GroupState → GroupState
  rename_member g =
      if includes g.members old then record g { members = dedup (map renamed g.members) } else g

  abbrev earlier : PeerProfile → PeerProfile → ℕ
  earlier stale p =
      if ltb stale.registered_at p.registered_at then stale.registered_at else p.registered_at

  -- The live profile wins over a stale one of the new id.
  abbrev merged_profile : ℕ → Option PeerProfile → Option PeerProfile → PeerProfile
  merged_profile now (some p) none = record p { id = new }
  merged_profile now (some p) (some stale) = record {
    id = new;
    alias = or_else p.alias stale.alias;
    client_name = or_else p.client_name stale.client_name;
    client_version = or_else p.client_version stale.client_version;
    registered_at = earlier stale p;
    card = or_else p.card stale.card;
  }
  merged_profile now none (some stale) = stale
  merged_profile now none none = record {
    id = new;
    alias = none;
    client_name = none;
    client_version = none;
    registered_at = now;
    card = none;
  }

  abbrev set_all : Dict ℕ → Dict ℕ → Dict ℕ
  set_all [] d = d
  set_all ((id, n) ∷ more) d = set_all more (set id n d)

  abbrev move_attempts : Option (Dict ℕ) → Dict (Dict ℕ) → Dict (Dict ℕ)
  move_attempts none d = d
  move_attempts (some attempts) d = set new (set_all attempts (get_or new [] d)) (delete old d)

  -- What is kept per peer moves from the one key to the other.
  unfoldable pub move_state : Env → AgentHub → AgentHub
  unfolding move
  move_state env h = record h {
    parked_at = delete new (delete old h.parked_at);
    queues = move old new h.queues;
    waiters = move old new h.waiters;
    last_seen = set new (get_or old env.now h.last_seen) (delete old h.last_seen);
    leases = move old new h.leases;
    dead_letters = move old new h.dead_letters;
    lease_attempts = move_attempts (get old h.lease_attempts) h.lease_attempts;
    profiles =
        set new (merged_profile env.now (get old h.profiles) (get new h.profiles))
          (delete old h.profiles);
  }

  -- The name is rewritten in the ring, and with it in the mailboxes, and in the waiters.
  unfoldable pub rename_messages : AgentHub → AgentHub
  rename_messages h = record h {
    waiters = map_values (map rename_waiter) h.waiters;
    history_ring = map rename_message h.history_ring;
    queues = map_values (map (rename_shared h.history_ring)) h.queues;
    leases = map_values (map (rename_lease h.history_ring)) h.leases;
    dead_letters = map_values (map (rename_shared h.history_ring)) h.dead_letters;
  }

  unfoldable pub rename_tasks : Env → Bool → List (String × TaskRecord) → AgentHub → AgentHub
  unfolding fold_duplicate_assignees
  rename_tasks env is_group [] h = h
  rename_tasks env is_group ((id, task) ∷ tasks) h =
      let renamed_task = rename_task is_group task in
      let folded = fold_duplicate_assignees renamed_task in
      let h' = record h { task_ledger = set id folded h.task_ledger } in
      rename_tasks env is_group tasks (
        if is_terminal renamed_task.status && not (is_terminal folded.status)
        then schedule_task_timeout env folded h'
        else h')

  unfoldable pub rename_members : AgentHub → AgentHub
  rename_members h =
      let h' = record h { groups = map_values rename_member h.groups } in
      if any (λ e. includes e.1.members old) h.groups then emit Effect.on_groups_changed h' else h'

  unfoldable pub rekey : Env → AgentHub → AgentHub
  unfolding move_state rename_messages rename_tasks rename_members
  rekey env h =
      let h1 = rename_messages (move_state env h) in
      let h2 = rename_members (rename_tasks env (has old h.groups) h1.task_ledger h1) in
      emit (Effect.on_peers_changed (peers h2)) h2

unfoldable pub rename_peer : Env → String → String → M (Unit {0})
unfolding rekey
rename_peer env old new = λ h. if str_eq old new then return tt h else change h
  where
    change : M (Unit {0})
    change = do
      refuse_if (λ h. not (has old h.last_seen)) Error.unknown_peer
      refuse_if (λ h. str_eq new broadcast) Error.reserved_peer_id
      refuse_if (λ h. str_eq new hub_peer) Error.reserved_peer_id
      refuse_if (λ h. not (is_peer_id new)) Error.invalid_peer_id
      refuse_if (λ h. has new h.last_seen) Error.already_registered
      refuse_if (λ h. has new h.groups) Error.collides_with_group
      refuse_if (λ h. owns_mailbox new h) Error.parked_id
      modify (rekey old new env)
