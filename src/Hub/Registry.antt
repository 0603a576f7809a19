-- ===== src/Hub/Registry.antt =====
-- src/hub.ts, the registry of peers: `register`, `unregister`, `dropMailboxState`, `gcTick`,
-- `expireParkedMailboxes`, `touch`, `has`, `ownsMailbox`, `isParked`, `isActive`, `setAlias` and
-- `announceCard`. The imports are not modelled.
pub mod Profiles
use agent_comm_hub.Prelude.{
  ℕ, ◌+◌, ◌-◌, String, str_eq, ltb, leb, ◌==◌, if◌then◌else◌, Bool, true, false, ◌&&◌, ◌||◌, not,
  Option, none, some, List, [], ◌∷◌, ◌++◌, map, length, or_default,
}
use agent_comm_hub.Protocol.{BridgeMessage, DropReason, is_task, broadcast, hub_peer}
use agent_comm_hub.Dict.{Dict, get, set, has, delete, get_or, keys}
use agent_comm_hub.Hub.State.{
  Env, AgentHub, Waiter, WaitResult, PeerProfile, PeerCard, EventKind, Effect, emit,
  default_parked_ttl_ms,
}
use agent_comm_hub.Hub.Outcome.{M, Error, ◌>>=◌, ◌>>◌, return, modify, throw, refuse_if}
use agent_comm_hub.Hub.Events.{record_event}
use agent_comm_hub.Hub.Failing.{fail_task_for_gone_assignee, fail_task_for_dropped_message}
use agent_comm_hub.Hub.Leases.{reap_leases, messages_of}
use agent_comm_hub.Hub.Polling.{timed_out}
use Profiles.{joined_profile, evict_overflow_profiles}

abbrev pub peers : AgentHub → List String
peers h = keys h.last_seen

abbrev pub is_registered : String → AgentHub → Bool
is_registered id h = has id h.last_seen

abbrev pub owns_mailbox : String → AgentHub → Bool
owns_mailbox id h = has id h.parked_at || has id h.queues

abbrev pub is_parked : String → AgentHub → Bool
is_parked id h = has id h.parked_at

unfoldable pub touch : Env → String → AgentHub → AgentHub
touch env id h =
    if has id h.last_seen then record h { last_seen = set id env.now h.last_seen } else h

unfoldable pub is_active : Env → String → AgentHub → Bool
is_active env id h = elim (get id h.last_seen) [
  | none ↦ false
  | some last ↦ ltb (env.now - last) (or_default env.options.connected_window_ms 30000)
]

abbrev pub tell_peers : AgentHub → AgentHub
tell_peers h = emit (Effect.on_peers_changed (peers h)) h

-- What `register` changes once no guard refuses it.
unfoldable pub join : Env → String → Option String → Option String → AgentHub → AgentHub
unfolding evict_overflow_profiles record_event
join env id name version h =
    let h1 = record h {
      last_seen = set id env.now h.last_seen;
      parked_at = delete id h.parked_at;
    } in
    let profile = joined_profile env.now id name version (get id h1.profiles) in
    let h2 = evict_overflow_profiles (record h1 { profiles = set id profile h1.profiles }) in
    tell_peers (record_event env (EventKind.peer_joined name) (some id) h2)

unfoldable pub register : Env → String → Option String → Option String → Bool → M (Unit {0})
unfolding join
register env id name version reclaim = do
  refuse_if (λ h. str_eq id broadcast) Error.reserved_peer_id
  refuse_if (λ h. str_eq id hub_peer) Error.reserved_peer_id
  refuse_if (λ h. has id h.groups) Error.collides_with_group
  refuse_if (λ h. has id h.last_seen) Error.already_registered
  refuse_if (λ h. not reclaim && owns_mailbox id h) Error.parked_id
  modify (join env id name version)

unfoldable reconcile_all : (BridgeMessage → M (Unit {0})) → List BridgeMessage → M (Unit {0})
reconcile_all reconcile [] = return tt
reconcile_all reconcile (m ∷ ms) =
    (λ h. if is_task m.kind then reconcile m h else return tt h) >> reconcile_all reconcile ms

-- Everything a mailbox holds: the queue, what is out on lease, and the dead letters.
unfoldable pub mailbox_contents : String → AgentHub → List BridgeMessage
mailbox_contents id h =
    get_or id [] h.queues ++ (messages_of (get_or id [] h.leases) ++ get_or id [] h.dead_letters)

unfoldable pub forget_mailbox : String → AgentHub → AgentHub
forget_mailbox id h = record h {
  leases = delete id h.leases;
  dead_letters = delete id h.dead_letters;
  lease_attempts = delete id h.lease_attempts;
  queues = delete id h.queues;
  parked_at = delete id h.parked_at;
}

unfoldable pub drop_mailbox_state : String → (BridgeMessage → M (Unit {0})) → M (List BridgeMessage)
unfolding reconcile_all
drop_mailbox_state id reconcile h =
    let all = mailbox_contents id h in
    (reconcile_all reconcile all >> return all) (forget_mailbox id h)

abbrev changed_if_mail : List BridgeMessage → AgentHub → AgentHub
changed_if_mail [] h = h
changed_if_mail (m ∷ ms) h = emit Effect.on_mailboxes_changed h

-- Every pending wait of the peer ends as a timeout.
unfoldable settle_all : Env → String → List Waiter → AgentHub → AgentHub
settle_all env id [] h = h
settle_all env id (w ∷ ws) h =
    settle_all env id ws (emit (Effect.resolved w.id (timed_out id w env.now h)) h)

unfoldable leave : Env → String → AgentHub → AgentHub
leave env id h =
    let h1 = settle_all env id (get_or id [] h.waiters) h in
    tell_peers (record h1 { waiters = delete id h1.waiters; last_seen = delete id h1.last_seen })

unfoldable pub unregister : Env → String → Bool → M (Unit {0})
unfolding leave settle_all
unregister env id keep_mailbox h =
    let queued = get_or id [] h.queues in
    let h1 = changed_if_mail queued h in
    if keep_mailbox
    then modify (leave env id) (
        record_event env (EventKind.peer_parked (length queued)) (some id)
          (record h1 { parked_at = set id env.now h1.parked_at }))
    else (do
      drop_mailbox_state id (λ m. fail_task_for_dropped_message env m id DropReason.unregistered)
      modify (leave env id))
        (record_event env (EventKind.peer_left (length queued)) (some id) h1)

unfoldable report_expired : Env → String → ℕ → List BridgeMessage → AgentHub → AgentHub
report_expired env id ttl [] h = h
report_expired env id ttl (m ∷ ms) h =
    let dropped = length (m ∷ ms) in
    emit (Effect.on_mailbox_expired id dropped) (
      record_event env (EventKind.mailbox_expired dropped ttl) (some id)
        (emit Effect.on_mailboxes_changed h))

unfoldable expire_parked : Env → ℕ → String → ℕ → M (Unit {0})
expire_parked env ttl id parked_ms h =
    if has id h.last_seen
    then return tt (record h { parked_at = delete id h.parked_at })
    else (if leb (env.now - parked_ms) ttl
        then return tt h
        else (drop_mailbox_state id (λ m. fail_task_for_gone_assignee env m.id id ttl)
              >>= λ dropped. modify (report_expired env id ttl dropped))
            h)

unfoldable expire_each : Env → ℕ → List (String × ℕ) → M (Unit {0})
expire_each env ttl [] = return tt
expire_each env ttl ((id, parked_ms) ∷ rest) = do
  expire_parked env ttl id parked_ms
  expire_each env ttl rest

unfoldable pub expire_parked_mailboxes : Env → M (Unit {0})
unfolding expire_each expire_parked report_expired
expire_parked_mailboxes env h =
    let ttl = or_default env.options.parked_ttl_ms default_parked_ttl_ms in
    if ttl == 0 then return tt h else expire_each env ttl h.parked_at h

abbrev is_idle : Env → ℕ → String → AgentHub → Bool
is_idle env idle_ms id h =
    ltb idle_ms (env.now - get_or id 0 h.last_seen) && not (env.is_peer_live id)

unfoldable park_idle : Env → ℕ → List String → M (Unit {0})
park_idle env idle_ms [] = return tt
park_idle env idle_ms (id ∷ ids) =
    (λ h.
      if is_idle env idle_ms id h
      then unregister env id true (emit (Effect.on_peer_gc id) h)
      else return tt h)
    >> park_idle env idle_ms ids

unfoldable reap_each : Env → List String → M (Unit {0})
reap_each env [] = return tt
reap_each env (id ∷ ids) = do reap_leases env id; reap_each env ids

unfoldable pub gc_tick : Env → ℕ → M (Unit {0})
unfolding park_idle reap_each
gc_tick env idle_ms = do
  λ h. park_idle env idle_ms (peers h) h
  λ h. reap_each env (keys h.leases) h
  expire_parked_mailboxes env

unfoldable pub set_alias : String → Option String → M (Unit {0})
set_alias id alias = do
  refuse_if (λ h. not (has id h.last_seen)) Error.unknown_peer
  modify λ h. elim (get id h.profiles) [
    | none ↦ tell_peers h
    | some p ↦ tell_peers (record h { profiles = set id (record p { alias = alias }) h.profiles })
  ]
