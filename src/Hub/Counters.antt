-- ===== src/Hub/Counters.antt =====
-- src/hub.ts: `bumpTraffic`, `takeToken`, `handOut`, `deliverToWaiter` and `countDrop`.
pub mod Frames
pub mod Rate
mod Tests
use agent_comm_hub.Prelude.{
  ℕ, suc, ◌+◌, ◌-◌, ◌*◌, min, String, ltb, leb, if◌then◌else◌, Bool, true, false, ◌&&◌, not, Option,
  none, some, List, [], ◌∷◌, ◌++◌, length, remove_at, get_elem?, find_index, or_default,
}
use agent_comm_hub.Protocol.{
  BridgeMessage, MessageKind, Content, NoticeText, NoticeLevel, DropReason, hub_peer, is_task,
}
use agent_comm_hub.Dict.{Dict, get, set, delete, get_or}
use agent_comm_hub.Hub.State.{
  Env, AgentHub, Traffic, Bucket, Drops, Lease, Waiter, DeliveredMessage, WaitResult, Effect,
  EventKind, emit, default_lease_ttl_ms,
}
use agent_comm_hub.Hub.Events.{record_event}
use agent_comm_hub.Hub.Matching.{matches_waiter}

abbrev no_traffic : Traffic
no_traffic = record { sent = 0; received = 0; acked = 0 }

pub data TrafficField : Type 0 where
  sent received acked : TrafficField

abbrev bump : TrafficField → Traffic → Traffic
bump TrafficField.sent t = record t { sent = suc t.sent }
bump TrafficField.received t = record t { received = suc t.received }
bump TrafficField.acked t = record t { acked = suc t.acked }

unfoldable pub bump_traffic : String → TrafficField → AgentHub → AgentHub
bump_traffic peer field h = record h {
  traffic = set peer (bump field (get_or peer no_traffic h.traffic)) h.traffic;
}

-- One token is 60000 units.
abbrev pub token : ℕ
token = 60000

abbrev refill : ℕ → ℕ → Bucket → ℕ
refill rate now b = min (rate * token) (b.tokens + (now - b.last) * rate)

spend : String → ℕ → ℕ → AgentHub → Bool × AgentHub
spend peer now tokens h =
    if ltb tokens token
    then (false, record h { buckets = set peer (record { tokens = tokens; last = now }) h.buckets })
    else (
      true,
      record h { buckets = set peer (record { tokens = tokens - token; last = now }) h.buckets },
    )

unfoldable pub take_token : Env → String → AgentHub → Bool × AgentHub
unfolding spend
take_token env peer h =
    let rate = or_default env.options.rate_per_min 0 in
    let full : Bucket = record { tokens = rate * token; last = env.now } in
    if leb rate 0
    then (true, h)
    else spend peer env.now (refill rate env.now (get_or peer full h.buckets)) h

abbrev plain : BridgeMessage → DeliveredMessage
plain m = record { message = m; attempts = none; lease_expires_at = none }

abbrev pub attempts_of : String → String → AgentHub → ℕ
attempts_of peer id h = get_or id 0 (get_or peer [] h.lease_attempts)

abbrev pub set_attempts : String → String → ℕ → AgentHub → AgentHub
set_attempts peer id n h = record h {
  lease_attempts = set peer (set id n (get_or peer [] h.lease_attempts)) h.lease_attempts;
}

abbrev pub forget_attempts : String → String → AgentHub → AgentHub
forget_attempts peer id h = record h {
  lease_attempts = set peer (delete id (get_or peer [] h.lease_attempts)) h.lease_attempts;
}

lease_out : Env → String → BridgeMessage → ℕ → AgentHub → DeliveredMessage × AgentHub
lease_out env peer m now h =
    let attempts = suc (attempts_of peer m.id h) in
    let expires = now + or_default env.options.lease_ttl_ms default_lease_ttl_ms in
    let h1 = set_attempts peer m.id attempts h in
    let lease : Lease = record { message = m; expires_at = expires } in
    let h2 = record h1 { leases = set peer (get_or peer [] h1.leases ++ lease ∷ []) h1.leases } in
    (
      record { message = m; attempts = some attempts; lease_expires_at = some expires },
      emit Effect.on_mailboxes_changed h2,
    )

-- `manual` hands out a lease instead of the message; `now` is the caller's reading of the clock.
unfoldable pub hand_out :
    Env → String → BridgeMessage → Bool → ℕ → AgentHub → DeliveredMessage × AgentHub
unfolding lease_out
hand_out env peer m manual now h = if manual then lease_out env peer m now h else (plain m, h)

-- The first waiter of a peer that wants the message, taken off the peer's list.
abbrev take_at : Option ℕ → List Waiter → Option (Waiter × List Waiter)
take_at none ws = none
take_at (some i) ws = elim (get_elem? ws i) [ none ↦ none | some w ↦ some (w, remove_at i ws) ]

unfoldable pub take_waiter : String → BridgeMessage → AgentHub → Option (Waiter × List Waiter)
take_waiter peer m h =
    let list = get_or peer [] h.waiters in
    take_at (find_index (λ w. matches_waiter w m h.task_ledger) list) list

abbrev resolve_one : Waiter → DeliveredMessage × AgentHub → AgentHub
resolve_one w (d, h) = emit (Effect.resolved w.id (WaitResult.message d)) h

unfoldable pub deliver_to_waiter : Env → String → BridgeMessage → AgentHub → AgentHub
unfolding take_waiter hand_out
deliver_to_waiter env peer m h = elim (take_waiter peer m h) [
  | none ↦ h
  | some (w, rest) ↦
      resolve_one w
        (hand_out env peer m w.manual m.ts (record h { waiters = set peer rest h.waiters }))
]

abbrev no_drops : Drops
no_drops = record { overflow = 0; expired = 0; rate = 0 }

abbrev pub total_drops : Drops → ℕ
total_drops d = d.overflow + d.expired + d.rate

-- The three kinds that are counted; the other reasons are never passed to `countDrop`.
abbrev count_one : DropReason → Drops → Drops
count_one DropReason.overflow d = record d { overflow = suc d.overflow }
count_one DropReason.expired d = record d { expired = suc d.expired }
count_one DropReason.rate d = record d { rate = suc d.rate }
count_one _ d = d

abbrev is_expired_reason : DropReason → Bool
is_expired_reason DropReason.expired = true
is_expired_reason _ = false

abbrev lost_id : Option BridgeMessage → Option String
lost_id none = none
lost_id (some m) = some m.id

abbrev lost_task_id : Option BridgeMessage → Option String
lost_task_id none = none
lost_task_id (some m) = if is_task m.kind then some m.id else none

-- The hub's notice to the reader, with its id and sequence number.
drop_notice : Env → String → DropReason → ℕ → AgentHub → BridgeMessage × AgentHub
drop_notice env peer reason total h = (
  record {
    id = env.random_uuid h.uuid_count;
    from = hub_peer;
    to = peer;
    kind = MessageKind.notice;
    content = Content.notice_content (NoticeText.messages_lost reason total) NoticeLevel.warn;
    ref = none;
    channel = none;
    thread_id = none;
    hop = 0;
    priority = none;
    seq = some (suc h.seq_counter);
    expires_at = none;
    ts = env.now;
  },
  record h { seq_counter = suc h.seq_counter; uuid_count = suc h.uuid_count },
)

-- An expiry says nothing about the mailbox, so its notice is queued if there is room.
tell_reader : Env → String → DropReason → BridgeMessage × AgentHub → AgentHub
unfolding deliver_to_waiter
tell_reader env peer reason (notice, h) =
    let queue = get_or peer [] h.queues in
    if is_expired_reason reason && ltb (length queue) env.options.max_queue
    then emit Effect.on_mailboxes_changed (
        emit (Effect.on_queued notice peer)
          (record h { queues = set peer (queue ++ notice ∷ []) h.queues }))
    else deliver_to_waiter env peer notice h

count_drop_event : Env → String → DropReason → Option BridgeMessage → AgentHub → AgentHub
unfolding record_event
count_drop_event env peer reason m h =
    let stats = count_one reason (get_or peer no_drops h.drops) in
    record_event env
      (EventKind.mailbox_dropped reason (total_drops stats) (lost_id m) (lost_task_id m))
      (some peer) (record h { drops = set peer stats h.drops })

unfoldable pub count_drop : Env → String → DropReason → Option BridgeMessage → AgentHub → AgentHub
unfolding count_drop_event drop_notice tell_reader
count_drop env peer reason m h =
    let h1 = count_drop_event env peer reason m h in
    tell_reader env peer reason
      (drop_notice env peer reason (total_drops (get_or peer no_drops h1.drops)) h1)
