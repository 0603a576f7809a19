-- ===== src/Hub/Deliver.antt =====
-- src/hub.ts, `deliver` and the entry points that end in it, `route` and `send`.
--
-- A full mailbox gives up a message; if that is a task, its sender is warned by a notice, which is
-- delivered in the same call and may meet a full mailbox in turn. The recursion runs on fuel. Each
-- round marks one open task of the ledger as warned about, so one unit more than there are
-- unmarked tasks is enough (Hub/Deliver/Total).
pub mod Total
pub mod Branches
pub mod Places
mod Tests
use agent_comm_hub.Prelude.{
  ℕ, zero, suc, String, ltb, leb, if◌then◌else◌, Bool, true, false, Option, none, some, List, [],
  ◌∷◌, length, get_elem?, remove_at,
}
use agent_comm_hub.Protocol.{BridgeMessage, TaskRecord, DropReason, MessageKind, Content, is_task}
use agent_comm_hub.Mailbox.{insert_by_priority, lowest_priority_index}
use agent_comm_hub.Dict.{Dict, get, set, get_or, values}
use agent_comm_hub.Hub.State.{Env, AgentHub, Waiter, WaitResult, DeliveredMessage, Effect, emit}
use agent_comm_hub.Hub.Outcome.{M, Outcome, ◌>>=◌, ◌>>◌, return, exhausted}
use agent_comm_hub.Hub.Counters.{
  bump_traffic, TrafficField, take_waiter, hand_out, take_token, count_drop, forget_attempts,
}
use agent_comm_hub.Hub.Notes.{mark_task_delivered, note_task_delivery_dropped}
use agent_comm_hub.Hub.Compose.{Draft, route}
use agent_comm_hub.Hub.Settling.{unmarked}

-- `message.expiresAt !== undefined && message.expiresAt <= now`
abbrev pub has_expired : ℕ → Option ℕ → Bool
has_expired now none = false
has_expired now (some t) = leb t now

abbrev pub mark_if_task : Env → BridgeMessage → String → AgentHub → AgentHub
mark_if_task env m target h =
    if is_task m.kind then mark_task_delivered env m.id target m.ts h else h

abbrev note_if_task :
    Env
    → (String → BridgeMessage → M (Unit {0}))
    → BridgeMessage
    → String
    → DropReason
    → M (Unit {0})
note_if_task env deliver m target reason h =
    if is_task m.kind
    then note_task_delivery_dropped env deliver m.id target reason h
    else return tt h

-- A message that is dropped on its way is counted, and a task is noted in the ledger.
drop_message :
    Env
    → (String → BridgeMessage → M (Unit {0}))
    → BridgeMessage
    → String
    → DropReason
    → M (Unit {0})
drop_message env deliver m target reason h =
    note_if_task env deliver m target reason (count_drop env target reason (some m) h)

abbrev result_for : Waiter → DeliveredMessage → WaitResult
result_for w d = if w.batch then WaitResult.messages (d ∷ []) else WaitResult.message d

abbrev resolve_with : Waiter → DeliveredMessage × AgentHub → AgentHub
resolve_with w (d, h) = emit (Effect.resolved w.id (result_for w d)) h

-- The message goes to a waiter of the target.
hand_over : Env → String → BridgeMessage → Waiter → List Waiter → AgentHub → AgentHub
hand_over env target m w rest h =
    let h1 = mark_if_task env m target h in
    resolve_with w
      (hand_out env target m w.manual m.ts (record h1 { waiters = set target rest h1.waiters }))

abbrev at_index : Option ℕ → List BridgeMessage → Option BridgeMessage
at_index none queue = none
at_index (some i) queue = get_elem? queue i

abbrev without_index : Option ℕ → List BridgeMessage → List BridgeMessage
without_index none queue = queue
without_index (some i) queue = remove_at i queue

-- The victim of a full mailbox is taken out and dropped.
drop_victim :
    Env
    → (String → BridgeMessage → M (Unit {0}))
    → String
    → List BridgeMessage
    → Option BridgeMessage
    → M (Unit {0})
drop_victim env deliver target left none h =
    return tt (count_drop env target DropReason.overflow none h)
drop_victim env deliver target left (some v) h =
    drop_message env deliver v target DropReason.overflow
      (forget_attempts target v.id (record h { queues = set target left h.queues }))

make_room : Env → (String → BridgeMessage → M (Unit {0})) → String → M (Unit {0})
make_room env deliver target h =
    let queue = get_or target [] h.queues in
    let v = lowest_priority_index queue in
    if leb env.options.max_queue (length queue)
    then drop_victim env deliver target (without_index v queue) (at_index v queue) h
    else return tt h

abbrev queued_task : BridgeMessage → String → AgentHub → AgentHub
queued_task m target h = if is_task m.kind then emit (Effect.on_task_queued m target) h else h

-- The message goes into the mailbox, in delivery order.
enqueue : Env → String → BridgeMessage → AgentHub → AgentHub
enqueue env target m h =
    let queue = insert_by_priority (get_or target [] h.queues) (m ∷ []) in
    let h1 = mark_if_task env m target (record h { queues = set target queue h.queues }) in
    queued_task m target (emit (Effect.on_queued m target) h1)

-- No waiter wants the message: the bucket decides, and then the mailbox makes room.
accept :
    Env
    → (String → BridgeMessage → M (Unit {0}))
    → String
    → BridgeMessage
    → Bool × AgentHub
    → Outcome (Unit {0})
accept env deliver target m (false, h) = drop_message env deliver m target DropReason.rate h
accept env deliver target m (true, h) =
    (make_room env deliver target >> λ h'. return tt (enqueue env target m h')) h

-- One call of `deliver`, by what it hands the notices of the hub to.
pub deliver_with :
    Env → (String → BridgeMessage → M (Unit {0})) → String → BridgeMessage → M (Unit {0})
deliver_with env deliver target m h =
    let h1 = bump_traffic target TrafficField.received h in
    if has_expired env.now m.expires_at
    then drop_message env deliver m target DropReason.expired h1
    else elim (take_waiter target m h1) [
      | some (w, rest) ↦ return tt (hand_over env target m w rest h1)
      | none ↦ accept env deliver target m (take_token env target h1)
    ]

pub deliver : ℕ → Env → String → BridgeMessage → M (Unit {0})
deliver zero env target m = λ h. exhausted
deliver (suc fuel) env target m = deliver_with env (deliver fuel env) target m

-- Delivery with the fuel that the state asks for.
unfoldable pub deliver_now : Env → String → BridgeMessage → M (Unit {0})
deliver_now env target m h = deliver (suc (unmarked h.task_ledger)) env target m h

unfoldable pub route_now : Env → Draft → M BridgeMessage
route_now env d = route env (deliver_now env) d

-- The options of `send`.
pub record SendOptions : Type 0 where
  pub ref : Option String
  pub thread_id : Option String
  pub expires_at : Option ℕ
  pub priority : Option ℕ

-- `kind` is a chat or a notice.
unfoldable pub send : Env → String → String → MessageKind → Content → SendOptions → M BridgeMessage
send env from to kind content opts = route_now env (record {
  from = from;
  to = to;
  kind = kind;
  content = content;
  ref = opts.ref;
  thread_id = opts.thread_id;
  expires_at = opts.expires_at;
  system = false;
  priority = opts.priority;
})
