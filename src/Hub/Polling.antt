-- ===== src/Hub/Polling.antt =====
-- src/hub.ts, how a peer takes its mail: `sweepExpired`, `poll` and `wait`. A wait that finds
-- nothing registers a waiter; its timer and its abort signal are the later calls of `wait_over`.
pub mod Taking
pub mod Waited
mod Tests
use agent_comm_hub.Prelude.{
  ℕ, zero, suc, ◌+◌, ◌-◌, min, max, String, ltb, ◌==◌, if◌then◌else◌, Bool, not, Option, none, some,
  List, [], ◌∷◌, ◌++◌, length, filter, find, remove_at, get_elem?,
}
use agent_comm_hub.Protocol.{BridgeMessage, TaskRecord, DropReason, is_task}
use agent_comm_hub.Protocol.Status.{AckStatus, TaskStatus}
use agent_comm_hub.Mailbox.{drain_from}
use agent_comm_hub.Dict.{get, set, get_or}
use agent_comm_hub.Hub.State.{Env, AgentHub, Waiter, DeliveredMessage, WaitResult, Effect, emit}
use agent_comm_hub.Hub.Outcome.{M, ◌>>◌, return}
use agent_comm_hub.Hub.Matching.{matches_waiter, is_party}
use agent_comm_hub.Hub.Counters.{count_drop, forget_attempts, hand_out}
use agent_comm_hub.Hub.Notes.{note_task_delivery_dropped}
use agent_comm_hub.Hub.Deliver.{deliver_now, has_expired}
use agent_comm_hub.Hub.Leases.{reap_leases}

abbrev pub queue_of : String → AgentHub → List BridgeMessage
queue_of peer h = get_or peer [] h.queues

unfoldable expire : Env → String → ℕ → BridgeMessage → M (Unit {0})
expire env peer i m h =
    let removed = record h { queues = set peer (remove_at i (queue_of peer h)) h.queues } in
    let counted =
      count_drop env peer DropReason.expired (some m) (forget_attempts peer m.id removed) in
    if is_task m.kind
    then note_task_delivery_dropped env (deliver_now env) m.id peer DropReason.expired counted
    else return tt counted

-- One round of the loop, at index `i` of the queue as it is then.
unfoldable sweep_at : Env → String → ℕ → Option BridgeMessage → M (Unit {0})
sweep_at env peer i none h = return tt h
sweep_at env peer i (some m) h =
    if has_expired env.now m.expires_at then expire env peer i m h else return tt h

-- `for (let i = n - 1; i >= 0; i--)`
unfoldable sweep_below : Env → String → ℕ → M (Unit {0})
sweep_below env peer zero = return tt
sweep_below env peer (suc i) =
    (λ h. sweep_at env peer i (get_elem? (queue_of peer h) i) h) >> sweep_below env peer i

unfoldable pub sweep_expired : Env → String → M (Unit {0})
unfolding sweep_below sweep_at expire
sweep_expired env peer h = sweep_below env peer (length (queue_of peer h)) h

-- `messages.map(message => this.handOut(…))`
unfoldable pub hand_out_all :
    Env → String → Bool → List BridgeMessage → AgentHub → List DeliveredMessage × AgentHub
hand_out_all env peer manual [] h = ([], h)
hand_out_all env peer manual (m ∷ ms) h =
    let (d, h1) = hand_out env peer m manual env.now h in
    let (ds, h2) = hand_out_all env peer manual ms h1 in (d ∷ ds, h2)

abbrev pub changed_if : List BridgeMessage → AgentHub → AgentHub
changed_if [] h = h
changed_if (m ∷ ms) h = emit Effect.on_mailboxes_changed h

abbrev drain : Option String → List BridgeMessage → List BridgeMessage × List BridgeMessage
drain none queue = (queue, [])
drain (some from) queue = drain_from queue from

-- Without a queue there is nothing to write back.
abbrev pub write_queue : String → List BridgeMessage → AgentHub → AgentHub
write_queue peer queue h = elim (get peer h.queues) [
  | none ↦ h
  | some _ ↦ record h { queues = set peer queue h.queues }
]

abbrev return_pair {ℓ} : {A : Type ℓ} → A × AgentHub → M A
return_pair (a, h) _ = return a h

unfoldable hand_out_drained : Env → String → Option String → Bool → M (List DeliveredMessage)
hand_out_drained env peer from manual h =
    let (drained, kept) = drain from (queue_of peer h) in
    return_pair
      (hand_out_all env peer manual drained (changed_if drained (write_queue peer kept h))) h

unfoldable pub poll : Env → String → Option String → Bool → M (List DeliveredMessage)
unfolding hand_out_drained hand_out_all
poll env peer from manual = do
  reap_leases env peer
  sweep_expired env peer
  hand_out_drained env peer from manual

pub record WaitOptions : Type 0 where
  pub timeout_ms : ℕ
  pub from : Option String
  pub ref : Option String
  pub thread_id : Option String
  pub manual : Bool
  pub max_messages : ℕ
  pub statuses : Option (List AckStatus)
  pub terminal_only : Bool
  pub aborted : Bool

abbrev pub waiter_of : Env → WaitOptions → ℕ → Waiter
waiter_of env o id = record {
  id = id;
  started_at = env.now;
  due = env.now + max 1 (min o.timeout_ms env.options.wait_timeout_ms);
  from = o.from;
  ref = o.ref;
  statuses = o.statuses;
  terminal_only = o.terminal_only;
  thread_id = o.thread_id;
  manual = o.manual;
  batch = ltb 1 o.max_messages;
}

-- The first `n` messages that pass, and the queue without them.
unfoldable pub take_matching :
    (BridgeMessage → Bool) → ℕ → List BridgeMessage → List BridgeMessage × List BridgeMessage
take_matching wanted n [] = ([], [])
take_matching wanted zero (m ∷ q) = ([], m ∷ q)
take_matching wanted (suc n) (m ∷ q) =
    let (taken, left) = take_matching wanted (if wanted m then n else suc n) q in
    if wanted m then (m ∷ taken, left) else (taken, m ∷ left)

-- The ledger's view of the ref for a wait that ran out, if the waiting peer is a party to it.
abbrev snapshot_of : String → Option TaskRecord → Option TaskStatus
snapshot_of peer none = none
snapshot_of peer (some task) = if is_party peer task then some task.status else none

abbrev snapshot : String → Option String → AgentHub → Option TaskStatus
snapshot peer none h = none
snapshot peer (some r) h = snapshot_of peer (get r h.task_ledger)

abbrev pub timed_out : String → Waiter → ℕ → AgentHub → WaitResult
timed_out peer w now h = WaitResult.timeout (now - w.started_at) (snapshot peer w.ref h)

-- Nothing is there: an aborted call ends at once, any other leaves a waiter.
unfoldable pub register_waiter : Env → String → WaitOptions → M (Option WaitResult)
register_waiter env peer o h =
    let w = waiter_of env o h.waiter_count in
    let h1 = record h { waiter_count = suc h.waiter_count } in
    if o.aborted
    then return (some (timed_out peer w env.now h1)) h1
    else return none
        (record h1 { waiters = set peer (get_or peer [] h1.waiters ++ w ∷ []) h1.waiters })

-- The shape follows the request, not the count.
abbrev pub shape : ℕ → List DeliveredMessage → Option WaitResult
shape n [] = none
shape n (d ∷ ds) = some (if ltb 1 n then WaitResult.messages (d ∷ ds) else WaitResult.message d)

abbrev pub return_shape : ℕ → List DeliveredMessage × AgentHub → M (Option WaitResult)
return_shape n (ds, h) _ = return (shape n ds) h

unfoldable pub take_now : Env → String → WaitOptions → M (Option WaitResult)
take_now env peer o h =
    let n = max 1 o.max_messages in
    let (taken, left) =
      take_matching (λ m. matches_waiter (waiter_of env o h.waiter_count) m h.task_ledger) n
        (queue_of peer h) in
    if length taken == 0
    then register_waiter env peer o h
    else return_shape n
        (hand_out_all env peer o.manual taken (changed_if taken (write_queue peer left h))) h

-- `some` is a promise that is resolved at once; `none` leaves a waiter behind.
unfoldable pub wait : Env → String → WaitOptions → M (Option WaitResult)
unfolding take_now register_waiter hand_out_all
wait env peer o = do reap_leases env peer; sweep_expired env peer; take_now env peer o

-- The waiter's timer fired or its signal aborted; a waiter that is no longer there was settled.
unfoldable pub wait_over : Env → String → ℕ → AgentHub → AgentHub
wait_over env peer id h =
    let list = get_or peer [] h.waiters in
    elim (find (λ w. w.id == id) list) [
      | none ↦ h
      | some w ↦
          let rest = filter (λ v. not (v.id == id)) list in
          let h1 = record h { waiters = set peer rest h.waiters } in
          emit (Effect.resolved id (timed_out peer w env.now h1)) h1
    ]
