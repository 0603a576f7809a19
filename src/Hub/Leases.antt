-- ===== src/Hub/Leases.antt =====
-- src/hub.ts, mail handed out under a lease and mail coming back: `sweepExpired`, `reapLeases`,
-- `requeue`, `deadLetter`, `commit`, `nack`, `poll` and the immediate part of `wait`.
pub mod Commit
mod Tests
use agent_comm_hub.Prelude.{
  ℕ, suc, ◌-◌, String, str_eq, ltb, leb, if◌then◌else◌, Bool, ◌&&◌, not, some, List, [], ◌∷◌, ◌++◌,
  map, length, take, drop, any, filter, or_default,
}
use agent_comm_hub.Protocol.{BridgeMessage, DropReason, is_task}
use agent_comm_hub.Mailbox.{insert_by_priority}
use agent_comm_hub.Dict.{Dict, set, delete, get_or}
use agent_comm_hub.Hub.State.{
  Env, AgentHub, Lease, Effect, emit, max_dead_letters, default_max_attempts,
}
use agent_comm_hub.Hub.Outcome.{M, ◌>>◌, return}
use agent_comm_hub.Hub.Counters.{count_drop, forget_attempts, attempts_of}
use agent_comm_hub.Hub.Notes.{note_task_delivery_dropped}
use agent_comm_hub.Hub.Deliver.{deliver_now}
use agent_comm_hub.Hub.Failing.{fail_task_for_dropped_message}

-- A task that is parked in the dead letters is noted in the ledger.
unfoldable note_dead : Env → String → BridgeMessage → M (Unit {0})
note_dead env peer m h =
    if is_task m.kind
    then note_task_delivery_dropped env (deliver_now env) m.id peer DropReason.dead_letter h
    else return tt h

unfoldable note_all_dead : Env → String → List BridgeMessage → M (Unit {0})
note_all_dead env peer [] = return tt
note_all_dead env peer (m ∷ ms) = do note_dead env peer m; note_all_dead env peer ms

-- A dead letter that is evicted is gone for good.
unfoldable evict_dead : Env → String → BridgeMessage → M (Unit {0})
evict_dead env peer m h =
    let counted = count_drop env peer DropReason.overflow (some m) (forget_attempts peer m.id h) in
    if is_task m.kind
    then fail_task_for_dropped_message env m peer DropReason.dead_letter_evicted counted
    else return tt counted

unfoldable evict_all_dead : Env → String → List BridgeMessage → M (Unit {0})
evict_all_dead env peer [] = return tt
evict_all_dead env peer (m ∷ ms) = do evict_dead env peer m; evict_all_dead env peer ms

unfoldable pub dead_letter : Env → String → List BridgeMessage → M (Unit {0})
unfolding note_all_dead evict_all_dead note_dead evict_dead
dead_letter env peer ms h =
    let dead = get_or peer [] h.dead_letters ++ ms in
    let over = length dead - max_dead_letters in
    (do note_all_dead env peer ms; evict_all_dead env peer (take over dead))
      (record h { dead_letters = set peer (drop over dead) h.dead_letters })

-- How many of the returned messages the queue still holds.
abbrev pub count_kept : List BridgeMessage → List BridgeMessage → ℕ
count_kept [] queue = 0
count_kept (m ∷ ms) queue =
    if any (λ n. str_eq n.id m.id) queue then suc (count_kept ms queue) else count_kept ms queue

unfoldable dead_letter_some : Env → String → List BridgeMessage → M (Unit {0})
dead_letter_some env peer [] = return tt
dead_letter_some env peer (m ∷ ms) = dead_letter env peer (m ∷ ms)

-- The tail of the queue that does not fit, last message first, as `pop` gives it.
abbrev pub popped : List BridgeMessage → List BridgeMessage
popped [] = []
popped (m ∷ ms) = popped ms ++ m ∷ []

unfoldable requeue_some : Env → String → List BridgeMessage → M ℕ
requeue_some env peer ms h =
    let queue = insert_by_priority (get_or peer [] h.queues) ms in
    let kept = take env.options.max_queue queue in
    let overflow = popped (drop env.options.max_queue queue) in
    (dead_letter_some env peer overflow >> λ h'.
    return (count_kept ms (get_or peer [] h'.queues)) h')
      (emit Effect.on_mailboxes_changed (record h { queues = set peer kept h.queues }))

unfoldable pub requeue : Env → String → List BridgeMessage → M ℕ
unfolding requeue_some dead_letter_some
requeue env peer [] = return 0
requeue env peer (m ∷ ms) = requeue_some env peer (m ∷ ms)

-- `if (still.length > 0) set else delete`
abbrev pub store {ℓ} : {A : Type ℓ} → String → List A → Dict (List A) → Dict (List A)
store peer [] d = delete peer d
store peer (x ∷ xs) d = set peer (x ∷ xs) d

abbrev pub is_live : ℕ → Lease → Bool
is_live now l = ltb now l.expires_at

-- The lease was handed out as often as the options allow.
abbrev pub is_spent : Env → String → AgentHub → Lease → Bool
is_spent env peer h l =
    let limit = or_default env.options.max_attempts default_max_attempts in
    ltb 0 limit && leb limit (attempts_of peer l.message.id h)

abbrev pub messages_of : List Lease → List BridgeMessage
messages_of = map λ l. l.message

unfoldable pub reap_leases : Env → String → M (Unit {0})
unfolding dead_letter_some
reap_leases env peer h =
    let list = get_or peer [] h.leases in
    let ended = filter (λ l. not (is_live env.now l)) list in
    let back = messages_of (filter (λ l. not (is_spent env peer h l)) ended) in
    let dead = messages_of (filter (is_spent env peer h) ended) in
    (do requeue env peer back; dead_letter_some env peer dead)
      (record h { leases = store peer (filter (is_live env.now) list) h.leases })

abbrev pub wants : List String → String → Bool
wants ids id = any (λ i. str_eq i id) ids

forget_all : String → List BridgeMessage → AgentHub → AgentHub
forget_all peer [] h = h
forget_all peer (m ∷ ms) h = forget_all peer ms (forget_attempts peer m.id h)

abbrev changed_if_any : List BridgeMessage → AgentHub → AgentHub
changed_if_any [] h = h
changed_if_any (m ∷ ms) h = emit Effect.on_mailboxes_changed h

unfoldable pub commit : String → List String → AgentHub → ℕ × AgentHub
unfolding forget_all
commit peer ids h =
    let list = get_or peer [] h.leases in
    let released = messages_of (filter (λ l. wants ids l.message.id) list) in
    let still = filter (λ l. not (wants ids l.message.id)) list in
    let forgot = forget_all peer released h in
    (
      length released,
      changed_if_any released (record forgot { leases = store peer still forgot.leases }),
    )

-- Gives messages back, out of live leases, which keep their attempts, and out of the dead letters,
-- which start over.
unfoldable pub nack : Env → String → List String → M ℕ
unfolding forget_all
nack env peer ids h =
    let list = get_or peer [] h.leases in
    let leased = messages_of (filter (λ l. wants ids l.message.id) list) in
    let dead = get_or peer [] h.dead_letters in
    let revived = filter (λ m. wants ids m.id) dead in
    let forgot = forget_all peer revived h in
    requeue env peer (leased ++ revived) (record forgot {
      leases = store peer (filter (λ l. not (wants ids l.message.id)) list) forgot.leases;
      dead_letters = store peer (filter (λ m. not (wants ids m.id)) dead) forgot.dead_letters;
    })
