-- ===== src/Hub/Deliver/Branches.antt =====
-- What each branch of `deliver` leaves of the mailboxes.
use agent_comm_hub.Prelude.{
  ◌<◌, ◌≡◌, String, str_eq, leb, if◌then◌else◌, Bool, true, false, none, some, refl, ap, ◌∙◌, ◌++◌,
  ltb, str-cases, inl, inr, List, [], ◌∷◌, length, arith,
}
use agent_comm_hub.Protocol.{BridgeMessage, DropReason, hub_peer, is_task}
use agent_comm_hub.Mailbox.{insert_by_priority}
use agent_comm_hub.Dict.{get_or, set}
use agent_comm_hub.Dict.Laws.{get_or-set}
use agent_comm_hub.Hub.State.{Env, AgentHub, Waiter, DeliveredMessage}
use agent_comm_hub.Hub.Outcome.{M, Outcome, done, threw, exhausted}
use agent_comm_hub.Hub.Counters.{
  bump_traffic, TrafficField, take_waiter, take_token, count_drop, hand_out,
}
use agent_comm_hub.Hub.Counters.Frames.{
  take_token-queues, take_token-bump_traffic, take_waiter-bump_traffic, bump_traffic-queues,
  hand_out-queues, rate_drop-queues, expired_drop-queues,
}
use agent_comm_hub.Hub.Events.{record_event}
use agent_comm_hub.Hub.Notes.{mark_task_delivered}
use agent_comm_hub.Hub.Deliver.{
  has_expired, drop_message, hand_over, mark_if_task, make_room, enqueue, accept, resolve_with,
  deliver_with, deliver,
}

-- The outcome is a return, after which the mailbox of the target is the given one and every other
-- mailbox is the one before.
abbrev pub Stores : String → List BridgeMessage → AgentHub → Outcome (Unit {0}) → Type 0
Stores target queue h (done a h') =
    (peer : String)
    → get_or peer [] h'.queues ≡ (if str_eq target peer then queue else get_or peer [] h.queues)
Stores target queue h (threw e h') = ⊥
Stores target queue h exhausted = ⊥

mark_if_task-queues :
    (env : Env) (m : BridgeMessage) (target : String) (h : AgentHub)
    → (mark_if_task env m target h).queues ≡ h.queues
unfolding mark_task_delivered record_event
mark_if_task-queues env m target h = ground arith

enqueue-queues :
    (env : Env) (target : String) (m : BridgeMessage) (h : AgentHub)
    → (enqueue env target m h).queues
      ≡ set target (insert_by_priority (get_or target [] h.queues) (m ∷ [])) h.queues
unfolding enqueue
enqueue-queues env target m h =
    let stored = record h {
      queues = set target (insert_by_priority (get_or target [] h.queues) (m ∷ [])) h.queues;
    } in
    ground (arith, mark_if_task-queues env m target stored)

accept-Stores :
    (env : Env) (deliver : String → BridgeMessage → M (Unit {0})) (target : String)
    (m : BridgeMessage) (h : AgentHub) (p : Bool × AgentHub)
    → p.0 ≡ true
    → p.1.queues ≡ h.queues
    → length (get_or target [] h.queues) < env.options.max_queue
    → Stores target
        (insert_by_priority (get_or target [] h.queues) (m ∷ []))
        h
        (accept env deliver target m p)
unfolding accept make_room
accept-Stores env deliver target m h (allowed, h') ok same room =
    let queue = get_or target [] h.queues in
    let fits : leb env.options.max_queue (length (get_or target [] h'.queues)) ≡ false =
      rw same (ground (arith, room)) in
    rw (ok, accept, make_room, fits)
      (λ peer.
        rw (enqueue-queues env target m h', same)
          (get_or-set peer target (insert_by_priority queue (m ∷ [])) [] h.queues))

pub deliver_with-Stores :
    (env : Env) (deliver : String → BridgeMessage → M (Unit {0})) (target : String)
    (m : BridgeMessage) (h : AgentHub)
    → has_expired env.now m.expires_at ≡ false
    → take_waiter target m h ≡ none
    → (take_token env target h).0 ≡ true
    → length (get_or target [] h.queues) < env.options.max_queue
    → Stores target
        (insert_by_priority (get_or target [] h.queues) (m ∷ []))
        h
        (deliver_with env deliver target m h)
unfolding deliver_with
deliver_with-Stores env deliver target m h fresh nobody ok room =
    let h1 = bump_traffic target TrafficField.received h in
    let unwanted : take_waiter target m h1 ≡ none =
      rw (take_waiter-bump_traffic target TrafficField.received m h) nobody in
    rw (fresh, unwanted, deliver_with)
      (accept-Stores env deliver target m h (take_token env target h1)
        (rw (take_token-bump_traffic env target TrafficField.received h) ok)
        (rw (take_token-queues env target h1) (bump_traffic-queues target TrafficField.received h))
        room)

stays :
    (target : String) (h h' : AgentHub)
    → h'.queues ≡ h.queues
    → Stores target (get_or target [] h.queues) h (done tt h')
stays target h h' e peer = ap (λ d. get_or peer [] d) e ∙ (elim (str-cases target peer) [
  | inl (same, p) ↦ rw (same, p) refl
  | inr (other, n) ↦ rw other refl
])

drop_message-plain :
    (env : Env) (deliver : String → BridgeMessage → M (Unit {0})) (m : BridgeMessage)
    (target : String) (reason : DropReason) (h : AgentHub)
    → is_task m.kind ≡ false
    → drop_message env deliver m target reason h ≡ done tt (count_drop env target reason (some m) h)
unfolding drop_message
drop_message-plain env deliver m target reason h plain = rw plain refl

pub expired-Stores :
    (env : Env) (deliver : String → BridgeMessage → M (Unit {0})) (target : String)
    (m : BridgeMessage) (h : AgentHub)
    → is_task m.kind ≡ false
    → has_expired env.now m.expires_at ≡ true
    → length (get_or target [] h.queues) < env.options.max_queue
    → (n : BridgeMessage) × (n.from ≡ hub_peer)
      × Stores target (get_or target [] h.queues ++ n ∷ []) h (deliver_with env deliver target m h)
unfolding deliver_with
expired-Stores env deliver target m h plain old room =
    let h1 = bump_traffic target TrafficField.received h in
    let same = bump_traffic-queues target TrafficField.received h in
    let fits : ltb (length (get_or target [] h1.queues)) env.options.max_queue ≡ true =
      rw same (ground (arith, room)) in
    let (n, hub, stored) = expired_drop-queues env target (some m) h1 fits in
    (
      n,
      hub,
      rw (old, drop_message-plain env deliver m target DropReason.expired h1 plain)
          (λ peer.
            rw (stored, same)
              (get_or-set peer target (get_or target [] h.queues ++ n ∷ []) [] h.queues)),
    )

resolve_with-queues :
    (w : Waiter) (p : DeliveredMessage × AgentHub) → (resolve_with w p).queues ≡ p.1.queues
resolve_with-queues w (d, h) = refl

pub handed-Stores :
    (env : Env) (deliver : String → BridgeMessage → M (Unit {0})) (target : String)
    (m : BridgeMessage) (h : AgentHub) (w : Waiter) (rest : List Waiter)
    → has_expired env.now m.expires_at ≡ false
    → take_waiter target m h ≡ some (w, rest)
    → Stores target (get_or target [] h.queues) h (deliver_with env deliver target m h)
unfolding deliver_with hand_over
handed-Stores env deliver target m h w rest fresh found =
    let h1 = bump_traffic target TrafficField.received h in
    let found1 : take_waiter target m h1 ≡ some (w, rest) =
      take_waiter-bump_traffic target TrafficField.received m h ∙ found in
    let h2 = mark_if_task env m target h1 in
    let h3 = record h2 { waiters = set target rest h2.waiters } in
    rw (fresh, found1, deliver_with)
      (stays target h (hand_over env target m w rest h1) (
        resolve_with-queues w (hand_out env target m w.manual m.ts h3)
        ∙ hand_out-queues env target m w.manual m.ts h3
        ∙ mark_if_task-queues env m target h1
        ∙ bump_traffic-queues target TrafficField.received h))

refused-Stores :
    (env : Env) (deliver : String → BridgeMessage → M (Unit {0})) (target : String)
    (m : BridgeMessage) (h : AgentHub) (p : Bool × AgentHub)
    → is_task m.kind ≡ false
    → p.0 ≡ false
    → p.1.queues ≡ h.queues
    → Stores target (get_or target [] h.queues) h (accept env deliver target m p)
unfolding accept
refused-Stores env deliver target m h (allowed, h') plain denied same =
    rw (denied, accept, drop_message-plain env deliver m target DropReason.rate h' plain)
      (stays target h (count_drop env target DropReason.rate (some m) h')
        (rate_drop-queues env target (some m) h' ∙ same))

pub unpaid-Stores :
    (env : Env) (deliver : String → BridgeMessage → M (Unit {0})) (target : String)
    (m : BridgeMessage) (h : AgentHub)
    → is_task m.kind ≡ false
    → has_expired env.now m.expires_at ≡ false
    → take_waiter target m h ≡ none
    → (take_token env target h).0 ≡ false
    → Stores target (get_or target [] h.queues) h (deliver_with env deliver target m h)
unfolding deliver_with
unpaid-Stores env deliver target m h plain fresh nobody unpaid =
    let h1 = bump_traffic target TrafficField.received h in
    let unwanted : take_waiter target m h1 ≡ none =
      rw (take_waiter-bump_traffic target TrafficField.received m h) nobody in
    rw (fresh, unwanted, deliver_with)
      (refused-Stores env deliver target m h (take_token env target h1) plain
        (rw (take_token-bump_traffic env target TrafficField.received h) unpaid)
        (rw (take_token-queues env target h1) (bump_traffic-queues target TrafficField.received h)))
