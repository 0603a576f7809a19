-- ===== src/Hub/Counters/Frames.antt =====
-- What the counters and the waiters leave alone.
use agent_comm_hub.Prelude.{
  ℕ, String, ◌≡◌, refl, ◌∙◌, [], ◌∷◌, ◌++◌, true, length, Bool, false, Option, List, arith,
  Bool-cases, Option-cases, inl, inr, ltb, ◌&&◌,
}
use agent_comm_hub.Protocol.{hub_peer, BridgeMessage, DropReason}
use agent_comm_hub.Dict.{set, get_or}
use agent_comm_hub.Hub.State.{Env, AgentHub, Waiter, EventKind, DeliveredMessage}
use agent_comm_hub.Hub.Counters.{
  bump_traffic, TrafficField, take_token, hand_out, deliver_to_waiter, count_drop, tell_reader,
  take_waiter, resolve_one, is_expired_reason, spend,
}
use agent_comm_hub.Hub.Events.{record_event}

-- The same tasks, and the same peers.
pub record SameTasks (h h' : AgentHub) : Type 0 where
  pub ledger : h'.task_ledger ≡ h.task_ledger
  pub seen : h'.last_seen ≡ h.last_seen
  pub parked : h'.parked_at ≡ h.parked_at
  pub groups : h'.groups ≡ h.groups

pub SameTasks-trans : {h h' k : AgentHub} → SameTasks h h' → SameTasks h' k → SameTasks h k
SameTasks-trans a b = record {
  ledger = b.ledger ∙ a.ledger;
  seen = b.seen ∙ a.seen;
  parked = b.parked ∙ a.parked;
  groups = b.groups ∙ a.groups;
}

-- Only other fields differ.
same :
    {h h' : AgentHub}
    → h'.task_ledger ≡ h.task_ledger
    → h'.last_seen ≡ h.last_seen
    → h'.parked_at ≡ h.parked_at
    → h'.groups ≡ h.groups
    → SameTasks h h'
same a b c d = record { ledger = a; seen = b; parked = c; groups = d }

pub bump_traffic-SameTasks :
    (peer : String) (f : TrafficField) (h : AgentHub) → SameTasks h (bump_traffic peer f h)
unfolding bump_traffic
bump_traffic-SameTasks peer f h = same refl refl refl refl

pub record_event-SameTasks :
    (env : Env) (k : EventKind) (p : Option String) (h : AgentHub)
    → SameTasks h (record_event env k p h)
unfolding record_event
record_event-SameTasks env k p h = same refl refl refl refl

pub take_token-SameTasks :
    (env : Env) (peer : String) (h : AgentHub) → SameTasks h (take_token env peer h).1
unfolding take_token
take_token-SameTasks env peer h = ground arith

pub hand_out-SameTasks :
    (env : Env) (peer : String) (m : BridgeMessage) (manual : Bool) (now : ℕ) (h : AgentHub)
    → SameTasks h (hand_out env peer m manual now h).1
unfolding hand_out
hand_out-SameTasks env peer m true now h = same refl refl refl refl
hand_out-SameTasks env peer m false now h = same refl refl refl refl

resolve_one-SameTasks :
    (h : AgentHub) (w : Waiter) (p : DeliveredMessage × AgentHub)
    → SameTasks h p.1
    → SameTasks h (resolve_one w p)
resolve_one-SameTasks h w (d, k) s = SameTasks-trans s (same refl refl refl refl)

taken :
    (peer : String) (rest : List Waiter) (h : AgentHub)
    → SameTasks h (record h { waiters = set peer rest h.waiters })
taken peer rest h = same refl refl refl refl

pub deliver_to_waiter-SameTasks :
    (env : Env) (peer : String) (m : BridgeMessage) (h : AgentHub)
    → SameTasks h (deliver_to_waiter env peer m h)
unfolding deliver_to_waiter
deliver_to_waiter-SameTasks env peer m h = elim (Option-cases (take_waiter peer m h)) [
  | inl e ↦ rw (e, deliver_to_waiter) (same refl refl refl refl)
  | inr ((w, rest), e) ↦
      rw (e, deliver_to_waiter)
        (resolve_one-SameTasks h w _
          (SameTasks-trans (taken peer rest h) (hand_out-SameTasks env peer m w.manual m.ts _)))
]

tell_reader-SameTasks :
    (h : AgentHub) (env : Env) (peer : String) (reason : DropReason) (p : BridgeMessage × AgentHub)
    → SameTasks h p.1
    → SameTasks h (tell_reader env peer reason p)
unfolding tell_reader
tell_reader-SameTasks h env peer reason (m, k) s =
    elim (Bool-cases
      (is_expired_reason reason && ltb (length (get_or peer [] k.queues)) env.options.max_queue)) [
        | inl queued ↦ rw (queued, tell_reader) (SameTasks-trans s (same refl refl refl refl))
        | inr told ↦
            rw (told, tell_reader) (SameTasks-trans s (deliver_to_waiter-SameTasks env peer m k))
      ]

-- Counting a drop touches no task, no registration and no group.
pub count_drop-SameTasks :
    (env : Env) (peer : String) (reason : DropReason) (m : Option BridgeMessage) (h : AgentHub)
    → SameTasks h (count_drop env peer reason m h)
unfolding count_drop
count_drop-SameTasks env peer reason m h =
    tell_reader-SameTasks h env peer reason _ (same refl refl refl refl)

pub take_token-queues :
    (env : Env) (target : String) (h : AgentHub) → (take_token env target h).1.queues ≡ h.queues
unfolding take_token spend
take_token-queues env target h = ground arith

pub take_token-bump_traffic :
    (env : Env) (target : String) (f : TrafficField) (h : AgentHub)
    → (take_token env target (bump_traffic target f h)).0 ≡ (take_token env target h).0
unfolding take_token spend bump_traffic
take_token-bump_traffic env target f h = ground arith

pub take_waiter-bump_traffic :
    (target : String) (f : TrafficField) (m : BridgeMessage) (h : AgentHub)
    → take_waiter target m (bump_traffic target f h) ≡ take_waiter target m h
unfolding take_waiter bump_traffic
take_waiter-bump_traffic target f m h = refl

pub bump_traffic-queues :
    (target : String) (f : TrafficField) (h : AgentHub)
    → (bump_traffic target f h).queues ≡ h.queues
unfolding bump_traffic
bump_traffic-queues target f h = refl

pub hand_out-queues :
    (env : Env) (peer : String) (m : BridgeMessage) (manual : Bool) (now : ℕ) (h : AgentHub)
    → (hand_out env peer m manual now h).1.queues ≡ h.queues
unfolding hand_out
hand_out-queues env peer m true now h = refl
hand_out-queues env peer m false now h = refl

resolve_one-queues :
    (w : Waiter) (p : DeliveredMessage × AgentHub) → (resolve_one w p).queues ≡ p.1.queues
resolve_one-queues w (d, h) = refl

deliver_to_waiter-queues :
    (env : Env) (peer : String) (m : BridgeMessage) (h : AgentHub)
    → (deliver_to_waiter env peer m h).queues ≡ h.queues
unfolding deliver_to_waiter
deliver_to_waiter-queues env peer m h = elim (Option-cases (take_waiter peer m h)) [
  | inl e ↦ rw (e, deliver_to_waiter) refl
  | inr ((w, rest), e) ↦
      let h1 = record h { waiters = set peer rest h.waiters } in
      rw (e, deliver_to_waiter)
        (resolve_one-queues w (hand_out env peer m w.manual m.ts h1)
          ∙ hand_out-queues env peer m w.manual m.ts h1)
]

tell_rate-queues :
    (env : Env) (peer : String) (p : BridgeMessage × AgentHub)
    → (tell_reader env peer DropReason.rate p).queues ≡ p.1.queues
unfolding tell_reader
tell_rate-queues env peer (n, h) = deliver_to_waiter-queues env peer n h

tell_expired-queues :
    (env : Env) (peer : String) (p : BridgeMessage × AgentHub)
    → ltb (length (get_or peer [] p.1.queues)) env.options.max_queue ≡ true
    → (tell_reader env peer DropReason.expired p).queues
      ≡ set peer (get_or peer [] p.1.queues ++ p.0 ∷ []) p.1.queues
unfolding tell_reader
tell_expired-queues env peer (n, h) room = rw (room, tell_reader) refl

-- A drop for the rate leaves the mailboxes; one for the expiry puts a notice of the hub into the mailbox,
-- if there is room.
pub rate_drop-queues :
    (env : Env) (peer : String) (m : Option BridgeMessage) (h : AgentHub)
    → (count_drop env peer DropReason.rate m h).queues ≡ h.queues
unfolding count_drop
rate_drop-queues env peer m h = tell_rate-queues env peer _

pub expired_drop-queues :
    (env : Env) (peer : String) (m : Option BridgeMessage) (h : AgentHub)
    → ltb (length (get_or peer [] h.queues)) env.options.max_queue ≡ true
    → (n : BridgeMessage) × (n.from ≡ hub_peer)
      × ((count_drop env peer DropReason.expired m h).queues
          ≡ set peer (get_or peer [] h.queues ++ n ∷ []) h.queues)
unfolding count_drop
expired_drop-queues env peer m h room = (_, refl, tell_expired-queues env peer _ room)
