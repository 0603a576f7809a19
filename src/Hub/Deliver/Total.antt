-- ===== src/Hub/Deliver/Total.antt =====
-- Delivery ends: the fuel is enough, and nothing on the way throws.
use agent_comm_hub.Prelude.{
  ℕ, zero, suc, ◌≤◌, ◌<◌, ◌≡◌, refl, String, leb, Bool, true, false, Option, none, some, List, [],
  ◌∷◌, ◌∙◌, arith, Bool-cases, Option-cases, inl, inr, length,
}
use agent_comm_hub.Protocol.{BridgeMessage, DropReason, is_task}
use agent_comm_hub.Mailbox.{lowest_priority_index, insert_by_priority}
use agent_comm_hub.Dict.{get_or, set}
use agent_comm_hub.Hub.State.{Env, AgentHub, Waiter, DeliveredMessage, Effect, emit}
use agent_comm_hub.Hub.Outcome.{M}
use agent_comm_hub.Hub.Counters.{
  bump_traffic, TrafficField, count_drop, take_token, hand_out, take_waiter, forget_attempts,
}
use agent_comm_hub.Hub.Counters.Frames.{
  count_drop-SameTasks, take_token-SameTasks, hand_out-SameTasks, bump_traffic-SameTasks,
}
use agent_comm_hub.Hub.Settling.{
  Settles, Settles-mono, Settles-and_then, marks_of_same, open_marks, Delivers,
}
use agent_comm_hub.Hub.Notes.Settles.{mark_task_delivered-marks, note_task_delivery_dropped-Settles}
use agent_comm_hub.Hub.Deliver.{
  has_expired, mark_if_task, drop_message, resolve_with, hand_over, drop_victim, make_room, enqueue,
  accept, deliver_with, deliver, at_index, without_index, queued_task,
}

mark_if_task-marks :
    (env : Env) (m : BridgeMessage) (target : String) (h : AgentHub)
    → open_marks (mark_if_task env m target h) ≡ open_marks h
mark_if_task-marks env m target h = ground (arith, mark_task_delivered-marks env m.id target m.ts h)

resolve_with-marks :
    (w : Waiter) (p : DeliveredMessage × AgentHub) → open_marks (resolve_with w p) ≡ open_marks p.1
resolve_with-marks w (d, h) = refl

hand_over-marks :
    (env : Env) (target : String) (m : BridgeMessage) (w : Waiter) (rest : List Waiter)
    (h : AgentHub)
    → open_marks (hand_over env target m w rest h) ≤ open_marks h
unfolding hand_over
hand_over-marks env target m w rest h =
    let h1 = mark_if_task env m target h in
    let h2 = record h1 { waiters = set target rest h1.waiters } in
    omega (
      arith,
      resolve_with-marks w (hand_out env target m w.manual m.ts h2),
      marks_of_same (hand_out-SameTasks env target m w.manual m.ts h2),
      mark_if_task-marks env m target h,
    )

queued_task-marks :
    (m : BridgeMessage) (target : String) (h : AgentHub)
    → open_marks (queued_task m target h) ≡ open_marks h
queued_task-marks m target h = ground arith

enqueue-marks :
    (env : Env) (target : String) (m : BridgeMessage) (h : AgentHub)
    → open_marks (enqueue env target m h) ≡ open_marks h
unfolding enqueue
enqueue-marks env target m h =
    let queue = insert_by_priority (get_or target [] h.queues) (m ∷ []) in
    let stored = record h { queues = set target queue h.queues } in
    queued_task-marks m target (emit (Effect.on_queued m target) (mark_if_task env m target stored))
    ∙ mark_if_task-marks env m target stored

module _ (env : Env) (b : ℕ) (deliver : String → BridgeMessage → M (Unit {0}))
    (good : Delivers b deliver) where
  drop_message-Settles :
      (m : BridgeMessage) (target : String) (reason : DropReason) (h : AgentHub)
      → open_marks h < suc b
      → Settles (open_marks h) (drop_message env deliver m target reason h)
  unfolding drop_message
  drop_message-Settles m target reason h l =
      let less = marks_of_same (count_drop-SameTasks env target reason (some m) h) in
      let counted = count_drop env target reason (some m) h in
      elim (Bool-cases (is_task m.kind)) [
        | inl task ↦
            rw (task, drop_message)
              (Settles-mono _ _ _ less (
                note_task_delivery_dropped-Settles env b deliver good m.id target reason counted
                  (omega arith)))
        | inr other ↦ rw (other, drop_message) less
      ]

  drop_victim-Settles :
      (target : String) (left : List BridgeMessage) (v : Option BridgeMessage) (h : AgentHub)
      → open_marks h < suc b
      → Settles (open_marks h) (drop_victim env deliver target left v h)
  unfolding drop_victim
  drop_victim-Settles target left none h l =
      marks_of_same (count_drop-SameTasks env target DropReason.overflow none h)
  drop_victim-Settles target left (some v) h l =
      drop_message-Settles v target DropReason.overflow
        (forget_attempts target v.id (record h { queues = set target left h.queues })) l

  make_room-Settles :
      (target : String) (h : AgentHub)
      → open_marks h < suc b
      → Settles (open_marks h) (make_room env deliver target h)
  unfolding make_room
  make_room-Settles target h l =
      let queue = get_or target [] h.queues in
      let v = lowest_priority_index queue in
      elim (Bool-cases (leb env.options.max_queue (length queue))) [
        | inl full ↦
            rw (full, make_room)
              (drop_victim-Settles target (without_index v queue) (at_index v queue) h l)
        | inr room ↦ rw (room, make_room) (omega arith)
      ]

  accept-Settles :
      (target : String) (m : BridgeMessage) (n : ℕ) (p : Bool × AgentHub)
      → open_marks p.1 ≤ n
      → n < suc b
      → Settles n (accept env deliver target m p)
  unfolding accept
  accept-Settles target m n (false, h) le l =
      Settles-mono _ _ _ le (drop_message-Settles m target DropReason.rate h (omega arith))
  accept-Settles target m n (true, h) le l =
      Settles-and_then (open_marks h) n (make_room env deliver target h) _
        (make_room-Settles target h (omega arith))
        (λ a h' le'. omega (arith, enqueue-marks env target m h'))

  deliver_with-Settles :
      (target : String) (m : BridgeMessage) (h : AgentHub)
      → open_marks h < suc b
      → Settles (open_marks h) (deliver_with env deliver target m h)
  unfolding deliver_with
  deliver_with-Settles target m h l =
      let h1 = bump_traffic target TrafficField.received h in
      let le = marks_of_same (bump_traffic-SameTasks target TrafficField.received h) in
      elim (Bool-cases (has_expired env.now m.expires_at)) [
        | inl late ↦
            rw (late, deliver_with)
              (Settles-mono _ _ _ le
                (drop_message-Settles m target DropReason.expired h1 (omega arith)))
        | inr fresh ↦ elim (Option-cases (take_waiter target m h1)) [
          | inl nobody ↦
              rw (fresh, nobody, deliver_with)
                (accept-Settles target m (open_marks h) (take_token env target h1)
                  (omega (arith, marks_of_same (take_token-SameTasks env target h1))) l)
          | inr ((w, rest), waits) ↦
              rw (fresh, waits, deliver_with)
                (omega (arith, hand_over-marks env target m w rest h1))
        ]
      ]

-- Delivery to any peer returns, and throws nothing, once the fuel exceeds the number of tasks in
-- the ledger whose sender was not warned yet; and it leaves no more such tasks than it found.
pub deliver-Settles :
    (fuel : ℕ) (env : Env) (target : String) (m : BridgeMessage) (h : AgentHub)
    → open_marks h < fuel
    → Settles (open_marks h) (deliver fuel env target m h)
unfolding deliver
deliver-Settles zero env target m h l = absurd (omega arith)
deliver-Settles (suc fuel) env target m h l =
    deliver_with-Settles env fuel (deliver fuel env) (deliver-Settles fuel env) target m h l
