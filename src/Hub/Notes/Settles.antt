-- ===== src/Hub/Notes/Settles.antt =====
-- Noting a lost delivery settles, and warns no sender twice.
use agent_comm_hub.Prelude.{
  ℕ, suc, ◌+◌, ◌<◌, ◌≡◌, refl, String, true, false, Option, none, some, arith, Bool-cases,
  Option-cases, inl, inr,
}
use agent_comm_hub.Protocol.{BridgeMessage, TaskRecord, DropReason, NoticeText, AssigneeState}
use agent_comm_hub.Timeline.{push_ack_event}
use agent_comm_hub.Dict.{get}
use agent_comm_hub.Hub.State.{Env, AgentHub}
use agent_comm_hub.Hub.Outcome.{M, return, and_then}
use agent_comm_hub.Hub.Matching.{is_set}
use agent_comm_hub.Hub.Settling.{
  mark, unmarked-set, mark-eq, mark_of_warned, mark_of_open, Settles, Settles-and_then, open_marks,
  Delivers,
}
use agent_comm_hub.Hub.Events.{task_changed}
use agent_comm_hub.Hub.Compose.{route}
use agent_comm_hub.Hub.Compose.Settles.{route-Settles}
use agent_comm_hub.Hub.Notes.{
  put_task, row_of, update_row, book, mark_row, mark_task_delivered, warn_sender, wants_warning,
  drop_event, note_dropped, note_task_delivery_dropped,
}

-- Writing a task back leaves the count, unless the write marks it.
open_marks-put_task :
    (id : String) (t t' : TaskRecord) (h : AgentHub)
    → get id h.task_ledger ≡ some t
    → open_marks (put_task id t' h) + mark t ≡ open_marks h + mark t'
open_marks-put_task id t t' h e = unmarked-set id t t' h.task_ledger e

book-marks :
    (env : Env) (id target : String) (ts : ℕ) (t : TaskRecord) (h : AgentHub)
    → get id h.task_ledger ≡ some t
    → open_marks (book env id target ts t h) ≡ open_marks h
unfolding task_changed
book-marks env id target ts t h e =
    let booked = record t {
      assignees = update_row target (λ a. record a { delivered_ms = some ts }) t.assignees;
      updated_at = ts;
    } in
    omega (arith, open_marks-put_task id t booked h e, mark-eq t booked refl)

mark_row-marks :
    (env : Env) (id target : String) (ts : ℕ) (t : TaskRecord) (row : Option AssigneeState)
    (h : AgentHub)
    → get id h.task_ledger ≡ some t
    → open_marks (mark_row env id target ts t row h) ≡ open_marks h
unfolding mark_row
mark_row-marks env id target ts t none h e = refl
mark_row-marks env id target ts t (some a) h e = elim (Bool-cases (is_set a.delivered_ms)) [
  | inl old ↦ rw (old, mark_row) refl
  | inr new ↦ rw (new, mark_row) (book-marks env id target ts t h e)
]

-- Booking a delivery marks no task.
pub mark_task_delivered-marks :
    (env : Env) (id target : String) (ts : ℕ) (h : AgentHub)
    → open_marks (mark_task_delivered env id target ts h) ≡ open_marks h
unfolding mark_task_delivered
mark_task_delivered-marks env id target ts h = elim (Option-cases (get id h.task_ledger)) [
  | inl e ↦ rw (e, mark_task_delivered) refl
  | inr (t, e) ↦
      rw (e, mark_task_delivered)
        (mark_row-marks env id target ts t (row_of target t.assignees) h e)
]

module _ (env : Env) (b : ℕ) (deliver : String → BridgeMessage → M (Unit {0}))
    (good : Delivers b deliver) where
  -- One task fewer is left to warn about when the warning goes out.
  warned-lt :
      (id : String) (t noted : TaskRecord) (h : AgentHub)
      → get id h.task_ledger ≡ some t
      → is_set t.drop_notified ≡ false
      → suc (open_marks (put_task id (record noted { drop_notified = some env.now }) h))
        ≡ open_marks h
  warned-lt id t noted h e new =
      let warned = record noted { drop_notified = some env.now } in
      omega
        (arith, open_marks-put_task id t warned h e, mark_of_open t new, mark_of_warned warned refl)

  warning-Settles :
      (id peer : String) (reason : DropReason) (t noted : TaskRecord) (h : AgentHub)
      → get id h.task_ledger ≡ some t
      → wants_warning t h ≡ true
      → open_marks h < suc b
      → let warned = put_task id (record noted { drop_notified = some env.now }) h in
        Settles {0} (open_marks h) (
          and_then {0, 0}
            (route env deliver (warn_sender t (NoticeText.delivery_lost t.id peer reason)) warned)
            (λ _. return tt))
  unfolding wants_warning warn_sender
  warning-Settles id peer reason t noted h e wanted l =
      let fewer = warned-lt id t noted h e (ground arith) in
      let warned = put_task id (record noted { drop_notified = some env.now }) h in
      let sent =
        route-Settles b deliver good env (warn_sender t (NoticeText.delivery_lost t.id peer reason))
          warned refl (ground arith) (omega arith) in
      Settles-and_then _ _
        (route env deliver (warn_sender t (NoticeText.delivery_lost t.id peer reason)) warned) _
        sent (λ a h' le. omega arith)

  note_dropped-Settles :
      (id peer : String) (reason : DropReason) (t : TaskRecord) (h : AgentHub)
      → get id h.task_ledger ≡ some t
      → open_marks h < suc b
      → Settles (open_marks h) (note_dropped env deliver id peer reason t h)
  unfolding note_dropped push_ack_event
  note_dropped-Settles id peer reason t h e l = elim (Bool-cases (wants_warning t h)) [
    | inl warn ↦
        rw (warn, note_dropped)
          (warning-Settles id peer reason t (push_ack_event t (drop_event env peer reason t)) h e
            warn l)
    | inr quiet ↦
        rw (quiet, note_dropped)
          (omega (
            arith,
            open_marks-put_task id t (push_ack_event t (drop_event env peer reason t)) h e,
            mark-eq t (push_ack_event t (drop_event env peer reason t)) refl,
          ))
  ]

  pub note_task_delivery_dropped-Settles :
      (id peer : String) (reason : DropReason) (h : AgentHub)
      → open_marks h < suc b
      → Settles (open_marks h) (note_task_delivery_dropped env deliver id peer reason h)
  unfolding note_task_delivery_dropped
  note_task_delivery_dropped-Settles id peer reason h l =
      elim (Option-cases (get id h.task_ledger)) [
        | inl e ↦ rw (e, note_task_delivery_dropped) (omega arith)
        | inr (t, e) ↦
            rw (e, note_task_delivery_dropped) (note_dropped-Settles id peer reason t h e l)
      ]
