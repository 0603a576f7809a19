-- ===== src/Protocol/Status/Transitions.antt =====
-- What the transition function of a row guarantees.
use agent_comm_hub.Prelude.{
  ℕ, ◌≤◌, ◌≡◌, refl, ◌≢◌, Option, none, some, List, [], ◌∷◌, true, false, arith, Option-cases, ◌⊎◌,
  inl, inr,
}
use agent_comm_hub.Protocol.Status.{
  AckStatus, TaskStatus, is_terminal, ack_to_task_status, next_task_status,
}

-- How far a row has come: delegated, taken, being worked on or interrupted, ended.
abbrev pub stage : TaskStatus → ℕ
stage TaskStatus.pending = 0
stage TaskStatus.accepted = 1
stage TaskStatus.working = 2
stage TaskStatus.input_required = 2
stage _ = 3

-- The row after a sequence of acks, each applied when it is legal.
abbrev pub run_acks : TaskStatus → List AckStatus → TaskStatus
run_acks s [] = s
run_acks s (a ∷ acks) = elim (next_task_status s a) [
  | none ↦ run_acks s acks
  | some t ↦ run_acks t acks
]

-- What an ack makes of a row: a row that has ended refuses it; another one takes the status that
-- the ack names, unless that is an `accepted` that would rewind it.
abbrev pub Moves : TaskStatus → AckStatus → Option TaskStatus → Type 0
Moves s a none = is_terminal s ≡ true
Moves s a (some t) =
    (is_terminal s ≡ false)
    × (stage s ≤ stage t)
    × (t ≢ TaskStatus.pending)
    × (t ≢ TaskStatus.timeout)
    × ((t ≡ ack_to_task_status a) ⊎ ((a ≡ AckStatus.accepted) × (t ≡ s)))

-- An ack is refused exactly when the row has ended. One that is applied moves the row to the
-- status that the ack names, but for an `accepted`, which may leave the row where it is; it never
-- moves a row to an earlier stage, to `pending` or to `timeout`.
pub next_task_status-Moves : (s : TaskStatus) (a : AckStatus) → Moves s a (next_task_status s a)
unfolding next_task_status
next_task_status-Moves TaskStatus.pending a = ground arith
next_task_status-Moves s a = ground arith

pub next-none :
    (s : TaskStatus) (a : AckStatus) → is_terminal s ≡ true → next_task_status s a ≡ none
unfolding next_task_status
next-none s a h = ground arith

pub next-stage :
    (s t : TaskStatus) (a : AckStatus) → next_task_status s a ≡ some t → stage s ≤ stage t
unfolding next_task_status
next-stage s t a h = ground arith

-- Whatever acks follow, a row never gets back to an earlier stage, and a row that has ended stays
-- as it is.
pub run_acks_monotone :
    (s : TaskStatus) (acks : List AckStatus)
    → (stage s ≤ stage (run_acks s acks)) × ((is_terminal s ≡ false) ⊎ (run_acks s acks ≡ s))
run_acks_monotone s [] = (omega arith, inr refl)
run_acks_monotone s (a ∷ acks) = elim (Option-cases (next_task_status s a)) [
  | inl e ↦ rw (e, run_acks) (run_acks_monotone s acks)
  | inr (t, e) ↦
      rw (e, run_acks)
        (
          omega (arith, next-stage s t a e, (run_acks_monotone t acks).0),
          ground (arith, next-none s a),
        )
]
