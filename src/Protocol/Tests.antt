-- ===== src/Protocol/Tests.antt =====
-- Tests of the status functions, and the properties of the statuses at concrete inputs.
use agent_comm_hub.Prelude.{◌≡◌, refl, ◌⊎◌, ◌≤◌, some, [], ◌∷◌, false}
use agent_comm_hub.Protocol.Status.{
  AckStatus, TaskStatus, is_terminal, next_task_status, a2a_state, A2ATaskState,
}
use agent_comm_hub.Protocol.Status.Transitions.{
  stage, run_acks, Moves, next_task_status-Moves, run_acks_monotone,
}
use agent_comm_hub.Protocol.Aggregate.{aggregate_task_status}
use agent_comm_hub.Protocol.Aggregate.Weight.{
  weight, weight-aggregate_task_status, is_terminal-aggregate_task_status,
}

aggregate_tests :
    (aggregate_task_status (TaskStatus.done ∷ TaskStatus.rejected ∷ []) ≡ TaskStatus.rejected)
    × (aggregate_task_status (TaskStatus.working ∷ TaskStatus.input_required ∷ [])
        ≡ TaskStatus.input_required)
    × (aggregate_task_status (TaskStatus.failed ∷ TaskStatus.pending ∷ []) ≡ TaskStatus.pending)
    × (next_task_status TaskStatus.input_required AckStatus.accepted
        ≡ some TaskStatus.input_required)
    × (a2a_state TaskStatus.timeout ≡ A2ATaskState.failed)
unfolding aggregate_task_status next_task_status a2a_state
aggregate_tests = (refl, refl, refl, refl, refl)

next_task_status-Moves_example :
    Moves TaskStatus.working AckStatus.done (next_task_status TaskStatus.working AckStatus.done)
next_task_status-Moves_example = next_task_status-Moves TaskStatus.working AckStatus.done

run_acks_monotone_example :
    (0 ≤ stage (run_acks TaskStatus.pending (AckStatus.done ∷ AckStatus.working ∷ [])))
    × ((is_terminal TaskStatus.pending ≡ false)
        ⊎ (run_acks TaskStatus.pending (AckStatus.done ∷ AckStatus.working ∷ [])
            ≡ TaskStatus.pending))
run_acks_monotone_example =
    run_acks_monotone TaskStatus.pending (AckStatus.done ∷ AckStatus.working ∷ [])

weight-aggregate_task_status_example :
    (weight (aggregate_task_status (TaskStatus.done ∷ TaskStatus.timeout ∷ [])) ≡ 3)
    × (aggregate_task_status [] ≡ TaskStatus.pending)
weight-aggregate_task_status_example =
    weight-aggregate_task_status TaskStatus.done (TaskStatus.timeout ∷ [])

is_terminal-aggregate_task_status_example :
    (is_terminal (aggregate_task_status (TaskStatus.done ∷ TaskStatus.working ∷ [])) ≡ false)
    × (is_terminal (aggregate_task_status []) ≡ false)
is_terminal-aggregate_task_status_example =
    is_terminal-aggregate_task_status TaskStatus.done (TaskStatus.working ∷ [])
