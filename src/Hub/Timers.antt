-- ===== src/Hub/Timers.antt =====
-- src/hub.ts, the SLA timers of tasks: `scheduleTaskTimeout`, `clearTaskTimer` and
-- `realignTaskTimer`. A pending timer is an entry of `task_timers` with the time it is due.
use agent_comm_hub.Prelude.{ℕ, ◌+◌, ◌-◌, max, String, ltb, if◌then◌else◌, Option, none, some}
use agent_comm_hub.Protocol.{TaskRecord}
use agent_comm_hub.Protocol.Status.{is_terminal}
use agent_comm_hub.Dict.{set, delete, has}
use agent_comm_hub.Hub.State.{Env, AgentHub, TaskTimer}

-- The largest delay that `setTimeout` honors.
abbrev pub max_timer_delay_ms : ℕ
max_timer_delay_ms = 2147483647

abbrev timer_for : ℕ → ℕ → TaskTimer
timer_for now deadline =
    if ltb max_timer_delay_ms (deadline - now)
    then TaskTimer.rearm_at (now + max_timer_delay_ms)
    else TaskTimer.fire_at (max now deadline)

abbrev pub arm : Env → String → Option ℕ → AgentHub → AgentHub
arm env id none h = h
arm env id (some deadline) h = record h {
  task_timers = set id (timer_for env.now deadline) h.task_timers;
}

unfoldable pub schedule_task_timeout : Env → TaskRecord → AgentHub → AgentHub
schedule_task_timeout env task h = arm env task.id task.deadline_at h

unfoldable pub clear_task_timer : String → AgentHub → AgentHub
clear_task_timer id h = record h { task_timers = delete id h.task_timers }

-- A task that is over loses its timer; an open one keeps it, or gets it back.
unfoldable pub realign_task_timer : Env → TaskRecord → AgentHub → AgentHub
unfolding schedule_task_timeout clear_task_timer
realign_task_timer env task h =
    if is_terminal task.status
    then clear_task_timer task.id h
    else (if has task.id h.task_timers then h else schedule_task_timeout env task h)
