-- ===== src/Hub/Compose/Laws.antt =====
-- When a message is composed, and when the call is refused.
use agent_comm_hub.Prelude.{◌≡◌, str_eq, true, not, ◌&&◌, if◌then◌else◌, arith}
use agent_comm_hub.Protocol.{broadcast}
use agent_comm_hub.Dict.{get, has}
use agent_comm_hub.Hub.State.{Env, AgentHub}
use agent_comm_hub.Hub.Outcome.{done, threw, Error}
use agent_comm_hub.Hub.Compose.{
  Draft, has_group, is_known, includes, build_message, remember, count_sent, compose,
}
use agent_comm_hub.Hub.Counters.Frames.{SameTasks}
use agent_comm_hub.Hub.Counters.{bump_traffic}

-- The hub after a message was composed.
unfoldable pub composed : Env → Draft → AgentHub → AgentHub
unfolding remember bump_traffic build_message
composed env d h = let m = build_message env d h in remember env m (count_sent env d m h)

-- A call of `compose` is refused for an unregistered sender, an unknown recipient or a sender
-- outside the group, in this order, and before anything has changed; otherwise it returns the
-- message. A system sender need not be registered and need not belong to the group.
pub compose_lem :
    (env : Env) (d : Draft) (h : AgentHub)
    → compose env d h ≡ (
        if not d.system && not (has d.from h.last_seen)
        then threw Error.sender_not_registered h
        else (if not (str_eq d.to broadcast) && not (has_group d.to h) && not (is_known d.to h)
            then threw Error.unknown_recipient h
            else (if not d.system && not (includes d.from (get d.to h.groups))
                then threw Error.not_a_member h
                else done (build_message env d h) (composed env d h))))
unfolding compose composed
compose_lem env d h = ground arith

pub compose_of_system :
    (env : Env) (d : Draft) (h : AgentHub)
    → d.system ≡ true
    → is_known d.to h ≡ true
    → compose env d h ≡ done (build_message env d h) (composed env d h)
compose_of_system env d h s k = rw (compose_lem env d h, s, k) (ground arith)

-- A system message leaves the tasks, the registrations and the groups as they are.
pub composed-SameTasks :
    (env : Env) (d : Draft) (h : AgentHub) → d.system ≡ true → SameTasks h (composed env d h)
unfolding composed
composed-SameTasks env d h s = ground arith
