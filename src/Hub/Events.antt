-- ===== src/Hub/Events.antt =====
-- src/hub.ts, the ring of operational events: `recordEvent`, `events`, `noteEvent` and
-- `taskChanged`, which records the transition that the callback announces.
pub mod Ring
pub mod Reading
mod Tests
use agent_comm_hub.Prelude.{
  ℕ, ◌+◌, suc, min, max, String, ltb, ◌==◌, if◌then◌else◌, Bool, true, false, ◌&&◌, Option, none,
  some, List, [], ◌∷◌, ◌++◌, length, filter, slice_last, or_default,
}
use agent_comm_hub.Protocol.{TaskRecord}
use agent_comm_hub.Hub.State.{
  Env, AgentHub, HubEvent, EventKind, task_transition, max_events, Effect, on_task_changed, emit,
}

-- `while (ring.length > MAX_EVENTS) ring.shift()`
keep_newest : List HubEvent → List HubEvent
keep_newest [] = []
keep_newest (e ∷ es) =
    let rest = keep_newest es in if ltb max_events (length (e ∷ es)) then rest else e ∷ es

unfoldable pub record_event : Env → EventKind → Option String → AgentHub → AgentHub
unfolding keep_newest
record_event env kind peer h = record h {
  event_seq = suc h.event_seq;
  event_ring = keep_newest (
      h.event_ring
      ++ record { seq = suc h.event_seq; ts = env.now; kind = kind; peer = peer } ∷ []);
}

-- Adding an event from outside is recording it.
unfoldable pub note_event : Env → EventKind → Option String → AgentHub → AgentHub
unfolding record_event
note_event env kind peer h = record_event env kind peer h

pub record EventPage : Type 0 where
  pub events : List HubEvent
  pub last_seq : ℕ
  pub truncated : Bool

-- `available.length > 0 && available[0].seq > since + 1`
abbrev starts_late : ℕ → List HubEvent → Bool
starts_late since [] = false
starts_late since (e ∷ es) = ltb (since + 1) e.seq

abbrev newer_than : ℕ → List HubEvent → List HubEvent
newer_than since = filter (λ e. ltb since e.seq)

unfoldable pub events : Option ℕ → Option ℕ → AgentHub → EventPage
events since limit h =
    let start = or_default since 0 in
    let available = newer_than start h.event_ring in
    record {
      events = slice_last (max 1 (min (or_default limit 100) max_events)) available;
      last_seq = h.event_seq;
      truncated = ltb 0 start && starts_late start available;
    }

unfoldable pub task_changed : Env → TaskRecord → AgentHub → AgentHub
unfolding record_event
task_changed env task h = emit (on_task_changed task) (
    record_event env (task_transition task.id task.status (length task.assignees)) (some task.from)
      h)
