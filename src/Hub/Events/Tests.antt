-- ===== src/Hub/Events/Tests.antt =====
-- The ring of events at concrete states.
use agent_comm_hub.Prelude.{
  ℕ, zero, suc, ◌<◌, ◌≡◌, refl, ltb, false, none, some, [], ◌∷◌, length, map, arith, All,
}
use agent_comm_hub.Fixtures.{env}
use agent_comm_hub.Hub.State.{AgentHub, EventKind, empty_hub}
use agent_comm_hub.Hub.Events.{record_event, events, keep_newest}
use agent_comm_hub.Hub.Events.Ring.{
  Consecutive, RingIsValid, empty_hub-RingIsValid, record_event-RingIsValid,
}
use agent_comm_hub.Hub.Events.Reading.{events_lem, events_skip}

abbrev after : ℕ → AgentHub
after zero = empty_hub
after (suc n) = record_event env (EventKind.peer_joined none) (some "bob") (after n)

after-RingIsValid : (n : ℕ) → RingIsValid (after n)
after-RingIsValid zero = empty_hub-RingIsValid
after-RingIsValid (suc n) =
    record_event-RingIsValid env (EventKind.peer_joined none) (some "bob") (after n)
      (after-RingIsValid n)

page_test : map (λ e. e.seq) (events (some 1) (some 2) (after 4)).events ≡ 3 ∷ 4 ∷ []
unfolding events record_event keep_newest
page_test = refl

event_seq-after : (after 4).event_seq ≡ 4
unfolding record_event
event_seq-after = refl

record_event-RingIsValid_example :
    RingIsValid (record_event env (EventKind.peer_joined none) (some "bob") empty_hub)
record_event-RingIsValid_example =
    record_event-RingIsValid env (EventKind.peer_joined none) (some "bob") empty_hub
      empty_hub-RingIsValid

events_lem_example :
    let page = events (some 1) (some 2) (after 4) in
    (length page.events ≡ 2)
    × Consecutive 4 page.events
    × (page.last_seq ≡ 4)
    × (page.truncated ≡ ltb 501 4)
unfolding record_event
events_lem_example = events_lem (after 4) 1 2 (after-RingIsValid 4) (omega arith) (omega arith)

events_skip_example :
    let page = events (some 1) (some 2) (after 4) in
    All (λ e. 2 < e.seq) page.events × (page.truncated ≡ false) × (page.last_seq ≡ 4)
unfolding record_event
events_skip_example =
    events_skip (after 4) 1 2 (after-RingIsValid 4) (omega arith) (omega arith)
      (omega (arith, event_seq-after)) (omega (arith, event_seq-after))
