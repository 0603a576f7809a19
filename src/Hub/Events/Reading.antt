-- ===== src/Hub/Events/Reading.antt =====
-- What a reader of the ring gets.
use agent_comm_hub.Prelude.{
  ℕ, ◌+◌, ◌-◌, ◌≤◌, ◌<◌, min, max, ◌≡◌, refl, ltb, false, some, List, [], ◌∷◌, length, length-drop,
  drop, slice_last, arith, All,
}
use agent_comm_hub.Hub.State.{AgentHub, HubEvent, max_events}
use agent_comm_hub.Hub.Events.{events, newer_than, starts_late}
use agent_comm_hub.Hub.Events.Ring.{Consecutive, RingIsValid, newer_than-drop, Consecutive-drop}

length-newer_than :
    (h : AgentHub) (since : ℕ)
    → RingIsValid h
    → length (newer_than since h.event_ring) ≡ min max_events (h.event_seq - since)
length-newer_than h since v =
    rw (newer_than-drop h.event_seq since h.event_ring v.consecutive) (
      omega (arith, length-drop (length h.event_ring - (h.event_seq - since)) h.event_ring, v.size))

Consecutive-newer_than :
    (h : AgentHub) (since : ℕ)
    → RingIsValid h
    → Consecutive h.event_seq (newer_than since h.event_ring)
Consecutive-newer_than h since v =
    rw (newer_than-drop h.event_seq since h.event_ring v.consecutive)
      (Consecutive-drop h.event_seq _ h.event_ring v.consecutive)

starts_late_lem :
    (since last : ℕ) (es : List HubEvent)
    → Consecutive last es
    → length es ≡ min max_events (last - since)
    → starts_late since es ≡ ltb (since + max_events) last
starts_late_lem since last [] c n = ground arith
starts_late_lem since last (e ∷ es) c n = ground arith

slice_last-drop : (n : ℕ) (es : List HubEvent) → 0 < n → slice_last n es ≡ drop (length es - n) es
slice_last-drop n es h = ground arith

All-late :
    (last low : ℕ) (es : List HubEvent)
    → Consecutive last es
    → low + length es < last + 1
    → All (λ e. low < e.seq) es
All-late last low [] c b = tt
All-late last low (e ∷ es) c b = (omega arith, All-late last low es c.1 (omega arith))

module _ (h : AgentHub) (since limit : ℕ) (v : RingIsValid h) (s : 0 < since) (l : 0 < limit) where
  page-drop :
      (events (some since) (some limit) h).events
      ≡ drop
          (length (newer_than since h.event_ring) - min limit max_events)
          (newer_than since h.event_ring)
  unfolding events
  page-drop =
      let bound : max 1 (min limit max_events) ≡ min limit max_events = omega arith in
      rw bound (slice_last-drop _ (newer_than since h.event_ring) (omega arith))

  length-page :
      length (events (some since) (some limit) h).events
      ≡ min (min limit max_events) (h.event_seq - since)
  length-page =
      let newer = newer_than since h.event_ring in
      rw page-drop (
        omega (
          arith,
          length-drop (length newer - min limit max_events) newer,
          length-newer_than h since v,
        ))

  Consecutive-page : Consecutive h.event_seq (events (some since) (some limit) h).events
  Consecutive-page =
      rw page-drop (Consecutive-drop h.event_seq _ _ (Consecutive-newer_than h since v))

  -- From a valid ring, a page of events read with a limit above 0 and from a cursor above 0 holds
  -- the newest events after the cursor, in order and without a gap, as many as the limit allows,
  -- and `truncated` says exactly whether more than the ring's 500 events were recorded since
  -- then.
  pub events_lem :
      let page = events (some since) (some limit) h in
      (length page.events ≡ min (min limit max_events) (h.event_seq - since))
      × Consecutive h.event_seq page.events
      × (page.last_seq ≡ h.event_seq)
      × (page.truncated ≡ ltb (since + max_events) h.event_seq)
  unfolding events
  events_lem = (
    length-page,
    Consecutive-page,
    refl,
    ground (
      arith,
      starts_late_lem since h.event_seq (newer_than since h.event_ring)
          (Consecutive-newer_than h since v) (length-newer_than h since v),
    ),
  )

  -- From a valid ring, with a limit and a cursor above 0: when more events follow the cursor than
  -- the limit lets through, and no more than the ring holds, every event of the page comes after
  -- the one next to the cursor, which is skipped; the page is not marked truncated, and its
  -- `last_seq` leads past the skipped events.
  pub events_skip :
      limit < h.event_seq - since
      → h.event_seq ≤ since + max_events
      → let page = events (some since) (some limit) h in
        All (λ e. since + 1 < e.seq) page.events
        × (page.truncated ≡ false)
        × (page.last_seq ≡ h.event_seq)
  events_skip more held =
      let (n, c, last, cut) = events_lem in
      (All-late h.event_seq (since + 1) _ c (omega arith), ground arith, last)
