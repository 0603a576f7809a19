-- ===== src/Hub/Events/Ring.antt =====
-- The ring holds the newest events, numbered without a gap.
use agent_comm_hub.Prelude.{
  ℕ, zero, suc, ◌+◌, ◌-◌, ◌≤◌, min, ◌≡◌, refl, ltb, true, Option, String, List, [], ◌∷◌, ◌++◌,
  length, length-append, drop, arith, Bool-cases, inl, inr, All, filter_of_All,
}
use agent_comm_hub.Hub.State.{Env, AgentHub, HubEvent, EventKind, max_events, empty_hub}
use agent_comm_hub.Hub.Events.{keep_newest, record_event, newer_than}

-- The events are numbered one by one, up to `last`.
abbrev pub Consecutive : ℕ → List HubEvent → Type 0
Consecutive last [] = Unit
Consecutive last (e ∷ es) = (e.seq + length es ≡ last) × Consecutive last es

pub record RingIsValid (h : AgentHub) : Type 0 where
  pub consecutive : Consecutive h.event_seq h.event_ring
  pub size : length h.event_ring ≡ min max_events h.event_seq

Consecutive-push :
    (last : ℕ) (es : List HubEvent) (e : HubEvent)
    → e.seq ≡ suc last
    → Consecutive last es
    → Consecutive (suc last) (es ++ e ∷ [])
Consecutive-push last [] e s c = (omega arith, tt)
Consecutive-push last (x ∷ es) e s c =
    (omega (arith, length-append es (e ∷ [])), Consecutive-push last es e s c.1)

keep_newest-Consecutive :
    (last : ℕ) (es : List HubEvent) → Consecutive last es → Consecutive last (keep_newest es)
unfolding keep_newest
keep_newest-Consecutive last [] c = tt
keep_newest-Consecutive last (e ∷ es) c = ground (arith, keep_newest-Consecutive last es c.1)

length-keep_newest : (es : List HubEvent) → length (keep_newest es) ≡ min max_events (length es)
unfolding keep_newest
length-keep_newest [] = omega arith
length-keep_newest (e ∷ es) = ground (arith, length-keep_newest es)

pub empty_hub-RingIsValid : RingIsValid empty_hub
empty_hub-RingIsValid = record { consecutive = tt; size = omega arith }

-- If the ring is a run of the newest events without a gap, at most 500 of them, it is so after
-- recording an event.
pub record_event-RingIsValid :
    (env : Env) (kind : EventKind) (peer : Option String) (h : AgentHub)
    → RingIsValid h
    → RingIsValid (record_event env kind peer h)
unfolding record_event
record_event-RingIsValid env kind peer h v = record {
  consecutive =
      keep_newest-Consecutive (suc h.event_seq) _
        (Consecutive-push h.event_seq h.event_ring _ refl v.consecutive);
  size = omega (
    arith,
    v.size,
    length-keep_newest (
        h.event_ring
        ++ record { seq = suc h.event_seq; ts = env.now; kind = kind; peer = peer } ∷ []),
    length-append h.event_ring
        (record { seq = suc h.event_seq; ts = env.now; kind = kind; peer = peer } ∷ []),
  );
}

All-newer :
    (last since : ℕ) (es : List HubEvent)
    → Consecutive last es
    → since + length es ≤ last
    → All (λ e. ltb since e.seq ≡ true) es
All-newer last since [] c h = tt
All-newer last since (e ∷ es) c h = (ground arith, All-newer last since es c.1 (omega arith))

drop-nil : (n : ℕ) → drop {A = HubEvent} n [] ≡ []
drop-nil zero = refl
drop-nil (suc n) = refl

-- What is newer than a cursor is a tail of the ring.
pub newer_than-drop :
    (last since : ℕ) (es : List HubEvent)
    → Consecutive last es
    → newer_than since es ≡ drop (length es - (last - since)) es
newer_than-drop last since [] c = rw drop-nil
newer_than-drop last since (e ∷ es) c = elim (Bool-cases (ltb since e.seq)) [
  | inl newer ↦
      let none_dropped : length (e ∷ es) - (last - since) ≡ 0 = ground arith in
      rw (none_dropped, newer, filter_of_All _ es (All-newer last since es c.1 (ground arith))) refl
  | inr older ↦
      let one_more : length (e ∷ es) - (last - since) ≡ suc (length es - (last - since)) =
        ground arith in
      rw (one_more, older) (newer_than-drop last since es c.1)
]

pub Consecutive-drop :
    (last n : ℕ) (es : List HubEvent) → Consecutive last es → Consecutive last (drop n es)
Consecutive-drop last zero es c = c
Consecutive-drop last (suc n) [] c = tt
Consecutive-drop last (suc n) (e ∷ es) c = Consecutive-drop last n es c.1
