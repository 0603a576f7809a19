-- ===== src/Timeline/Bounds.antt =====
-- What the bound on a timeline costs: the evidence is the last to go.
use agent_comm_hub.Prelude.{
  ℕ, zero, suc, ◌+◌, ◌≤◌, ◌<◌, min, ◌≡◌, refl, ◌⊎◌, ltb, ltb→lt, if◌then◌else◌, Bool, true, false,
  ◌||◌, none, some, List, [], ◌∷◌, length, remove_at, find_index, arith, Bool-cases, Option-cases,
  inl, inr, length-remove_at, find_index-lt, find_index-zero, find_index-suc, find_index-none,
}
use agent_comm_hub.Protocol.{TaskAckEvent}
use agent_comm_hub.Timeline.{
  max_task_acks, is_rejection, is_from_peer, victim, choose_victim, trim, trim_acks,
}

-- How many events pass a test.
abbrev pub count : (TaskAckEvent → Bool) → List TaskAckEvent → ℕ
count p [] = 0
count p (e ∷ es) = if p e then suc (count p es) else count p es

-- The evidence of a lost delivery, and that together with the acks that moved the ledger.
abbrev pub is_system : TaskAckEvent → Bool
is_system e = e.system

abbrev pub is_audited : TaskAckEvent → Bool
is_audited e = e.system || e.applied

module _ (p q : TaskAckEvent → Bool) where
  count-remove_first :
      ((e : TaskAckEvent) → p e ≡ true → q e ≡ false)
      → (es : List TaskAckEvent) (i : ℕ) → find_index p es ≡ some i
      → count q (remove_at i es) ≡ count q es
  count-remove_first out [] i h = ground arith
  count-remove_first out (e ∷ es) zero h = ground (arith, out e, find_index-zero p e es)
  count-remove_first out (e ∷ es) (suc i) h =
      let (_, later) = find_index-suc p e es i h in
      ground (arith, count-remove_first out es i later)

  count_of_none :
      ((e : TaskAckEvent) → p e ≡ false → q e ≡ true)
      → (es : List TaskAckEvent) → find_index p es ≡ none
      → count q es ≡ length es
  count_of_none out [] h = refl
  count_of_none out (e ∷ es) h =
      let (here, later) = find_index-none p e es h in
      ground (arith, out e here, count_of_none out es later)

-- After one round: one event fewer, and a count that drops only if nothing else was left.
record Evicted (q : TaskAckEvent → Bool) (es rest : List TaskAckEvent) : Type 0 where
  shorter : suc (length rest) ≡ length es
  kept : (count q rest ≡ count q es) ⊎ ((count q es ≡ length es) × (count q rest ≡ length rest))

count-le-length : (q : TaskAckEvent → Bool) (es : List TaskAckEvent) → count q es ≤ length es
count-le-length q [] = omega arith
count-le-length q (e ∷ es) = ground (arith, count-le-length q es)

count-remove_at :
    (q : TaskAckEvent → Bool) (i : ℕ) (es : List TaskAckEvent)
    → count q es ≤ suc (count q (remove_at i es))
count-remove_at q i [] = omega arith
count-remove_at q zero (e ∷ es) = ground arith
count-remove_at q (suc i) (e ∷ es) = ground (arith, count-remove_at q i es)

module _ (q : TaskAckEvent → Bool) (es : List TaskAckEvent) (i : ℕ) (inside : i < length es) where
  Evicted-other : count q (remove_at i es) ≡ count q es → Evicted q es (remove_at i es)
  Evicted-other same = record { shorter = length-remove_at i es inside; kept = inl same }

  Evicted-full : count q es ≡ length es → Evicted q es (remove_at i es)
  Evicted-full full = record {
    shorter = length-remove_at i es inside;
    kept = inr (
      full,
      omega (
        arith,
        length-remove_at i es inside,
        count-remove_at q i es,
        count-le-length q (remove_at i es),
      ),
    );
  }

abbrev Both : List TaskAckEvent → List TaskAckEvent → Type 0
Both es rest = Evicted is_system es rest × Evicted is_audited es rest

-- No rejection is left.
evict_audited :
    (es : List TaskAckEvent)
    → 0 < length es
    → count is_audited es ≡ length es
    → Both es (remove_at (choose_victim none es) es)
evict_audited es some_left full = elim (Option-cases (find_index is_from_peer es)) [
  | inl e ↦ rw e (
    Evicted-full is_system es 0 some_left
        (count_of_none is_from_peer is_system (λ k h. ground arith) es e),
    Evicted-full is_audited es 0 some_left full,
  )
  | inr (i, e) ↦
      let inside = find_index-lt is_from_peer es e in
      rw e (
        Evicted-other is_system es i inside
            (count-remove_first is_from_peer is_system (λ k h. ground arith) es i e),
        Evicted-full is_audited es i inside full,
      )
]

evict : (es : List TaskAckEvent) → 0 < length es → Both es (remove_at (victim es) es)
unfolding victim
evict es some_left = elim (Option-cases (find_index is_rejection es)) [
  | inl e ↦ rw e (
      evict_audited es some_left (count_of_none is_rejection is_audited (λ k h. ground arith) es e))
  | inr (i, e) ↦
      let inside = find_index-lt is_rejection es e in
      rw e (
        Evicted-other is_system es i inside
            (count-remove_first is_rejection is_system (λ k h. ground arith) es i e),
        Evicted-other is_audited es i inside
            (count-remove_first is_rejection is_audited (λ k h. ground arith) es i e),
      )
]

-- `rest` is what a bounded timeline keeps of `es`: at most `max_task_acks` events, of which the
-- evidence of lost deliveries goes last, and before that whatever moved the ledger.
pub record Trimmed (es rest : List TaskAckEvent) : Type 0 where
  pub total : length rest ≡ min max_task_acks (length es)
  pub evidence : count is_system rest ≡ min max_task_acks (count is_system es)
  pub audited : count is_audited rest ≡ min max_task_acks (count is_audited es)

Trimmed-self : (es : List TaskAckEvent) → length es ≤ max_task_acks → Trimmed es es
Trimmed-self es h =
    let s = count-le-length is_system es in
    let a = count-le-length is_audited es in
    record { total = omega arith; evidence = omega (arith, s); audited = omega (arith, a) }

Trimmed-step :
    (es mid rest : List TaskAckEvent)
    → max_task_acks < length es
    → Both es mid
    → Trimmed mid rest
    → Trimmed es rest
Trimmed-step es mid rest over (s, a) t = record {
  total = omega (arith, s.shorter, t.total);
  evidence = omega (arith, s.shorter, s.kept, t.evidence);
  audited = omega (arith, a.shorter, a.kept, t.audited);
}

trim-Trimmed :
    (fuel : ℕ) (es : List TaskAckEvent)
    → length es ≤ fuel + max_task_acks
    → Trimmed es (trim fuel es)
unfolding trim
trim-Trimmed zero es h = Trimmed-self es (omega arith)
trim-Trimmed (suc fuel) es h = elim (Bool-cases (ltb max_task_acks (length es))) [
  | inl over ↦
      let more = ltb→lt max_task_acks (length es) over in
      let both = evict es (omega arith) in
      rw over (
        Trimmed-step es _ _ more both
          (trim-Trimmed fuel (remove_at (victim es) es) (omega (arith, both.0.shorter))))
  | inr within ↦ rw within (Trimmed-self es (ground arith))
]

-- Trimming ends with at most 200 events and drops none while there are no more than that. It drops
-- evidence of a lost delivery only when nothing else is left, and an event that moved the ledger
-- only when no rejection is left.
pub trim_acks-Trimmed : (es : List TaskAckEvent) → Trimmed es (trim_acks es)
unfolding trim_acks
trim_acks-Trimmed es = trim-Trimmed (length es) es (omega arith)
