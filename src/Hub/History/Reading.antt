-- ===== src/Hub/History/Reading.antt =====
-- How much of the history a reader gets.
use agent_comm_hub.Prelude.{
  ℕ, ◌-◌, min, ◌==◌, ◌≡◌, refl, String, if◌then◌else◌, ◌&&◌, Option, List, [], ◌∷◌, reverse, length,
  length-append, length-drop, take, take-drop, ap, ◌∙◌, ◌++◌, filter, slice_last, arith, All,
  All-append, All-drop, true, Bool, Bool-cases, inl, inr,
}
use mathlib.Core.List.{reverse-cons, reverse-reverse}
use agent_comm_hub.Protocol.{BridgeMessage}
use agent_comm_hub.Hub.State.{AgentHub}
use agent_comm_hub.Hub.History.{history, is_after, involves}

length-reverse : (ms : List BridgeMessage) → length (reverse ms) ≡ length ms
length-reverse [] = refl
length-reverse (m ∷ ms) =
    rw (reverse-cons m ms) (omega (arith, length-append (reverse ms) (m ∷ []), length-reverse ms))

All-reverse : (P : BridgeMessage → Type 0) (ms : List BridgeMessage) → All P ms → All P (reverse ms)
All-reverse P [] h = tt
All-reverse P (m ∷ ms) h =
    rw (reverse-cons m ms) (All-append P (reverse ms) (m ∷ []) (All-reverse P ms h.1) (h.0, tt))

All-slice_last :
    (P : BridgeMessage → Type 0) (n : ℕ) (ms : List BridgeMessage)
    → All P ms
    → All P (slice_last n ms)
All-slice_last P n ms h = ground (arith, h, All-drop P (length ms - n) ms h)

All-matching :
    (p : BridgeMessage → Bool) (ms : List BridgeMessage) → All (λ m. p m ≡ true) (filter p ms)
All-matching p [] = tt
All-matching p (m ∷ ms) = elim (Bool-cases (p m)) [
  | inl hit ↦ rw hit (hit, All-matching p ms)
  | inr miss ↦ rw miss (All-matching p ms)
]

older_slice :
    (n : ℕ) (ms : List BridgeMessage)
    → (older : List BridgeMessage) × (older ++ slice_last n ms ≡ ms)
older_slice n ms = elim (Bool-cases (n == 0)) [
  | inl all ↦ ([], rw all refl)
  | inr some_of ↦ (take (length ms - n) ms, rw some_of (take-drop (length ms - n) ms))
]

-- A reader of the history gets, newest first, the last messages of the ring that involve the peer and
-- follow the cursor: its result in the ring's order, behind some older ones, is all such messages of the
-- ring, and each message of the result is such a one. It gets as many as the limit allows; a limit of 0
-- is no limit.
pub history_lem :
    (peer : String) (limit : ℕ) (since : Option ℕ) (h : AgentHub)
    → let wanted = λ (m : BridgeMessage). is_after since m && involves peer h m in
      let found = filter wanted h.history_ring in
      All (λ m. wanted m ≡ true) (history peer limit since h)
      × ((older : List BridgeMessage) × (older ++ reverse (history peer limit since h) ≡ found))
      × (length (history peer limit since h)
          ≡ (if limit == 0 then length found else min limit (length found)))
unfolding history
history_lem peer limit since h =
    let wanted = λ (m : BridgeMessage). is_after since m && involves peer h m in
    let found = filter wanted h.history_ring in
    let split = older_slice limit found in
    (
      All-reverse (λ m. wanted m ≡ true) (slice_last limit found)
          (All-slice_last (λ m. wanted m ≡ true) limit found (All-matching wanted h.history_ring)),
      (split.0, ap (λ ms. split.0 ++ ms) (reverse-reverse (slice_last limit found)) ∙ split.1),
      ground (
        arith,
        length-reverse (slice_last limit found),
        length-drop (length found - limit) found,
      ),
    )
