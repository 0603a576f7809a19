-- ===== src/Mailbox.antt =====
-- src/hub.ts, the array helpers of one mailbox: `priorityOf`, `insertByPriority`,
-- `lowestPriorityIndex` and `drainFrom`. A mailbox is the list of its messages, the next one to
-- be delivered first; what the source does to an array in place is a function to the new list.
pub mod Order
pub mod Victim
pub mod Drain
mod Tests
use agent_comm_hub.Prelude.{
  ℕ, zero, suc, ◌-◌, String, ltb, str_eq, ◌==◌, if◌then◌else◌, Bool, true, false, ◌||◌, Option,
  none, some, List, [], ◌∷◌, length, get_elem?, insert_at,
}
use agent_comm_hub.Protocol.{BridgeMessage, hub_peer}

-- `value === 1 || value === 2 ? value : 0`
abbrev clamp_priority : Option ℕ → ℕ
clamp_priority none = 0
clamp_priority (some p) = if p == 1 || p == 2 then p else 0

unfoldable pub priority_of : BridgeMessage → ℕ
priority_of m = clamp_priority m.priority

-- The priority of the message at an index; the loops below stay inside the array.
abbrev priority_at : List BridgeMessage → ℕ → ℕ
priority_at q i = elim (get_elem? q i) [ none ↦ 0 | some m ↦ priority_of m ]

-- The `while` loop of `insertByPriority`, from `at` downwards.
slot : List BridgeMessage → ℕ → ℕ → ℕ
slot q p zero = zero
slot q p (suc i) = let lower = slot q p i in if ltb (priority_at q i) p then lower else suc i

-- One round of its `for` loop.
unfoldable pub insert_one : BridgeMessage → List BridgeMessage → List BridgeMessage
unfolding slot
insert_one m q = insert_at (slot q (priority_of m) (length q)) m q

unfoldable pub insert_by_priority : List BridgeMessage → List BridgeMessage → List BridgeMessage
insert_by_priority q [] = q
insert_by_priority q (m ∷ ms) = insert_by_priority (insert_one m q) ms

-- The `while` loop of `lowestPriorityIndex`.
lowest_from : List BridgeMessage → ℕ → ℕ → ℕ
lowest_from q p zero = zero
lowest_from q p (suc i) =
    let lower = lowest_from q p i in if priority_at q i == p then lower else suc i

-- `none` is -1, the result for an empty queue.
unfoldable pub lowest_priority_index : List BridgeMessage → Option ℕ
unfolding lowest_from
lowest_priority_index [] = none
lowest_priority_index (m ∷ q) =
    some (lowest_from (m ∷ q) (priority_at (m ∷ q) (length q)) (length q))

abbrev pub drains : String → BridgeMessage → Bool
drains sender m = str_eq m.from sender || str_eq m.from hub_peer

-- The drained messages, and the queue that is kept.
unfoldable pub drain_from : List BridgeMessage → String → List BridgeMessage × List BridgeMessage
drain_from [] sender = ([], [])
drain_from (m ∷ q) sender =
    let (drained, kept) = drain_from q sender in
    if drains sender m then (m ∷ drained, kept) else (drained, m ∷ kept)
