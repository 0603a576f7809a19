-- ===== src/Mailbox/Tests.antt =====
-- Tests of the mailbox helpers, and their properties at concrete mailboxes.
use agent_comm_hub.Prelude.{ℕ, ◌≡◌, refl, some, List, [], ◌∷◌, ◌++◌, Perm, arith}
use agent_comm_hub.Protocol.{BridgeMessage}
use agent_comm_hub.Fixtures.{chat_from}
use agent_comm_hub.Mailbox.{
  priority_of, insert_one, insert_by_priority, lowest_priority_index, drain_from,
}
use agent_comm_hub.Mailbox.Order.{
  IsSorted, place, insert_one-eq-place, insert_by_priority-IsSorted, insert_by_priority-perm,
}
use agent_comm_hub.Mailbox.Victim.{Victim, lowest_priority_index-Victim}
use agent_comm_hub.Mailbox.Drain.{Parted, drain_from-perm}

abbrev high : BridgeMessage
high = chat_from "alice" "m1" 2

abbrev middle : BridgeMessage
middle = chat_from "carol" "m2" 1

abbrev low : BridgeMessage
low = chat_from "alice" "m3" 0

abbrev two : List BridgeMessage
two = high ∷ low ∷ []

two-IsSorted : IsSorted two
unfolding priority_of
two-IsSorted = ((omega arith, tt), (tt, tt))

insert_tests :
    (insert_by_priority [] (low ∷ middle ∷ high ∷ []) ≡ high ∷ middle ∷ low ∷ [])
    × (lowest_priority_index (high ∷ middle ∷ low ∷ []) ≡ some 2)
    × (drain_from (high ∷ middle ∷ low ∷ []) "alice" ≡ (high ∷ low ∷ [], middle ∷ []))
unfolding insert_by_priority insert_one lowest_priority_index drain_from priority_of
insert_tests = (refl, refl, refl)

insert_one-eq-place_example : insert_one middle two ≡ place middle two
insert_one-eq-place_example = insert_one-eq-place middle two two-IsSorted

insert_by_priority-IsSorted_example : IsSorted (insert_by_priority two (middle ∷ high ∷ []))
insert_by_priority-IsSorted_example =
    insert_by_priority-IsSorted two (middle ∷ high ∷ []) two-IsSorted

insert_by_priority-perm_example :
    Perm (insert_by_priority two (middle ∷ [])) (middle ∷ high ∷ low ∷ [])
insert_by_priority-perm_example = insert_by_priority-perm two (middle ∷ [])

lowest_priority_index-Victim_example :
    (p v : ℕ) × (lowest_priority_index two ≡ some v) × Victim two p v
lowest_priority_index-Victim_example = lowest_priority_index-Victim high (low ∷ []) two-IsSorted

drain_from-perm_example :
    Parted "alice" two (drain_from two "alice").0 (drain_from two "alice").1
    × Perm ((drain_from two "alice").0 ++ (drain_from two "alice").1) two
drain_from-perm_example = drain_from-perm two "alice"
