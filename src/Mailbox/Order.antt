-- ===== src/Mailbox/Order.antt =====
-- Insertion keeps a mailbox in delivery order.
use agent_comm_hub.Prelude.{
  ℕ, zero, suc, ◌+◌, ◌≤◌, ◌<◌, ◌≡◌, refl, ltb, leb, ◌==◌, if◌then◌else◌, true, false, ◌&&◌, List,
  [], ◌∷◌, ◌++◌, Perm, length, filter, arith, Bool-cases, inl, inr, All, All-mono, length-insert_at,
  ltb→lt, filter_of_none, filter_of_All,
}
use mathlib.Core.List.Perm
use mathlib.Core.List.{perm_middle}
use agent_comm_hub.Protocol.{BridgeMessage}
use agent_comm_hub.Mailbox.{priority_of, slot, insert_one, insert_by_priority}

-- In delivery order: no message stands before one of higher priority.
abbrev pub IsSorted : List BridgeMessage → Type 0
IsSorted [] = Unit
IsSorted (m ∷ q) = All (λ n. priority_of n ≤ priority_of m) q × IsSorted q

-- The position in a longer array, by the position in its tail.
slot-cons :
    (m : BridgeMessage) (q : List BridgeMessage) (p i : ℕ)
    → slot (m ∷ q) p (suc i)
      ≡ (if slot q p i == 0 then (if ltb (priority_of m) p then 0 else 1) else suc (slot q p i))
unfolding slot
slot-cons m q p zero = refl
slot-cons m q p (suc i) = ground (arith, slot-cons m q p i)

insert_one-cons :
    (m n : BridgeMessage) (q : List BridgeMessage)
    → insert_one m (n ∷ q) ≡ (
        if (slot q (priority_of m) (length q) == 0) && ltb (priority_of n) (priority_of m)
        then m ∷ n ∷ q
        else n ∷ insert_one m q)
unfolding insert_one
insert_one-cons m n q = rw slot-cons (ground arith)

slot_of_lower :
    (q : List BridgeMessage) (p : ℕ) → All (λ n. priority_of n < p) q → slot q p (length q) ≡ 0
unfolding slot
slot_of_lower [] p h = refl
slot_of_lower (n ∷ q) p h = rw slot-cons (ground (arith, slot_of_lower q p h.1))

-- Where a message of the given priority belongs: behind all that is at least as important, which
-- keeps first in, first out among equals, and before all the rest.
abbrev pub place : BridgeMessage → List BridgeMessage → List BridgeMessage
place m q =
    filter (λ n. leb (priority_of m) (priority_of n)) q
    ++ m ∷ filter (λ n. ltb (priority_of n) (priority_of m)) q

insert_one-sorted :
    (m n : BridgeMessage) (q : List BridgeMessage)
    → IsSorted (n ∷ q)
    → insert_one m (n ∷ q)
      ≡ (if ltb (priority_of n) (priority_of m) then m ∷ n ∷ q else n ∷ insert_one m q)
insert_one-sorted m n q s = elim (Bool-cases (ltb (priority_of n) (priority_of m))) [
  | inl less ↦ ground (arith, insert_one-cons m n q, slot_of_lower q (priority_of m) (lower less))
  | inr more ↦ ground (arith, insert_one-cons m n q)
]
  where
    lower : ltb (priority_of n) (priority_of m) ≡ true → All (λ k. priority_of k < priority_of m) q
    lower less = All-mono _ q (λ k h. ground arith) s.0

All-lower :
    (m n : BridgeMessage) (q : List BridgeMessage)
    → All (λ k. priority_of k ≤ priority_of n) q
    → priority_of n < priority_of m
    → All (λ k. leb (priority_of m) (priority_of k) ≡ false) q
      × All (λ k. ltb (priority_of k) (priority_of m) ≡ true) q
All-lower m n q h less =
    (All-mono _ q (λ k b. ground arith) h, All-mono _ q (λ k b. ground arith) h)

insert_one-nil : (m : BridgeMessage) → insert_one m [] ≡ m ∷ []
unfolding insert_one
insert_one-nil m = refl

-- Inserting into a mailbox that is in delivery order puts the message behind all messages that
-- are at least as important and before all the rest.
pub insert_one-eq-place :
    (m : BridgeMessage) (q : List BridgeMessage) → IsSorted q → insert_one m q ≡ place m q
insert_one-eq-place m [] s = insert_one-nil m
insert_one-eq-place m (n ∷ q) s = elim (Bool-cases (ltb (priority_of n) (priority_of m))) [
  | inl less ↦
      let (none_above, all_below) = All-lower m n q s.0 (ltb→lt _ _ less) in
      rw
        (
          insert_one-sorted m n q s,
          less,
          filter_of_none _ q none_above,
          filter_of_All _ q all_below,
        )
        (ground arith)
  | inr more ↦ rw (insert_one-sorted m n q s, more) (ground (arith, insert_one-eq-place m q s.1))
]

insert_one-All :
    (P : BridgeMessage → Type 0) (m : BridgeMessage) (q : List BridgeMessage)
    → P m
    → All P q
    → All P (insert_one m q)
unfolding insert_one
insert_one-All P m [] pm h = (pm, tt)
insert_one-All P m (n ∷ q) pm h = ground (arith, insert_one-cons m n q, insert_one-All P m q pm h.1)

pub insert_one-IsSorted :
    (m : BridgeMessage) (q : List BridgeMessage) → IsSorted q → IsSorted (insert_one m q)
insert_one-IsSorted m [] s = rw (insert_one-nil m) (tt, tt)
insert_one-IsSorted m (n ∷ q) s = elim (Bool-cases (ltb (priority_of n) (priority_of m))) [
  | inl less ↦
      rw (insert_one-sorted m n q s, less)
        ((ground arith, All-mono _ q (λ k h. ground arith) s.0), s)
  | inr more ↦
      rw (insert_one-sorted m n q s, more)
        (
          insert_one-All (λ k. priority_of k ≤ priority_of n) m q (ground arith) s.0,
          insert_one-IsSorted m q s.1,
        )
]

-- Nothing is lost or made up by an insertion, whatever order the mailbox is in.
pub insert_one-perm : (m : BridgeMessage) (q : List BridgeMessage) → Perm (insert_one m q) (m ∷ q)
insert_one-perm m [] = rw (insert_one-nil m) (Perm.refl (m ∷ []))
insert_one-perm m (n ∷ q) =
    let behind = Perm.trans (Perm.cons n (insert_one-perm m q)) (Perm.swap m n q) in
    rw (insert_one-cons m n q)
      (elim ((slot q (priority_of m) (length q) == 0) && ltb (priority_of n) (priority_of m))
        as (λ b. Perm (if b then m ∷ n ∷ q else n ∷ insert_one m q) (m ∷ n ∷ q)) [
          | true ↦ Perm.refl (m ∷ n ∷ q)
          | false ↦ behind
        ])

-- Inserting messages one after the other into a mailbox that is in delivery order keeps it in
-- delivery order.
pub insert_by_priority-IsSorted :
    (q ms : List BridgeMessage) → IsSorted q → IsSorted (insert_by_priority q ms)
unfolding insert_by_priority
insert_by_priority-IsSorted q [] s = s
insert_by_priority-IsSorted q (m ∷ ms) s =
    insert_by_priority-IsSorted (insert_one m q) ms (insert_one-IsSorted m q s)

-- After inserting messages a mailbox holds what it held and those messages, each as often.
pub insert_by_priority-perm : (q ms : List BridgeMessage) → Perm (insert_by_priority q ms) (ms ++ q)
unfolding insert_by_priority
insert_by_priority-perm q [] = Perm.refl q
insert_by_priority-perm q (m ∷ ms) =
    Perm.trans (insert_by_priority-perm (insert_one m q) ms)
      (Perm.trans (Perm.append_left ms (insert_one-perm m q)) (perm_middle ms q))

pub length-insert_one :
    (m : BridgeMessage) (q : List BridgeMessage) → length (insert_one m q) ≡ suc (length q)
unfolding insert_one
length-insert_one m q = length-insert_at (slot q (priority_of m) (length q)) m q

pub length-insert_by_priority :
    (q ms : List BridgeMessage) → length (insert_by_priority q ms) ≡ length q + length ms
unfolding insert_by_priority
length-insert_by_priority q [] = omega arith
length-insert_by_priority q (m ∷ ms) =
    omega (arith, length-insert_by_priority (insert_one m q) ms, length-insert_one m q)
