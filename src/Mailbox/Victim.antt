-- ===== src/Mailbox/Victim.antt =====
-- Which message a full mailbox gives up.
use agent_comm_hub.Prelude.{
  ℕ, zero, suc, ◌≤◌, ◌<◌, ◌≡◌, refl, ap, ◌≢◌, ◌==◌, if◌then◌else◌, some, List, [], ◌∷◌, ◌++◌,
  length, arith, All, ℕ_discrete,
}
use agent_comm_hub.Protocol.{BridgeMessage}
use agent_comm_hub.Mailbox.{priority_of, priority_at, lowest_from, lowest_priority_index}
use agent_comm_hub.Mailbox.Order.{IsSorted}

lowest_from-cons :
    (m : BridgeMessage) (q : List BridgeMessage) (p i : ℕ)
    → lowest_from (m ∷ q) p (suc i) ≡ (
        if lowest_from q p i == 0
        then (if priority_of m == p then 0 else 1)
        else suc (lowest_from q p i))
unfolding lowest_from
lowest_from-cons m q p zero = refl
lowest_from-cons m q p (suc i) = ground (arith, lowest_from-cons m q p i)

-- The mailbox `q` gives up the message at index `v`, of priority `p`: there it splits into more
-- important messages and, behind the victim, equally important ones.
pub record Victim (q : List BridgeMessage) (p v : ℕ) : Type 0 where
  pub front : List BridgeMessage
  pub victim : BridgeMessage
  pub back : List BridgeMessage
  pub split : q ≡ front ++ victim ∷ back
  pub index : length front ≡ v
  pub priority : priority_of victim ≡ p
  pub above : All (λ n. p < priority_of n) front
  pub same : All (λ n. priority_of n ≡ p) back

head_above :
    (m : BridgeMessage) (q : List BridgeMessage) (w : BridgeMessage) (back : List BridgeMessage)
    (p : ℕ)
    → q ≡ w ∷ back
    → priority_of w ≡ p
    → IsSorted (m ∷ q)
    → priority_of m ≢ p
    → p < priority_of m
head_above m q w back p e pw s ne =
    let below : All (λ n. priority_of n ≤ priority_of m) (w ∷ back) = rw e at s.0 in
    omega (arith, below.0)

front_above :
    (m : BridgeMessage) (q : List BridgeMessage) (n : BridgeMessage) (rest : List BridgeMessage)
    (p : ℕ)
    → q ≡ n ∷ rest
    → p < priority_of n
    → IsSorted (m ∷ q)
    → p < priority_of m
front_above m q n rest p e less s =
    let below : All (λ k. priority_of k ≤ priority_of m) (n ∷ rest) = rw e at s.0 in
    omega (arith, below.0)

-- One more message at the front of an array whose victim is known.
grow :
    (m : BridgeMessage) (q front : List BridgeMessage) (w : BridgeMessage)
    (back : List BridgeMessage) (p v : ℕ)
    → q ≡ front ++ w ∷ back
    → length front ≡ v
    → priority_of w ≡ p
    → All (λ n. p < priority_of n) front
    → All (λ n. priority_of n ≡ p) back
    → IsSorted (m ∷ q)
    → Victim (m ∷ q) p (if v == 0 then (if priority_of m == p then 0 else 1) else suc v)
grow m q [] w back p v e i pw above same s = elim (ℕ_discrete (priority_of m) p) [
  | yes eq ↦ record {
    front = [];
    victim = m;
    back = q;
    split = refl;
    index = ground arith;
    priority = eq;
    above = tt;
    same = rw e (pw, same);
  }
  | no ne ↦ record {
    front = m ∷ [];
    victim = w;
    back = back;
    split = ap (◌∷◌ m) e;
    index = ground arith;
    priority = pw;
    above = (head_above m q w back p e pw s ne, tt);
    same = same;
  }
]
grow m q (n ∷ front) w back p v e i pw above same s = record {
  front = m ∷ n ∷ front;
  victim = w;
  back = back;
  split = ap (◌∷◌ m) e;
  index = ground arith;
  priority = pw;
  above = (front_above m q n (front ++ w ∷ back) p e above.0 s, above);
  same = same;
}

Victim-from :
    (m : BridgeMessage) (q : List BridgeMessage)
    → IsSorted (m ∷ q)
    → let p = priority_at (m ∷ q) (length q) in Victim (m ∷ q) p (lowest_from (m ∷ q) p (length q))
unfolding lowest_from
Victim-from m [] s = record {
  front = [];
  victim = m;
  back = [];
  split = refl;
  index = refl;
  priority = refl;
  above = tt;
  same = tt;
}
Victim-from m (n ∷ q) s =
    let r = Victim-from n q s.1 in
    let p = priority_at (n ∷ q) (length q) in
    rw (lowest_from-cons m (n ∷ q) p (length q))
      (grow m (n ∷ q) r.front r.victim r.back p _ r.split r.index r.priority r.above r.same s)

-- A mailbox in delivery order that is full gives up the least important message and, among
-- several that are least important, the one that is first in line.
pub lowest_priority_index-Victim :
    (m : BridgeMessage) (q : List BridgeMessage)
    → IsSorted (m ∷ q)
    → (p v : ℕ) × (lowest_priority_index (m ∷ q) ≡ some v) × Victim (m ∷ q) p v
unfolding lowest_priority_index
lowest_priority_index-Victim m q s = (_, _, refl, Victim-from m q s)
