-- ===== src/Hub/Polling/Taking.antt =====
-- What a wait takes out of the mailbox.
use mathlib.Core.List.Perm
use mathlib.Core.List.{perm_middle}
use agent_comm_hub.Prelude.{
  ℕ, zero, suc, ◌≡◌, refl, Bool, List, [], ◌∷◌, ◌++◌, Perm, filter, arith, Bool-cases, inl, inr,
  take,
}
use agent_comm_hub.Protocol.{BridgeMessage}
use agent_comm_hub.Hub.Polling.{take_matching}

-- The first `n` wanted messages, which are taken, and what stays in the mailbox.
pub record Takes (wanted : BridgeMessage → Bool) (n : ℕ) (q taken left : List BridgeMessage)
    : Type 0 where
  pub first : taken ≡ take n (filter wanted q)
  pub whole : Perm (taken ++ left) q

-- A wait for at most `n` messages takes the first `n` of the mailbox that it wants, in the order
-- of the mailbox, and everything else stays.
pub take_matching-Takes :
    (wanted : BridgeMessage → Bool) (n : ℕ) (q : List BridgeMessage)
    → Takes wanted n q (take_matching wanted n q).0 (take_matching wanted n q).1
unfolding take_matching
take_matching-Takes wanted zero [] = record { first = refl; whole = Perm.refl [] }
take_matching-Takes wanted (suc n) [] = record { first = refl; whole = Perm.refl [] }
take_matching-Takes wanted zero (m ∷ q) = record { first = refl; whole = Perm.refl (m ∷ q) }
take_matching-Takes wanted (suc n) (m ∷ q) = elim (Bool-cases (wanted m)) [
  | inl hit ↦
      let r = take_matching-Takes wanted n q in
      rw (hit, take_matching)
        (record { first = ground (arith, hit, r.first); whole = Perm.cons m r.whole })
  | inr miss ↦
      let r = take_matching-Takes wanted (suc n) q in
      rw (miss, take_matching)
        (record {
          first = ground (arith, miss, r.first);
          whole =
              Perm.trans
                (perm_middle (take_matching wanted (suc n) q).0 (take_matching wanted (suc n) q).1)
                (Perm.cons m r.whole);
        })
]
