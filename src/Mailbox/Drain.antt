-- ===== src/Mailbox/Drain.antt =====
-- Draining one sender's messages.
use mathlib.Core.List.Perm
use mathlib.Core.List.{perm_middle}
use agent_comm_hub.Prelude.{
  String, ◌≡◌, ◌≢◌, ◌⊎◌, true, false, List, [], ◌∷◌, ◌++◌, Perm, eq_iff, arith, Bool-cases, inl,
  inr,
}
use agent_comm_hub.Protocol.{BridgeMessage, hub_peer}
use agent_comm_hub.Mailbox.{drains, drain_from}

-- A mailbox that is parted in two, each part in its order: the messages of one sender and the
-- hub's notices, and the messages of anyone else.
pub data Parted (sender : String) : (q drained kept : List BridgeMessage) → Type 0 where
  done : Parted sender [] [] []
  goes :
      (m : BridgeMessage) {q d k : List BridgeMessage}
      → (m.from ≡ sender) ⊎ (m.from ≡ hub_peer)
      → Parted sender q d k
      → Parted sender (m ∷ q) (m ∷ d) k
  stays :
      (m : BridgeMessage) {q d k : List BridgeMessage}
      → (m.from ≢ sender) × (m.from ≢ hub_peer)
      → Parted sender q d k
      → Parted sender (m ∷ q) d (m ∷ k)

drains-sender :
    (sender : String) (m : BridgeMessage)
    → drains sender m ≡ true
    → (m.from ≡ sender) ⊎ (m.from ≡ hub_peer)
drains-sender sender m hit = ground (arith, hit, eq_iff m.from sender, eq_iff m.from hub_peer)

drains-other :
    (sender : String) (m : BridgeMessage)
    → drains sender m ≡ false
    → (m.from ≢ sender) × (m.from ≢ hub_peer)
drains-other sender m miss = (
  λ e. ground (arith, miss, (eq_iff m.from sender).1 e),
  λ e. ground (arith, miss, (eq_iff m.from hub_peer).1 e),
)

drain_from-Parted :
    (q : List BridgeMessage) (sender : String)
    → Parted sender q (drain_from q sender).0 (drain_from q sender).1
unfolding drain_from
drain_from-Parted [] sender = done
drain_from-Parted (m ∷ q) sender = elim (Bool-cases (drains sender m)) [
  | inl hit ↦
      rw (hit, drain_from) (goes m (drains-sender sender m hit) (drain_from-Parted q sender))
  | inr miss ↦
      rw (miss, drain_from) (stays m (drains-other sender m miss) (drain_from-Parted q sender))
]

Parted-perm : {sender : String} {q d k : List BridgeMessage} → Parted sender q d k → Perm (d ++ k) q
Parted-perm done = Perm.refl []
Parted-perm (goes m {q} {d} {k} e p) = Perm.cons m (Parted-perm p)
Parted-perm (stays m {q} {d} {k} e p) = Perm.trans (perm_middle d k) (Perm.cons m (Parted-perm p))

-- Draining one sender's mail takes out the messages of that sender and the hub's notices, and no
-- others, in the order of the mailbox; the messages of anyone else stay, in their order; and no message
-- is lost or made up.
pub drain_from-perm :
    (q : List BridgeMessage) (sender : String)
    → Parted sender q (drain_from q sender).0 (drain_from q sender).1
      × Perm ((drain_from q sender).0 ++ (drain_from q sender).1) q
drain_from-perm q sender = (drain_from-Parted q sender, Parted-perm (drain_from-Parted q sender))
