-- ===== src/Hub/Leases/Commit.antt =====
-- What a commit takes off the leases.
use agent_comm_hub.Prelude.{
  ◌+◌, ◌≡◌, refl, String, str_eq, if◌then◌else◌, Bool, not, List, [], ◌∷◌, length, filter, arith,
}
use agent_comm_hub.Protocol.{BridgeMessage}
use agent_comm_hub.Dict.{Dict, get_or}
use agent_comm_hub.Dict.Laws.{get_or-set, get_or-delete}
use agent_comm_hub.Hub.State.{AgentHub, Lease}
use agent_comm_hub.Hub.Counters.{forget_attempts}
use agent_comm_hub.Hub.Leases.{wants, store, forget_all, messages_of, changed_if_any, commit}

pub get_or-store {ℓ} :
    {A : Type ℓ} (j k : String) (xs : List A) (d : Dict (List A))
    → get_or j [] (store k xs d) ≡ (if str_eq k j then xs else get_or j [] d)
get_or-store j k [] d = get_or-delete j k [] d
get_or-store j k (x ∷ xs) d = get_or-set j k (x ∷ xs) [] d

forget_all-leases :
    (peer : String) (ms : List BridgeMessage) (h : AgentHub)
    → (forget_all peer ms h).leases ≡ h.leases
unfolding forget_all
forget_all-leases peer [] h = refl
forget_all-leases peer (m ∷ ms) h = forget_all-leases peer ms (forget_attempts peer m.id h)

changed_if_any-leases :
    (ms : List BridgeMessage) (h : AgentHub) → (changed_if_any ms h).leases ≡ h.leases
changed_if_any-leases [] h = refl
changed_if_any-leases (m ∷ ms) h = refl

length-partition :
    (p : Lease → Bool) (ls : List Lease)
    → length (messages_of (filter p ls)) + length (filter (λ l. not (p l)) ls) ≡ length ls
length-partition p [] = refl
length-partition p (l ∷ ls) = ground (arith, length-partition p ls)

-- A commit releases the leases of the peer whose messages are named, leaves the peer's other
-- leases and those of every other peer, and returns how many it released.
pub commit-leases :
    (peer other : String) (ids : List String) (h : AgentHub)
    → let r = commit peer ids h in
      (get_or other [] r.1.leases ≡ (
        if str_eq peer other
        then filter (λ l. not (wants ids l.message.id)) (get_or peer [] h.leases)
        else get_or other [] h.leases))
      × (r.0 + length (filter (λ l. not (wants ids l.message.id)) (get_or peer [] h.leases))
          ≡ length (get_or peer [] h.leases))
unfolding commit
commit-leases peer other ids h =
    let list = get_or peer [] h.leases in
    let released = messages_of (filter (λ l. wants ids l.message.id) list) in
    let still = filter (λ l. not (wants ids l.message.id)) list in
    let forgot = forget_all peer released h in
    let kept = record forgot { leases = store peer still forgot.leases } in
    (
      rw
          (
            changed_if_any-leases released kept,
            get_or-store other peer still forgot.leases,
            forget_all-leases peer released h,
          )
          refl,
      length-partition (λ l. wants ids l.message.id) list,
    )
