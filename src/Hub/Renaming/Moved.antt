-- ===== src/Hub/Renaming/Moved.antt =====
-- src/hub.ts, `renamePeer`: a renamed peer has the mailbox and the registration that it had.
use agent_comm_hub.Prelude.{
  ◌≡◌, ◌≢◌, refl, ap, sym, subst, ◌∙◌, String, str_eq, str_eq-false, true, false, ◌&&◌, ◌||◌, not,
  none, [], arith, eq_refl,
}
use agent_comm_hub.Dict.{get, has}
use agent_comm_hub.Hub.State.{Env, AgentHub}
use agent_comm_hub.Hub.Outcome.{done}
use agent_comm_hub.Hub.Registry.{owns_mailbox}
use agent_comm_hub.Hub.Renaming.{or_else, move, rekey, rename_peer}
use agent_comm_hub.Hub.Renaming.Keys.{
  held, get-move, rekey-Keeps, renamed-Free, queue-get, dead-get, leases-get, waiters-get, leased,
  waiting, seen-has, parked-has, or_else-none,
}

-- A peer's mailbox and dead letters by their ids, its leases, its waiters, and whether it is registered
-- and parked.
abbrev pub IsMoved : String → String → AgentHub → AgentHub → Type 0
IsMoved old new h h' =
    (held (get new h'.queues) ≡ held (get old h.queues))
    × (held (get new h'.dead_letters)
        ≡ held (or_else (get old h.dead_letters) (get new h.dead_letters)))
    × (leased (get new h'.leases) ≡ leased (or_else (get old h.leases) (get new h.leases)))
    × (waiting (get new h'.waiters) ≡ waiting (or_else (get old h.waiters) (get new h.waiters)))
    × (has new h'.last_seen ≡ true)
    × (has new h'.parked_at ≡ false)

abbrev pub IsGone : String → AgentHub → Type 0
IsGone old h' =
    (held (get old h'.queues) ≡ [])
    × (held (get old h'.dead_letters) ≡ [])
    × (leased (get old h'.leases) ≡ [])
    × (waiting (get old h'.waiters) ≡ [])
    × (has old h'.last_seen ≡ false)
    × (has old h'.parked_at ≡ false)

abbrev pub IsSame : String → AgentHub → AgentHub → Type 0
IsSame j h h' =
    (held (get j h'.queues) ≡ held (get j h.queues))
    × (held (get j h'.dead_letters) ≡ held (get j h.dead_letters))
    × (leased (get j h'.leases) ≡ leased (get j h.leases))
    × (waiting (get j h'.waiters) ≡ waiting (get j h.waiters))
    × (has j h'.last_seen ≡ has j h.last_seen)
    × (has j h'.parked_at ≡ has j h.parked_at)

-- Every field at one key, after a rename.
abbrev Fields : String → String → AgentHub → AgentHub → String → Type 0
Fields old new h r j =
    (held (get j r.queues) ≡ held (get j (move old new h.queues)))
    × (held (get j r.dead_letters) ≡ held (get j (move old new h.dead_letters)))
    × (leased (get j r.leases) ≡ leased (get j (move old new h.leases)))
    × (waiting (get j r.waiters) ≡ waiting (get j (move old new h.waiters)))
    × (has j r.last_seen ≡ (str_eq new j || (not (str_eq old j) && has j h.last_seen)))
    × (has j r.parked_at ≡ (not (str_eq new j) && (not (str_eq old j) && has j h.parked_at)))

rekey-Fields :
    (old new : String) (env : Env) (h : AgentHub) (j : String)
    → Fields old new h (rekey old new env h) j
rekey-Fields old new env h j =
    let k = rekey-Keeps old new env h in
    (
      ap (λ d. held (get j d)) k.0 ∙ queue-get old new env h j,
      ap (λ d. held (get j d)) k.3 ∙ dead-get old new env h j,
      ap (λ d. leased (get j d)) k.2 ∙ leases-get old new env h j,
      ap (λ d. waiting (get j d)) k.1 ∙ waiters-get old new env h j,
      ap (λ d. has j d) k.4 ∙ seen-has old new env h j,
      ap (λ d. has j d) k.5 ∙ parked-has old new env h j,
    )

at_new :
    (old new : String) (h r : AgentHub)
    → old ≢ new
    → owns_mailbox new h ≡ false
    → Fields old new h r new
    → IsMoved old new h r
unfolding has
at_new old new h r n free f =
    let none_there : get new h.queues ≡ none = ground (arith, free) in
    (
      f.0
          ∙ ap held (get-move old new new h.queues n)
          ∙ (rw (eq_refl new, none_there) (ap held (or_else-none (get old h.queues)))),
      f.1 ∙ ap held (get-move old new new h.dead_letters n) ∙ (rw (eq_refl new) refl),
      f.2 ∙ ap leased (get-move old new new h.leases n) ∙ (rw (eq_refl new) refl),
      f.3 ∙ ap waiting (get-move old new new h.waiters n) ∙ (rw (eq_refl new) refl),
      f.4 ∙ (rw (eq_refl new) refl),
      f.5 ∙ (rw (eq_refl new) refl),
    )

at_old : (old new : String) (h r : AgentHub) → old ≢ new → Fields old new h r old → IsGone old r
at_old old new h r n f =
    let other : str_eq new old ≡ false = str_eq-false new old (λ e. n (sym e)) in
    (
      f.0 ∙ ap held (get-move old new old h.queues n) ∙ (rw (other, eq_refl old) refl),
      f.1 ∙ ap held (get-move old new old h.dead_letters n) ∙ (rw (other, eq_refl old) refl),
      f.2 ∙ ap leased (get-move old new old h.leases n) ∙ (rw (other, eq_refl old) refl),
      f.3 ∙ ap waiting (get-move old new old h.waiters n) ∙ (rw (other, eq_refl old) refl),
      f.4 ∙ (rw (other, eq_refl old) refl),
      f.5 ∙ (rw (other, eq_refl old) refl),
    )

at_other :
    (old new : String) (h r : AgentHub) (j : String)
    → old ≢ new
    → j ≢ old
    → j ≢ new
    → Fields old new h r j
    → IsSame j h r
at_other old new h r j n o m f =
    let a : str_eq new j ≡ false = str_eq-false new j (λ e. m (sym e)) in
    let b : str_eq old j ≡ false = str_eq-false old j (λ e. o (sym e)) in
    (
      f.0 ∙ ap held (get-move old new j h.queues n) ∙ (rw (a, b) refl),
      f.1 ∙ ap held (get-move old new j h.dead_letters n) ∙ (rw (a, b) refl),
      f.2 ∙ ap leased (get-move old new j h.leases n) ∙ (rw (a, b) refl),
      f.3 ∙ ap waiting (get-move old new j h.waiters n) ∙ (rw (a, b) refl),
      f.4 ∙ (rw (a, b) refl),
      f.5 ∙ (rw (a, b) refl),
    )

-- A rename that succeeds, of a peer to another id, leaves the new id registered and not parked, with the
-- queued messages that the old id had, and with its dead letters, its leases and its waiters (those of
-- the new id where the old one has no entry); the old id has no messages, no leases, no waiters, no
-- registration and is not parked; and any other peer keeps its messages, its leases and its waiters, and
-- is registered and parked as before. Messages count by their ids, leases by the message's id and the end,
-- and waiters by everything but the sender they wait for.
pub rename_peer-IsMoved :
    (env : Env) (old new : String) (h h' : AgentHub)
    → rename_peer env old new h ≡ done tt h'
    → old ≢ new
    → IsMoved old new h h' × IsGone old h' × ((j : String) → j ≢ old → j ≢ new → IsSame j h h')
rename_peer-IsMoved env old new h h' e n =
    let free = renamed-Free env old new h h' e n in
    let all : ((j : String) → Fields old new h h' j) =
      subst (λ (r : AgentHub). (j : String) → Fields old new h r j) free.0
        (rekey-Fields old new env h) in
    (
      at_new old new h h' n free.2 (all new),
      at_old old new h h' n (all old),
      λ j o m. at_other old new h h' j n o m (all j),
    )
