-- ===== src/Sessions/Tests.antt =====
-- A registry of two sessions, one of which is finished.
use agent_comm_hub.Prelude.{◌≡◌, refl, true, [], ◌∷◌, includes, remove, add, not, ◌&&◌, ◌==◌}
use agent_comm_hub.Dict.{get, get_or, delete}
use agent_comm_hub.Sessions.{
  SessionRegistry, empty_registry, sweep, is_finished, unbind_peer_id, attached_count,
  rebind_peer_id, sessions_for_peer, bound_to,
}
use agent_comm_hub.Sessions.Sweep.{Forgets, sweep-Forgets}

abbrev two : SessionRegistry
two = record empty_registry {
  sessions = "s1" ∷ "s2" ∷ [];
  last_used_at = ("s1", 10) ∷ ("s2", 90) ∷ [];
  peer_bindings = ("s1", "alice") ∷ ("s2", "alice") ∷ [];
}

sweep_test : (sweep 100 50 two).0 ≡ "s1" ∷ []
unfolding sweep get_or get delete remove
sweep_test = refl

live_test : (sweep 100 50 (record two { live_streams = "s1" ∷ [] })).0 ≡ []
unfolding sweep get_or get delete remove
live_test = refl

unbind_test : (unbind_peer_id "alice" true two).1.suppressed_auto ≡ "s1" ∷ "s2" ∷ []
unfolding unbind_peer_id bound_to add
unbind_test = refl

rebind_test :
    let (count, r) = rebind_peer_id "alice" "bob" two in
    (count ≡ 2) × (attached_count "bob" r ≡ 2) × (sessions_for_peer "bob" r ≡ "s1" ∷ "s2" ∷ [])
unfolding rebind_peer_id bound_to
rebind_test = (refl, refl, refl)

sweep-Forgets_example :
    let gone = not (50 == 0) && includes two.sessions "s1" && is_finished 100 50 two "s1" in
    (includes (sweep 100 50 two).0 "s1" ≡ gone) × Forgets gone "s1" two (sweep 100 50 two).1
sweep-Forgets_example = sweep-Forgets 100 50 two "s1"
