-- ===== src/Hub/Leases/Tests.antt =====
-- A commit of one of two leases.
use agent_comm_hub.Prelude.{◌≡◌, ◌+◌, not, length, filter, [], ◌∷◌}
use agent_comm_hub.Dict.{get_or}
use agent_comm_hub.Protocol.{BridgeMessage}
use agent_comm_hub.Fixtures.{chat_from}
use agent_comm_hub.Hub.State.{AgentHub, Lease, empty_hub}
use agent_comm_hub.Hub.Leases.{wants, commit}
use agent_comm_hub.Hub.Leases.Commit.{commit-leases}

abbrev lease_of : BridgeMessage → Lease
lease_of m = record { message = m; expires_at = 70 }

abbrev leased : AgentHub
leased = record empty_hub {
  leases =
      ("bob", lease_of (chat_from "alice" "m1" 0) ∷ lease_of (chat_from "alice" "m2" 0) ∷ []) ∷ [];
}

commit-leases_example :
    (get_or "bob" [] (commit "bob" ("m1" ∷ []) leased).1.leases
      ≡ filter (λ l. not (wants ("m1" ∷ []) l.message.id)) (get_or "bob" [] leased.leases))
    × ((commit "bob" ("m1" ∷ []) leased).0
          + length
              (filter (λ l. not (wants ("m1" ∷ []) l.message.id)) (get_or "bob" [] leased.leases))
        ≡ length (get_or "bob" [] leased.leases))
commit-leases_example = commit-leases "bob" "bob" ("m1" ∷ []) leased
