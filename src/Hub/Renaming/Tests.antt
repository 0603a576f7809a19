-- ===== src/Hub/Renaming/Tests.antt =====
-- Renaming a peer that has mail, and folding two rows of one peer.
use agent_comm_hub.Prelude.{
  ◌≡◌, ◌≢◌, refl, ap, String, str_eq, true, false, none, List, [], ◌∷◌, includes, arith,
}
use agent_comm_hub.Protocol.{AssigneeState}
use agent_comm_hub.Protocol.Status.{TaskStatus}
use agent_comm_hub.Protocol.Ids.{is_peer_id}
use agent_comm_hub.Dict.{get, set, has, delete}
use agent_comm_hub.Fixtures.{env, chat_from}
use agent_comm_hub.Hub.State.{AgentHub, empty_hub}
use agent_comm_hub.Hub.Outcome.{done}
use agent_comm_hub.Hub.Renaming.{
  move, move_state, rename_messages, rename_tasks, rename_members, rekey, rename_peer,
}
use agent_comm_hub.Hub.Renaming.Folding.{ids, has_open, has_duplicates, fold_rows, fold_rows-Folds}
use agent_comm_hub.Hub.Registry.{register}
use agent_comm_hub.Hub.Groups.Namespace.{IsApart, final}
use agent_comm_hub.Hub.Renaming.Apart.{here, next, registers, renames, NameSteps-IsApart}
use agent_comm_hub.Hub.Renaming.Moved.{IsMoved, IsGone, IsSame, rename_peer-IsMoved}

abbrev hub : AgentHub
hub = record empty_hub {
  last_seen = ("bob", 3) ∷ ("amy", 4) ∷ [];
  queues = ("bob", chat_from "amy" "m1" 0 ∷ []) ∷ [];
  leases = ("bob", record { message = chat_from "amy" "m0" 0; expires_at = 20 } ∷ []) ∷ [];
  history_ring = chat_from "amy" "m1" 0 ∷ [];
}

abbrev after : AgentHub
after = rekey "bob" "rob" env hub

renamed : rename_peer env "bob" "rob" hub ≡ done tt after
unfolding rename_peer has get is_peer_id
renamed = refl

recipient_test : after.queues ≡ ("rob", record (chat_from "amy" "m1" 0) { to = "rob" } ∷ []) ∷ []
unfolding rekey move move_state rename_messages rename_tasks rename_members get set delete has
recipient_test = refl

bob_not_rob : ◌≢◌ {A = String} "bob" "rob"
bob_not_rob e = let differ : false ≡ true = ap (λ s. str_eq s "rob") e in ground (arith, differ)

rename_peer-IsMoved_example :
    IsMoved "bob" "rob" hub after
    × IsGone "bob" after
    × ((j : String) → j ≢ "bob" → j ≢ "rob" → IsSame j hub after)
rename_peer-IsMoved_example = rename_peer-IsMoved env "bob" "rob" hub after renamed bob_not_rob

abbrev row : TaskStatus → AssigneeState
row status = record { peer_id = "bob"; status = status; delivered_ms = none; acks = [] }

abbrev rows : List AssigneeState
rows = row TaskStatus.working ∷ row TaskStatus.done ∷ []

fold_rows-Folds_example :
    (has_duplicates (ids (fold_rows rows)) ≡ false)
    × ((peer : String) → includes (ids (fold_rows rows)) peer ≡ includes (ids rows) peer)
    × ((peer : String) → has_open peer (fold_rows rows) ≡ has_open peer rows)
fold_rows-Folds_example = fold_rows-Folds rows

empty_hub-IsApart : IsApart empty_hub
unfolding has
empty_hub-IsApart = record { apart = λ id. refl }

abbrev hub1 : AgentHub
hub1 = final empty_hub (register env "bob" none none false empty_hub)

NameSteps-IsApart_example : IsApart (final hub1 (rename_peer env "bob" "rob" hub1))
NameSteps-IsApart_example =
    NameSteps-IsApart
      (next (next here (registers env "bob" none none false empty_hub))
        (renames env "bob" "rob" hub1))
      empty_hub-IsApart
