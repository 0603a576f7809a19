-- ===== src/Tools/Tests.antt =====
-- Names, and a session that registers.
use agent_comm_hub.Prelude.{String, Option, ◌≡◌, refl, true, none, some, [], ◌∷◌}
use agent_comm_hub.Protocol.Ids.{is_peer_id}
use agent_comm_hub.Fixtures.{env}
use agent_comm_hub.Hub.State.{empty_hub}
use agent_comm_hub.Auth.{ok, err}
use agent_comm_hub.Server.Headers.{trim}
use agent_comm_hub.Sessions.{empty_registry, bind_peer}
use agent_comm_hub.Hub.Registry.{register, touch}
use agent_comm_hub.Dict.{get, has, set}
use agent_comm_hub.Tools.Names.{AliasError, sanitize_peer_id, sanitize_alias}
use agent_comm_hub.Tools.Names.Ids.{sanitize_peer_id-is_peer_id}
use agent_comm_hub.Tools.{
  World, Ran, returns, throws, runs_out, bridge_register, ◌>>=◌, ◌>>◌, ask, require_not, return,
  read_alias, keep_token, bind, when, on_hub, change, set_if_given,
}
use agent_comm_hub.Tools.Claims.{MayTake, Joined, bridge_register-MayTake}

names_test :
    (sanitize_peer_id "Claude Code!" ≡ "claude-code")
    × (sanitize_peer_id "***" ≡ "agent")
    × (sanitize_peer_id "all" ≡ "all")
unfolding sanitize_peer_id
names_test = (refl, refl, refl)

alias_test :
    (sanitize_alias "  Zhang San " ≡ ok "Zhang San") × (sanitize_alias " " ≡ err AliasError.empty)
unfolding sanitize_alias trim
alias_test = (refl, refl)

sanitize_peer_id-is_peer_id_example : is_peer_id (sanitize_peer_id "Claude Code!") ≡ true
sanitize_peer_id-is_peer_id_example = sanitize_peer_id-is_peer_id "Claude Code!"

abbrev world : World
world = (record empty_registry { sessions = "s1" ∷ [] }, empty_hub)

abbrev world_after : Ran String → World
world_after (returns p w) = w
world_after (throws e w) = w
world_after runs_out = world

abbrev registered : World
registered = world_after (bridge_register env (some "s1") (some "bob") none world)

bob_registers : bridge_register env (some "s1") (some "bob") none world ≡ returns "bob" registered
unfolding bridge_register ◌>>=◌ ◌>>◌ ask require_not is_peer_id return read_alias keep_token get has
    bind bind_peer when on_hub register change set_if_given touch set
bob_registers = refl

bridge_register-MayTake_example :
    (◌≡◌ {A = Option String} (some "bob") (some "bob"))
    × MayTake (some "s1") "bob" world
    × Joined (some "s1") "bob" registered.0
bridge_register-MayTake_example =
    bridge_register-MayTake env (some "s1") (some "bob") none world "bob" registered bob_registers
