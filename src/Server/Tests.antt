-- ===== src/Server/Tests.antt =====
-- A server in remote mode: its sessions, its streams, and its answers.
use agent_comm_hub.Prelude.{
  ℕ, ◌≡◌, ◌≢◌, refl, ap, subst, or_default, inl, inr, String, str_eq, add, true, false, none, some,
  [], ◌∷◌, arith,
}
use agent_comm_hub.Dict.{get, set, has}
use agent_comm_hub.Json.{Json, Fields}
use agent_comm_hub.Auth.{TokenIdentity, TokenRole, ok, Table, authenticate}
use agent_comm_hub.Sessions.{empty_registry, unbind_peer}
use agent_comm_hub.Sessions.Uses.{Uses, IsSound}
use agent_comm_hub.Server.{Request, RequestBody, McpTool, Config, McpServer}
use agent_comm_hub.Server.Headers.{
  trim, bearer_from_headers, is_loopback_host, client_ip, header_value, presented_manager_token,
}
use agent_comm_hub.Server.Origin.{origin_allowed}
use agent_comm_hub.Server.Dispatch.{dispatch}
use agent_comm_hub.Server.Handlers.{check_owner, handle_get, handle_post}
use agent_comm_hub.Server.Routes.{on_request}
use agent_comm_hub.Server.Identity.{by_token, identity_for, identity_for-MarksWalkIns, NoWalkIn}
use agent_comm_hub.Server.Bound.{anon_join_peer, IsOwned, MarksWalkIns}
use agent_comm_hub.Server.Ownership.{on_request-IsOwned}
use agent_comm_hub.Server.Invariant.{ToolUses}
use agent_comm_hub.Server.Reach.{new_server, here, next, request, Reach-IsSound}
use agent_comm_hub.Server.Refusals.{Stranger, on_request-refused}

headers_test :
    (bearer_from_headers (some " Bearer  abc ") ≡ some "abc")
    × (bearer_from_headers (some "Bearer") ≡ none)
unfolding bearer_from_headers trim
headers_test = (refl, refl)

loopback_test :
    (is_loopback_host "LocalHost." ≡ true)
    × (is_loopback_host "127.0.0.255" ≡ true)
    × (is_loopback_host "127.0.0.256" ≡ false)
    × (is_loopback_host "127.evil.example" ≡ false)
    × (is_loopback_host "[::1]" ≡ true)
unfolding is_loopback_host trim
loopback_test = (refl, refl, refl, refl, refl)

abbrev alice : TokenIdentity
alice = record { peer = "alice"; role = TokenRole.agent; owner = none; anonymous = false }

abbrev bob : TokenIdentity
bob = record { peer = "bob"; role = TokenRole.agent; owner = none; anonymous = false }

abbrev tokens : Table
tokens = ("0123456789abcdef", alice) ∷ ("fedcba9876543210", bob) ∷ []

abbrev leave : McpTool ℕ
leave = record {
  name = "leave";
  description = "leaves";
  input_schema = Json.null;
  handler = λ args session w. (ok Json.null, unbind_peer session w.0, w.1);
}

abbrev config : Config ℕ
config = record {
  path = "/mcp";
  server_info = Json.null;
  instructions = "";
  tools = leave ∷ [];
  on_initialize = λ session name version w. w;
  authenticate = identity_for (some tokens) true;
  origin_policy = none;
  manager_token = none;
  session_ttl_ms = 1000;
  host_of_origin = λ origin. none;
  host_of_header = λ host. none;
}

abbrev hello : Request
hello = record {
  method = "POST";
  path = "/mcp";
  session_id = none;
  authorization = some "Bearer 0123456789abcdef";
  protocol_version = none;
  origin = none;
  host = none;
  forwarded_for = none;
  remote_address = none;
  body = RequestBody.parsed (
      Json.obj (
        Fields.entry "method" (Json.str "initialize") (Fields.entry "id" (Json.num 1) Fields.end)));
  now = 5;
  fresh = "s1";
  stream = 0;
}

abbrev started : McpServer ℕ
started = record {
  registry = record empty_registry {
    sessions = "s1" ∷ [];
    last_used_at = ("s1", 5) ∷ [];
    token_bindings = ("s1", alice) ∷ [];
  };
  sse_streams = [];
  hub = 0;
}

hello_test : (on_request config hello (new_server 0)).1 ≡ started
unfolding on_request handle_get handle_post origin_allowed check_owner dispatch identity_for
    bearer_from_headers trim header_value presented_manager_token get set has client_ip add
hello_test = refl

abbrev theft : Request
theft = record hello {
  session_id = some "s1";
  authorization = some "Bearer fedcba9876543210";
  now = 7;
  fresh = "s2";
}

theft_test : (on_request config theft started).0.status ≡ 401
unfolding on_request handle_get handle_post origin_allowed check_owner dispatch identity_for
    bearer_from_headers trim header_value presented_manager_token get set has client_ip add
theft_test = refl

marks : MarksWalkIns config
marks =
    identity_for-MarksWalkIns config (some tokens) true refl
      (λ table e. subst NoWalkIn (same e) (refl, (refl, tt)))
  where
    same : {table : Table} → some tokens ≡ some table → tokens ≡ table
    same e = ap (λ o. or_default o tokens) e

leave_uses : ToolUses leave
leave_uses args session r hub = Uses.unbinds session r

s2_is_new : ◌≢◌ {A = String} "s2" "s1"
s2_is_new e = let differ : false ≡ true = ap (λ s. str_eq s "s1") e in ground (arith, differ)

alice_joins_not : ◌≢◌ {A = String} "alice" anon_join_peer
alice_joins_not e =
    let differ : false ≡ true = ap (λ s. str_eq s anon_join_peer) e in ground (arith, differ)

s1-IsOwned : IsOwned config theft "s1" "alice" TokenRole.agent started.registry
unfolding get
s1-IsOwned = (refl, refl, refl)

on_request-IsOwned_example :
    IsOwned config theft "s1" "alice" TokenRole.agent (on_request config theft started).1.registry
on_request-IsOwned_example =
    on_request-IsOwned config theft "s1" "alice" TokenRole.agent
      (λ session name version r hub. Uses.unused r) (leave_uses, tt) marks s2_is_new alice_joins_not
      started s1-IsOwned

Reach-IsSound_example :
    IsSound
      (on_request config hello (new_server 0)).1.sse_streams
      (on_request config hello (new_server 0)).1.registry
Reach-IsSound_example =
    Reach-IsSound config (λ session name version r hub. Uses.unused r) (leave_uses, tt) 0
      (next here (request hello (new_server 0)))

bob_not_alice : ◌≢◌ {A = String} "bob" "alice"
bob_not_alice e = let differ : false ≡ true = ap (λ s. str_eq s "alice") e in ground (arith, differ)

mcp_not_admin : ◌≢◌ {A = String} "/mcp" "/admin"
mcp_not_admin e =
    let differ : false ≡ true = ap (λ s. str_eq s "/admin") e in ground (arith, differ)

mcp_not_health : ◌≢◌ {A = String} "/mcp" "/healthz"
mcp_not_health e =
    let differ : false ≡ true = ap (λ s. str_eq s "/healthz") e in ground (arith, differ)

theft_is_strange :
    Stranger (λ req. by_token tokens true (bearer_from_headers req.authorization)) theft started
unfolding get bearer_from_headers trim authenticate
theft_is_strange = inr (bob, alice, refl, refl, refl, inl bob_not_alice)

config_is_remote :
    config.authenticate ≡ some (λ req. by_token tokens true (bearer_from_headers req.authorization))
unfolding identity_for
config_is_remote = refl

theft_allowed : origin_allowed config theft ≡ true
unfolding origin_allowed header_value
theft_allowed = refl

on_request-refused_example :
    ((on_request config theft started).0.status ≡ 401)
    × ((on_request config theft started).1 ≡ started)
on_request-refused_example =
    on_request-refused config theft _ started config_is_remote theft_allowed refl
      (mcp_not_admin, mcp_not_health) (inr refl) theft_is_strange
