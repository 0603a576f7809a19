-- ===== src/Sessions.antt =====
-- src/mcp-server.ts, `SessionRegistry`: the sessions of the MCP server, the peer each one is bound
-- to, and what is known of its client. A `Map` is a `Dict`, a `Set` the list of its elements. The
-- time and the id that `randomUUID` makes are arguments.
pub mod Uses
mod Tests
pub mod Sweep
use agent_comm_hub.Prelude.{
  ℕ, ◌-◌, ◌+◌, String, str_eq, leb, ◌==◌, if◌then◌else◌, Bool, true, false, Option, none, some,
  List, [], ◌∷◌, map, length, filter, includes, or_default, add, remove, ◌&&◌, ◌||◌, not,
}
use agent_comm_hub.Dict.{Dict, get, get_or, set, delete, values}
use agent_comm_hub.Auth.{TokenIdentity, Result, ok, err}

pub record SessionRegistry : Type 0 where
  pub sessions : List String
  pub peer_bindings : Dict String
  pub client_names : Dict String
  pub client_versions : Dict String
  pub suppressed_auto : List String
  pub last_used_at : Dict ℕ
  pub session_ips : Dict String
  pub live_streams : List String
  pub token_bindings : Dict TokenIdentity
  pub manager_sessions : List String

abbrev pub empty_registry : SessionRegistry
empty_registry = record {
  sessions = [];
  peer_bindings = [];
  client_names = [];
  client_versions = [];
  suppressed_auto = [];
  last_used_at = [];
  session_ips = [];
  live_streams = [];
  token_bindings = [];
  manager_sessions = [];
}

abbrev pub ensure_session : ℕ → String → Option String → SessionRegistry → String × SessionRegistry
ensure_session now fresh session r =
    let id = or_default session fresh in
    (id, record r { sessions = add id r.sessions; last_used_at = set id now r.last_used_at })

abbrev pub has_session : String → SessionRegistry → Bool
has_session session r = includes r.sessions session

abbrev pub find_for : {V : Type 0} → Option String → Dict V → Option V
find_for none d = none
find_for (some session) d = get session d

abbrev pub peer_for : Option String → SessionRegistry → Option String
peer_for session r = find_for session r.peer_bindings

-- A session keeps the peer that it has claimed.
pub data BindError : Type 0 where
  no_session : BindError
  registered_as : String → BindError

abbrev pub claim : Option String → String → SessionRegistry → Result BindError SessionRegistry
claim none peer r = ok r
claim (some existing) peer r =
    if str_eq existing peer then ok r else err (BindError.registered_as existing)

unfoldable pub bind_peer :
    Option String → String → SessionRegistry → Result BindError SessionRegistry
bind_peer none peer r = err BindError.no_session
bind_peer (some session) peer r = claim (get session r.peer_bindings) peer (record r {
  peer_bindings = set session peer r.peer_bindings;
  sessions = add session r.sessions;
})

abbrev pub unbind_peer : Option String → SessionRegistry → SessionRegistry
unbind_peer none r = r
unbind_peer (some session) r = record r { peer_bindings = delete session r.peer_bindings }

abbrev set_some : String → Option String → Dict String → Dict String
set_some session none d = d
set_some session (some v) d = set session v d

abbrev pub note_client : String → String → Option String → SessionRegistry → SessionRegistry
note_client session name version r = record r {
  client_names = set session name r.client_names;
  client_versions = set_some session version r.client_versions;
}

abbrev pub client_name : Option String → SessionRegistry → Option String
client_name session r = find_for session r.client_names

abbrev pub client_version : Option String → SessionRegistry → Option String
client_version session r = find_for session r.client_versions

abbrev pub suppress_auto : Option String → SessionRegistry → SessionRegistry
suppress_auto none r = r
suppress_auto (some session) r = record r { suppressed_auto = add session r.suppressed_auto }

abbrev pub clear_suppress : Option String → SessionRegistry → SessionRegistry
clear_suppress none r = r
clear_suppress (some session) r = record r { suppressed_auto = remove session r.suppressed_auto }

abbrev pub holds : Option String → List String → Bool
holds none ids = false
holds (some session) ids = includes ids session

abbrev pub is_suppressed : Option String → SessionRegistry → Bool
is_suppressed session r = holds session r.suppressed_auto

abbrev pub touch : ℕ → Option String → SessionRegistry → SessionRegistry
touch now none r = r
touch now (some session) r =
    if includes r.sessions session
    then record r { last_used_at = set session now r.last_used_at }
    else r

-- Everything that is kept of a session, but for its stream.
abbrev pub forget : String → SessionRegistry → SessionRegistry
forget session r = record r {
  sessions = remove session r.sessions;
  last_used_at = delete session r.last_used_at;
  peer_bindings = delete session r.peer_bindings;
  client_names = delete session r.client_names;
  client_versions = delete session r.client_versions;
  session_ips = delete session r.session_ips;
  token_bindings = delete session r.token_bindings;
  manager_sessions = remove session r.manager_sessions;
  suppressed_auto = remove session r.suppressed_auto;
}

-- No live stream, and unused for more than `ttl`.
abbrev pub is_finished : ℕ → ℕ → SessionRegistry → String → Bool
is_finished now ttl r session =
    not (includes r.live_streams session) && not (leb (now - get_or session now r.last_used_at) ttl)

unfoldable pub sweep_list : ℕ → ℕ → List String → SessionRegistry → List String × SessionRegistry
sweep_list now ttl [] r = ([], r)
sweep_list now ttl (session ∷ sessions) r =
    let (removed, r') = sweep_list now ttl sessions (forget session r) in
    if is_finished now ttl r session then (session ∷ removed, r') else sweep_list now ttl sessions r

unfoldable pub sweep : ℕ → ℕ → SessionRegistry → List String × SessionRegistry
unfolding sweep_list
sweep now ttl r = if ttl == 0 then ([], r) else sweep_list now ttl r.sessions r

abbrev pub bind_token : String → TokenIdentity → SessionRegistry → SessionRegistry
bind_token session identity r = record r { token_bindings = set session identity r.token_bindings }

abbrev pub token_for : Option String → SessionRegistry → Option TokenIdentity
token_for session r = find_for session r.token_bindings

abbrev pub mark_manager_session : String → SessionRegistry → SessionRegistry
mark_manager_session session r = record r { manager_sessions = add session r.manager_sessions }

abbrev pub is_manager_session : Option String → SessionRegistry → Bool
is_manager_session session r = holds session r.manager_sessions

abbrev pub mark_sse_open : String → SessionRegistry → SessionRegistry
mark_sse_open session r = record r { live_streams = add session r.live_streams }

abbrev pub mark_sse_closed : String → SessionRegistry → SessionRegistry
mark_sse_closed session r = record r { live_streams = remove session r.live_streams }

abbrev pub live_sessions : SessionRegistry → List String
live_sessions r = r.live_streams

-- `sessionIps.set`
abbrev pub note_ip : String → String → SessionRegistry → SessionRegistry
note_ip session ip r = record r { session_ips = set session ip r.session_ips }

unfoldable pub bound_to : String → Dict String → List String
bound_to peer [] = []
bound_to peer ((session, bound) ∷ d) =
    if str_eq bound peer then session ∷ bound_to peer d else bound_to peer d

abbrev pub sessions_for_peer : String → SessionRegistry → List String
sessions_for_peer peer r = bound_to peer r.peer_bindings

abbrev add_all : List String → List String → List String
add_all [] ids = ids
add_all (s ∷ ss) ids = add_all ss (add s ids)

-- The entries that stay when those of `peer` are deleted.
unfoldable pub without_peer : String → Dict String → Dict String
without_peer peer = filter (λ e. not (str_eq e.1 peer))

unfoldable pub unbind_peer_id : String → Bool → SessionRegistry → List String × SessionRegistry
unfolding without_peer bound_to
unbind_peer_id peer suppress r =
    let detached = bound_to peer r.peer_bindings in
    (
      detached,
      record r {
        peer_bindings = without_peer peer r.peer_bindings;
        suppressed_auto =
            if suppress then add_all detached r.suppressed_auto else r.suppressed_auto;
      },
    )

abbrev pub repoint : String → String → String × String → String × String
repoint old new (session, bound) = if str_eq bound old then (session, new) else (session, bound)

unfoldable pub rebind_peer_id : String → String → SessionRegistry → ℕ × SessionRegistry
unfolding bound_to
rebind_peer_id old new r = (
  length (bound_to old r.peer_bindings),
  record r { peer_bindings = map (repoint old new) r.peer_bindings },
)

abbrev pub attached_count : String → SessionRegistry → ℕ
attached_count peer r = length (filter (str_eq peer) (values r.peer_bindings))
