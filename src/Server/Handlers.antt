-- ===== src/Server/Handlers.antt =====
-- src/mcp-server.ts: `handleGet`, which opens an event stream, and `handlePost`, which takes a message.
use agent_comm_hub.Prelude.{
  ℕ, String, str_eq, if◌then◌else◌, Bool, true, false, Option, none, some, ◌&&◌, ◌||◌, not,
  or_default,
}
use agent_comm_hub.Dict.{set}
use agent_comm_hub.Json.{Json, field}
use agent_comm_hub.Auth.{TokenIdentity, TokenRole, Result, ok, err}
use agent_comm_hub.Sessions.{
  SessionRegistry, ensure_session, has_session, touch, bind_token, token_for, mark_manager_session,
  mark_sse_open, note_ip,
}
use agent_comm_hub.Server.{
  Request, RequestBody, RpcError, Response, ResponseBody, Config, McpServer,
}
use agent_comm_hub.Server.Headers.{
  presented_manager_token, message_protocol_version, rejected_version, client_ip,
}
use agent_comm_hub.Server.Origin.{cors_for}
use agent_comm_hub.Server.Dispatch.{Answer, bind_if_known, dispatch}

abbrev pub same_role : TokenRole → TokenRole → Bool
same_role TokenRole.agent TokenRole.agent = true
same_role TokenRole.manager TokenRole.manager = true
same_role _ _ = false

-- The session is bound to another identity. Any walk-in matches a walk-in's session.
abbrev pub is_mismatch : Option TokenIdentity → TokenIdentity → Bool
is_mismatch none i = false
is_mismatch (some bound) i =
    not (bound.anonymous && i.anonymous)
    && (not (str_eq bound.peer i.peer) || not (same_role bound.role i.role))

module _ {H : Type 0} (config : Config H) (req : Request) where
  abbrev pub answer : ℕ → Option String → Bool → ResponseBody → Response
  answer status session www content = record {
    status = status;
    allow_origin = cors_for config req;
    version = some (message_protocol_version req);
    session = session;
    www_authenticate = www;
    content = content;
  }

  abbrev pub rpc_status : RpcError → ℕ
  rpc_status RpcError.unauthorized = 401
  rpc_status RpcError.token_mismatch = 401
  rpc_status RpcError.session_not_found = 404
  rpc_status RpcError.body_too_large = 400
  rpc_status RpcError.bad_json = 400
  rpc_status RpcError.invalid_request = 400
  rpc_status (RpcError.unsupported_version v) = 400
  rpc_status _ = 200

  abbrev pub is_unauthorized : RpcError → Bool
  is_unauthorized RpcError.unauthorized = true
  is_unauthorized RpcError.token_mismatch = true
  is_unauthorized _ = false

  -- `unauthorized` and `jsonRpcError`
  abbrev pub refuse : Json → RpcError → Response
  refuse id e = answer (rpc_status e) none (is_unauthorized e) (ResponseBody.rpc_error id e)

  abbrev pub refuse_get : RpcError → Response
  refuse_get RpcError.unauthorized = answer 401 none false ResponseBody.no_token
  refuse_get e = refuse Json.null e

  abbrev pub check_identity : Option TokenIdentity → SessionRegistry → Result RpcError TokenIdentity
  check_identity none r = err RpcError.unauthorized
  check_identity (some i) r =
      if is_mismatch (token_for req.session_id r) i then err RpcError.token_mismatch else ok i

  abbrev pub found : {A B : Type 0} → (A → B) → Result RpcError A → Result RpcError B
  found f (ok a) = ok (f a)
  found f (err e) = err e

  -- Who the request is from, in remote mode: a session keeps the identity that it is bound to.
  unfoldable pub check_owner : SessionRegistry → Result RpcError (Option TokenIdentity)
  check_owner r = elim config.authenticate [
    | none ↦ ok none
    | some authenticate ↦ found some (check_identity (authenticate req) r)
  ]

  abbrev pub unknown_session : Option String → SessionRegistry → Bool
  unknown_session none r = false
  unknown_session (some session) r = not (has_session session r)

  -- `protocolVersionRejected`, and then that the session is known.
  abbrev pub check_session : SessionRegistry → Option RpcError
  check_session r = elim (rejected_version req.protocol_version) [
    | some v ↦ some (RpcError.unsupported_version v)
    | none ↦ if unknown_session req.session_id r then some RpcError.session_not_found else none
  ]

  abbrev pub mark_if_manager : String → SessionRegistry → SessionRegistry
  mark_if_manager session r =
      if presented_manager_token config req then mark_manager_session session r else r

  -- The header `Mcp-Session-Id` of the answer.
  abbrev pub new_session_header : Option String → String → Option String
  new_session_header none id = some id
  new_session_header (some presented) id = if str_eq presented "" then some id else none

  abbrev pub open_stream : Option TokenIdentity → McpServer H → Response × McpServer H
  open_stream identity s =
      let touched = touch req.now req.session_id s.registry in
      let (id, r) = ensure_session req.now req.fresh req.session_id touched in
      let r' = bind_if_known id identity (mark_if_manager id r) in
      (
        answer 200 (new_session_header req.session_id id) false ResponseBody.event_stream,
        record s { registry = mark_sse_open id r'; sse_streams = set id req.stream s.sse_streams },
      )

  abbrev pub get_checked :
      Option TokenIdentity → Option RpcError → McpServer H → Response × McpServer H
  get_checked identity (some e) s = (refuse Json.null e, s)
  get_checked identity none s = open_stream identity s

  abbrev pub get_owned :
      Result RpcError (Option TokenIdentity) → McpServer H → Response × McpServer H
  get_owned (err e) s = (refuse_get e, s)
  get_owned (ok identity) s = get_checked identity (check_session s.registry) s

  unfoldable pub handle_get : McpServer H → Response × McpServer H
  unfolding check_owner
  handle_get s = get_owned (check_owner s.registry) s

  abbrev pub bind_unless_anonymous :
      String → TokenIdentity → Option TokenIdentity → SessionRegistry → SessionRegistry
  bind_unless_anonymous session i (some bound) r = r
  bind_unless_anonymous session i none r = if i.anonymous then r else bind_token session i r

  -- A session that is bound to no identity is bound to that of the request.
  abbrev pub rebind_session :
      Option String → Option TokenIdentity → SessionRegistry → SessionRegistry
  rebind_session none identity r = r
  rebind_session (some session) none r = r
  rebind_session (some session) (some i) r =
      bind_unless_anonymous session i (token_for (some session) r) r

  abbrev pub rebind : Option TokenIdentity → SessionRegistry → SessionRegistry
  rebind identity r = rebind_session req.session_id identity r

  abbrev pub finish : Json → Answer × McpServer H → Response × McpServer H
  finish id (err e, s) = (refuse id e, s)
  finish id (ok (result, session), s) =
      (answer 200 session false (ResponseBody.rpc_result id result), s)

  abbrev pub note_session : Option String → SessionRegistry → SessionRegistry
  note_session none r = r
  note_session (some session) r = mark_if_manager session (note_ip session (client_ip req) r)

  -- A message without an id is a notification.
  abbrev pub answer_message :
      Json → Option Json → Json → Option TokenIdentity → McpServer H → Response × McpServer H
  answer_message method params Json.null identity s = (
    record {
      status = 202;
      allow_origin = cors_for config req;
      version = none;
      session = none;
      www_authenticate = false;
      content = ResponseBody.empty;
    },
    s,
  )
  answer_message method params id identity s =
      finish id (dispatch config req.now req.fresh method params req.session_id identity s)

  abbrev pub take_message :
      Json → Option Json → Option TokenIdentity → McpServer H → Response × McpServer H
  take_message message none identity s =
      (refuse (or_default (field "id" message) Json.null) RpcError.invalid_request, s)
  take_message message (some method) identity s =
      answer_message method (field "params" message) (or_default (field "id" message) Json.null)
        identity (record s { registry = note_session req.session_id s.registry })

  abbrev pub take_body : RequestBody → Option TokenIdentity → McpServer H → Response × McpServer H
  take_body RequestBody.too_large identity s = (refuse Json.null RpcError.body_too_large, s)
  take_body RequestBody.invalid_json identity s = (refuse Json.null RpcError.bad_json, s)
  take_body (RequestBody.parsed message) identity s =
      take_message message (field "method" message) identity s

  abbrev pub post_checked :
      Option TokenIdentity → Option RpcError → McpServer H → Response × McpServer H
  post_checked identity (some e) s = (refuse Json.null e, s)
  post_checked identity none s =
      take_body req.body identity (record s { registry = touch req.now req.session_id s.registry })

  abbrev pub post_owned :
      Result RpcError (Option TokenIdentity) → McpServer H → Response × McpServer H
  post_owned (err e) s = (refuse Json.null e, s)
  post_owned (ok identity) s =
      let s' = record s { registry = rebind identity s.registry } in
      post_checked identity (check_session s'.registry) s'

  unfoldable pub handle_post : McpServer H → Response × McpServer H
  unfolding check_owner
  handle_post s = post_owned (check_owner s.registry) s
