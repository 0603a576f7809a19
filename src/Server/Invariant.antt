-- ===== src/Server/Invariant.antt =====
-- src/mcp-server.ts: what the steps of a request keep, the request keeps.
use agent_comm_hub.Prelude.{
  All, List, [], ◌∷◌, if_holds, ℕ, String, str_eq, Option, none, some, ◌&&◌, find,
}
use agent_comm_hub.Dict.{Dict}
use agent_comm_hub.Json.{Json, Fields}
use agent_comm_hub.Auth.{TokenIdentity, Result, ok, err}
use agent_comm_hub.Sessions.{SessionRegistry, ensure_session, touch}
use agent_comm_hub.Sessions.Uses.{Uses}
use agent_comm_hub.Server.{Request, RequestBody, RpcError, Response, McpTool, Config, McpServer}
use agent_comm_hub.Server.Origin.{origin_allowed}
use agent_comm_hub.Server.Dispatch.{
  Answer, bind_if_known, note_if_named, dispatch, call_tool, call_found, call_named, initialize,
}
use agent_comm_hub.Server.Handlers.{
  check_owner, open_stream, get_checked, get_owned, handle_get, rebind, finish, note_session,
  answer_message, take_message, take_body, post_checked, post_owned, handle_post,
}
use agent_comm_hub.Server.Routes.{on_request}

-- A predicate on the streams and the registry that every step of a request keeps, where the identity
-- that the request is answered for is entitled to it.
pub record IsKept {H : Type 0} (config : Config H) (req : Request)
    (P : Dict ℕ → SessionRegistry → Type 0) (Entitled : Option TokenIdentity → Type 0)
    : Type 0 where
  pub touch_keeps :
      (streams : Dict ℕ) (r : SessionRegistry) (session : Option String)
      → P streams r
      → P streams (touch req.now session r)
  pub note_keeps :
      (streams : Dict ℕ) (r : SessionRegistry) (session : Option String)
      → P streams r
      → P streams (note_session config req session r)
  pub rebind_keeps :
      (streams : Dict ℕ) (identity : Option TokenIdentity) (r : SessionRegistry)
      → Entitled identity
      → P streams r
      → P streams (rebind config req identity r)
  pub open_keeps :
      (identity : Option TokenIdentity) (s : McpServer H)
      → Entitled identity
      → P s.sse_streams s.registry
      → P
          (open_stream config req identity s).1.sse_streams
          (open_stream config req identity s).1.registry
  pub start_keeps :
      (streams : Dict ℕ) (identity : Option TokenIdentity) (name version : Option String)
      (r : SessionRegistry)
      → Entitled identity
      → P streams r
      → let (id, r') = ensure_session req.now req.fresh req.session_id r in
        P streams (bind_if_known id identity (note_if_named id name version r'))
  pub uses_keeps :
      (streams : Dict ℕ) (r r' : SessionRegistry) → Uses r r' → P streams r → P streams r'

-- `on_initialize` and the tools change the registry only by the operations that `Uses` lists.
abbrev pub StartUses : {H : Type 0} → Config H → Type 0
StartUses {H = H} config =
    (session : String) (name version : Option String) (r : SessionRegistry) (hub : H)
    → Uses r (config.on_initialize session name version (r, hub)).0

abbrev pub ToolUses : {H : Type 0} → McpTool H → Type 0
ToolUses {H = H} tool =
    (args : Fields) (session : Option String) (r : SessionRegistry) (hub : H)
    → Uses r (tool.handler args session (r, hub)).1

abbrev pub ToolsUse : {H : Type 0} → Config H → Type 0
ToolsUse config = All ToolUses config.tools

module _ {H : Type 0} (config : Config H) (req : Request) {P : Dict ℕ → SessionRegistry → Type 0}
    {Entitled : Option TokenIdentity → Type 0} (steps : IsKept config req P Entitled) where
  abbrev pub Kept : McpServer H → Type 0
  Kept s = P s.sse_streams s.registry

  abbrev pub EntitledIf : Result RpcError (Option TokenIdentity) → Type 0
  EntitledIf (ok identity) = Entitled identity
  EntitledIf (err e) = Unit

  get_checked-Keeps :
      (identity : Option TokenIdentity) (e : Option RpcError) (s : McpServer H)
      → Entitled identity
      → Kept s
      → Kept (get_checked config req identity e s).1
  get_checked-Keeps identity none s own h = steps.open_keeps identity s own h
  get_checked-Keeps identity (some e) s own h = h

  get_owned-Keeps :
      (owner : Result RpcError (Option TokenIdentity)) (s : McpServer H)
      → EntitledIf owner
      → Kept s
      → Kept (get_owned config req owner s).1
  get_owned-Keeps (err e) s own h = h
  get_owned-Keeps (ok identity) s own h = get_checked-Keeps identity _ s own h

  module _ (start_uses : StartUses config) (tool_uses : ToolsUse config) where
    abbrev KeptAfter : Answer × McpServer H → Type 0
    KeptAfter (answer, s) = Kept s

    call_tool-Keeps :
        (tool : McpTool H) (args : Option Fields) (s : McpServer H)
        → ToolUses tool
        → Kept s
        → Kept (call_tool config req.now req.fresh tool args req.session_id s).1
    call_tool-Keeps tool none s u h = h
    call_tool-Keeps tool (some args) s u h =
        steps.uses_keeps s.sse_streams s.registry _ (u args req.session_id s.registry s.hub) h

    abbrev UsesIf : Option (McpTool H) → Type 0
    UsesIf none = Unit
    UsesIf (some tool) = ToolUses tool

    find-UsesIf :
        (name : String) (tools : List (McpTool H))
        → All ToolUses tools
        → UsesIf (find (λ t. str_eq t.name name) tools)
    find-UsesIf name [] u = tt
    find-UsesIf name (t ∷ ts) u = if_holds UsesIf (str_eq t.name name) u.0 (find-UsesIf name ts u.1)

    call_found-Keeps :
        (name : String) (tool : Option (McpTool H)) (params : Option Json) (s : McpServer H)
        → UsesIf tool
        → Kept s
        → Kept (call_found config req.now req.fresh name tool params req.session_id s).1
    call_found-Keeps name none params s u h = h
    call_found-Keeps name (some tool) params s u h = call_tool-Keeps tool _ s u h

    call_named-Keeps :
        (name : Option String) (params : Option Json) (s : McpServer H)
        → Kept s
        → Kept (call_named config req.now req.fresh name params req.session_id s).1
    call_named-Keeps none params s h = h
    call_named-Keeps (some name) params s h =
        call_found-Keeps name _ params s (find-UsesIf name config.tools tool_uses) h

    initialize-Keeps :
        (params : Option Json) (identity : Option TokenIdentity) (s : McpServer H)
        → Entitled identity
        → Kept s
        → Kept (initialize config req.now req.fresh params req.session_id identity s).1
    initialize-Keeps params identity s own h =
        steps.uses_keeps s.sse_streams _ _ (start_uses _ _ _ _ s.hub)
          (steps.start_keeps s.sse_streams identity _ _ s.registry own h)

    dispatch-Keeps :
        (method : Json) (params : Option Json) (identity : Option TokenIdentity) (s : McpServer H)
        → Entitled identity
        → Kept s
        → Kept (dispatch config req.now req.fresh method params req.session_id identity s).1
    unfolding dispatch
    dispatch-Keeps (Json.str method) params identity s own h =
        if_holds KeptAfter (str_eq method "initialize") (initialize-Keeps params identity s own h) (
          if_holds KeptAfter (str_eq method "tools/list") h (
            if_holds KeptAfter (str_eq method "tools/call") (call_named-Keeps _ params s h)
              (if_holds KeptAfter (str_eq method "ping") h h)))
    dispatch-Keeps Json.null params identity s own h = h
    dispatch-Keeps (Json.bool b) params identity s own h = h
    dispatch-Keeps (Json.num n) params identity s own h = h
    dispatch-Keeps (Json.arr is) params identity s own h = h
    dispatch-Keeps (Json.obj fs) params identity s own h = h

    finish-Keeps :
        (id : Json) (out : Answer × McpServer H) → Kept out.1 → Kept (finish config req id out).1
    finish-Keeps id (ok a, s) h = h
    finish-Keeps id (err e, s) h = h

    answer_message-Keeps :
        (method : Json) (params : Option Json) (id : Json) (identity : Option TokenIdentity)
        (s : McpServer H)
        → Entitled identity
        → Kept s
        → Kept (answer_message config req method params id identity s).1
    answer_message-Keeps method params Json.null identity s own h = h
    answer_message-Keeps method params (Json.bool b) identity s own h =
        finish-Keeps (Json.bool b) _ (dispatch-Keeps method params identity s own h)
    answer_message-Keeps method params (Json.num n) identity s own h =
        finish-Keeps (Json.num n) _ (dispatch-Keeps method params identity s own h)
    answer_message-Keeps method params (Json.str t) identity s own h =
        finish-Keeps (Json.str t) _ (dispatch-Keeps method params identity s own h)
    answer_message-Keeps method params (Json.arr is) identity s own h =
        finish-Keeps (Json.arr is) _ (dispatch-Keeps method params identity s own h)
    answer_message-Keeps method params (Json.obj fs) identity s own h =
        finish-Keeps (Json.obj fs) _ (dispatch-Keeps method params identity s own h)

    take_message-Keeps :
        (message : Json) (method : Option Json) (identity : Option TokenIdentity) (s : McpServer H)
        → Entitled identity
        → Kept s
        → Kept (take_message config req message method identity s).1
    take_message-Keeps message none identity s own h = h
    take_message-Keeps message (some method) identity s own h =
        answer_message-Keeps method _ _ identity _ own
          (steps.note_keeps s.sse_streams s.registry req.session_id h)

    take_body-Keeps :
        (body : RequestBody) (identity : Option TokenIdentity) (s : McpServer H)
        → Entitled identity
        → Kept s
        → Kept (take_body config req body identity s).1
    take_body-Keeps RequestBody.too_large identity s own h = h
    take_body-Keeps RequestBody.invalid_json identity s own h = h
    take_body-Keeps (RequestBody.parsed message) identity s own h =
        take_message-Keeps message _ identity s own h

    post_checked-Keeps :
        (identity : Option TokenIdentity) (e : Option RpcError) (s : McpServer H)
        → Entitled identity
        → Kept s
        → Kept (post_checked config req identity e s).1
    post_checked-Keeps identity (some e) s own h = h
    post_checked-Keeps identity none s own h =
        take_body-Keeps req.body identity _ own
          (steps.touch_keeps s.sse_streams s.registry req.session_id h)

    post_owned-Keeps :
        (owner : Result RpcError (Option TokenIdentity)) (s : McpServer H)
        → EntitledIf owner
        → Kept s
        → Kept (post_owned config req owner s).1
    post_owned-Keeps (err e) s own h = h
    post_owned-Keeps (ok identity) s own h =
        post_checked-Keeps identity _ _ own
          (steps.rebind_keeps s.sse_streams identity s.registry own h)

    pub on_request-Keeps :
        (s : McpServer H)
        → EntitledIf (check_owner config req s.registry)
        → Kept s
        → Kept (on_request config req s).1
    unfolding on_request handle_get handle_post
    on_request-Keeps s own h =
        if_holds Stays (origin_allowed config req)
          (if_holds Stays (str_eq req.path "/admin" && str_eq req.method "GET") h (
            if_holds Stays (str_eq req.path "/healthz") h (
              if_holds Stays (str_eq req.path config.path)
                (if_holds Stays (str_eq req.method "GET") (get_owned-Keeps _ s own h) (
                  if_holds Stays (str_eq req.method "POST") (post_owned-Keeps _ s own h)
                    (if_holds Stays (str_eq req.method "OPTIONS") h h)))
                h)))
          h
      where
        Stays : Response × McpServer H → Type 0
        Stays (response, s') = Kept s'
