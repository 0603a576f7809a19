-- ===== src/Server/Dispatch.antt =====
-- src/mcp-server.ts: `dispatch`, which answers a message that has an id.
use agent_comm_hub.Prelude.{
  ℕ, String, str_eq, if◌then◌else◌, Bool, true, false, Option, none, some, List, [], ◌∷◌, map, find,
}
use agent_comm_hub.Json.{Json, Fields, field, as_string, to_items}
use agent_comm_hub.Auth.{TokenIdentity, Result, ok, err}
use agent_comm_hub.Sessions.{SessionRegistry, ensure_session, note_client, bind_token}
use agent_comm_hub.Server.{RpcError, McpTool, Config, McpServer}
use agent_comm_hub.Server.Headers.{speak}

-- `typeof value === 'string' && value !== '' ? value : undefined`
abbrev nonempty : Option String → Option String
nonempty none = none
nonempty (some s) = if str_eq s "" then none else some s

-- `value?.k`
abbrev pub field_of : String → Option Json → Option Json
field_of k none = none
field_of k (some j) = field k j

abbrev text_field : String → Option Json → Option String
text_field k j = nonempty (as_string (field_of k j))

-- The result, and the session that the header `Mcp-Session-Id` names.
abbrev pub Answer : Type 0
Answer = Result RpcError (Json × Option String)

abbrev pub note_if_named :
    String → Option String → Option String → SessionRegistry → SessionRegistry
note_if_named session none version r = r
note_if_named session (some name) version r = note_client session name version r

abbrev pub bind_if_known : String → Option TokenIdentity → SessionRegistry → SessionRegistry
bind_if_known session none r = r
bind_if_known session (some identity) r = bind_token session identity r

abbrev object : List (String × Json) → Json
object fields = Json.obj (fields_of fields)
  where
    fields_of : List (String × Json) → Fields
    fields_of [] = Fields.end
    fields_of ((k, j) ∷ fs) = Fields.entry k j (fields_of fs)

abbrev tool_json : {H : Type 0} → McpTool H → Json
tool_json t = object (
    ("name", Json.str t.name)
    ∷ ("description", Json.str t.description)
    ∷ ("inputSchema", t.input_schema)
    ∷ [])

-- A text is the `JSON.stringify` of the value that it is made of.
abbrev content_json : Json → Bool → Json
content_json text is_error = object (
    ("content", Json.arr (to_items (object (("type", Json.str "text") ∷ ("text", text) ∷ []) ∷ [])))
    ∷ ("isError", Json.bool is_error)
    ∷ [])

-- What a handler returns, and what it throws.
abbrev tool_result : Result String Json → Json
tool_result (ok value) = content_json value false
tool_result (err message) = content_json (object (("error", Json.str message) ∷ [])) true

abbrev arguments_of : Option Json → Option Fields
arguments_of none = some Fields.end
arguments_of (some Json.null) = some Fields.end
arguments_of (some (Json.obj fields)) = some fields
arguments_of (some _) = none

module _ {H : Type 0} (config : Config H) (now : ℕ) (fresh : String) where
  abbrev initialize_result : Option Json → Json
  initialize_result params = object (
      ("protocolVersion", Json.str (speak (as_string (field_of "protocolVersion" params))))
      ∷ ("capabilities", object (("tools", object (("listChanged", Json.bool false) ∷ [])) ∷ []))
      ∷ ("serverInfo", config.server_info)
      ∷ ("instructions", Json.str config.instructions)
      ∷ [])

  abbrev pub initialize :
      Option Json → Option String → Option TokenIdentity → McpServer H → Answer × McpServer H
  initialize params session identity s =
      let client = field_of "clientInfo" params in
      let name = text_field "name" client in
      let version = text_field "version" client in
      let (id, r) = ensure_session now fresh session s.registry in
      let bound = bind_if_known id identity (note_if_named id name version r) in
      let (r', hub) = config.on_initialize id name version (bound, s.hub) in
      (ok (initialize_result params, some id), record s { registry = r'; hub = hub })

  abbrev pub call_tool :
      McpTool H → Option Fields → Option String → McpServer H → Answer × McpServer H
  call_tool tool none session s = (err RpcError.bad_arguments, s)
  call_tool tool (some args) session s =
      let (value, r, hub) = tool.handler args session (s.registry, s.hub) in
      (ok (tool_result value, none), record s { registry = r; hub = hub })

  abbrev pub call_found :
      String → Option (McpTool H) → Option Json → Option String → McpServer H → Answer × McpServer H
  call_found name none params session s = (err (RpcError.unknown_tool name), s)
  call_found name (some tool) params session s =
      call_tool tool (arguments_of (field_of "arguments" params)) session s

  abbrev pub call_named :
      Option String → Option Json → Option String → McpServer H → Answer × McpServer H
  call_named none params session s = (err RpcError.no_tool_name, s)
  call_named (some name) params session s =
      call_found name (find (λ t. str_eq t.name name) config.tools) params session s

  unfoldable pub dispatch :
      Json → Option Json → Option String → Option TokenIdentity → McpServer H → Answer × McpServer H
  dispatch (Json.str method) params session identity s =
      if str_eq method "initialize"
      then initialize params session identity s
      else (if str_eq method "tools/list"
          then (
            ok (object (("tools", Json.arr (to_items (map tool_json config.tools))) ∷ []), none),
            s,
          )
          else (if str_eq method "tools/call"
              then call_named (as_string (field_of "name" params)) params session s
              else (if str_eq method "ping"
                  then (ok (object [], none), s)
                  else (err (RpcError.method_not_found (Json.str method)), s))))
  dispatch Json.null params session identity s = (err (RpcError.method_not_found (Json.str "")), s)
  dispatch method params session identity s = (err (RpcError.method_not_found method), s)
