-- ===== src/Server/Routes.antt =====
-- src/mcp-server.ts: the `request` listener of `attach`. The administration API is not modelled.
use agent_comm_hub.Prelude.{ℕ, String, str_eq, if◌then◌else◌, false, Option, none, some, ◌&&◌}
use agent_comm_hub.Server.{Request, Response, ResponseBody, Config, McpServer}
use agent_comm_hub.Server.Headers.{message_protocol_version}
use agent_comm_hub.Server.Origin.{cors_for, origin_allowed}
use agent_comm_hub.Server.Handlers.{handle_get, handle_post}

module _ {H : Type 0} (config : Config H) (req : Request) where
  abbrev plain : ℕ → Option String → Option String → ResponseBody → Response
  plain status allow_origin version content = record {
    status = status;
    allow_origin = allow_origin;
    version = version;
    session = none;
    www_authenticate = false;
    content = content;
  }

  abbrev pub on_mcp_path : McpServer H → Response × McpServer H
  on_mcp_path s =
      if str_eq req.method "GET"
      then handle_get config req s
      else (if str_eq req.method "POST"
          then handle_post config req s
          else (if str_eq req.method "OPTIONS"
              then (plain 204 (cors_for config req) none ResponseBody.empty, s)
              else (
                plain 405 (cors_for config req) (some (message_protocol_version req))
                    ResponseBody.empty,
                s,
              )))

  abbrev pub allowed_request : McpServer H → Response × McpServer H
  allowed_request s =
      if str_eq req.path "/admin" && str_eq req.method "GET"
      then (plain 200 none none ResponseBody.page, s)
      else (if str_eq req.path "/healthz"
          then (plain 200 (cors_for config req) none ResponseBody.alive, s)
          else (if str_eq req.path config.path
              then on_mcp_path s
              else (plain 404 none none ResponseBody.not_found, s)))

  unfoldable pub on_request : McpServer H → Response × McpServer H
  unfolding handle_get handle_post
  on_request s = if origin_allowed config req then allowed_request s else (
    plain 403 (cors_for config req) (some (message_protocol_version req))
        ResponseBody.forbidden_origin,
    s,
  )
