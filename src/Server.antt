-- ===== src/Server.antt =====
-- src/mcp-server.ts, `McpStreamableHttpServer`: the requests, the answers and the state of the MCP
-- server. The hub behind it is any type: the tools and `onInitialize` are functions on the registry
-- and the hub, which are run to their end, so a tool that waits is not interleaved with other
-- requests. The parsing of a URL, of a path and of JSON is not the repository's: a request holds its
-- path and the body that `JSON.parse` returns, and the host of an `Origin` or `Host` header is found
-- by a function of the configuration. CORS answers are the allowed origin alone.
pub mod Headers
pub mod Origin
pub mod Dispatch
pub mod Handlers
pub mod Streams
pub mod Routes
pub mod Bound
pub mod Invariant
pub mod Ownership
pub mod Sound
pub mod Reach
pub mod Refusals
pub mod Identity
mod Tests
use agent_comm_hub.Prelude.{ℕ, String, Bool, Option, none, List}
use agent_comm_hub.Dict.{Dict}
use agent_comm_hub.Json.{Json, Fields}
use agent_comm_hub.Auth.{TokenIdentity, Result}
use agent_comm_hub.Sessions.{SessionRegistry}

-- What `readBody` and `JSON.parse` make of the body.
pub data RequestBody : Type 0 where
  too_large invalid_json : RequestBody
  parsed : Json → RequestBody

-- A header that is absent is `none`. `fresh` is the id that `randomUUID` would make, and `stream` names
-- the answer as an event stream.
pub record Request : Type 0 where
  pub method : String
  pub path : String
  pub session_id : Option String
  pub authorization : Option String
  pub protocol_version : Option String
  pub origin : Option String
  pub host : Option String
  pub forwarded_for : Option String
  pub remote_address : Option String
  pub body : RequestBody
  pub now : ℕ
  pub fresh : String
  pub stream : ℕ

-- Why a request is refused, with the text that the message quotes.
pub data RpcError : Type 0 where
  unauthorized token_mismatch session_not_found body_too_large bad_json invalid_request no_tool_name
        bad_arguments :
      RpcError
  unsupported_version unknown_tool : String → RpcError
  method_not_found : Json → RpcError

pub data ResponseBody : Type 0 where
  empty page alive event_stream not_found forbidden_origin no_token : ResponseBody
  rpc_error : Json → RpcError → ResponseBody
  rpc_result : Json → Json → ResponseBody

pub record Response : Type 0 where
  pub status : ℕ
  pub allow_origin : Option String
  pub version : Option String
  pub session : Option String
  pub www_authenticate : Bool
  pub content : ResponseBody

pub data AllowedOrigins : Type 0 where
  every : AllowedOrigins
  listed : List String → AllowedOrigins

pub record McpTool (H : Type 0) : Type 0 where
  pub name : String
  pub description : String
  pub input_schema : Json
  pub handler :
      Fields → Option String → SessionRegistry × H → Result String Json × SessionRegistry × H

pub record Config (H : Type 0) : Type 0 where
  pub path : String
  pub server_info : Json
  pub instructions : String
  pub tools : List (McpTool H)
  pub on_initialize :
      String → Option String → Option String → SessionRegistry × H → SessionRegistry × H
  pub authenticate : Option (Request → Option TokenIdentity)
  pub origin_policy : Option AllowedOrigins
  pub manager_token : Option String
  pub session_ttl_ms : ℕ
  pub host_of_origin : String → Option String
  pub host_of_header : String → Option String

-- `sse_streams` maps a session to the answer that is its stream.
pub record McpServer (H : Type 0) : Type 0 where
  pub registry : SessionRegistry
  pub sse_streams : Dict ℕ
  pub hub : H
