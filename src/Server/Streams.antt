-- ===== src/Server/Streams.antt =====
-- src/mcp-server.ts: `notify`, `notifyAll`, the end of a stream, and the timer that sweeps sessions.
use agent_comm_hub.Prelude.{
  ℕ, String, ◌==◌, if◌then◌else◌, Bool, false, Option, none, some, List, [], ◌∷◌,
}
use agent_comm_hub.Dict.{get, has, delete, keys}
use agent_comm_hub.Sessions.{sweep, mark_sse_closed}
use agent_comm_hub.Server.{McpServer, Config}

abbrev pub is_stream : ℕ → Option ℕ → Bool
is_stream stream none = false
is_stream stream (some other) = other == stream

module _ {H : Type 0} where
  -- A stream that cannot be written to is dropped.
  abbrev pub drop_stream : String → McpServer H → McpServer H
  drop_stream session s = record s {
    registry = mark_sse_closed session s.registry;
    sse_streams = delete session s.sse_streams;
  }

  abbrev pub write_to : (ℕ → Bool) → String → Option ℕ → McpServer H → McpServer H
  write_to writable session none s = s
  write_to writable session (some stream) s = if writable stream then s else drop_stream session s

  unfoldable pub notify : (ℕ → Bool) → List String → McpServer H → McpServer H
  notify writable [] s = s
  notify writable (session ∷ sessions) s =
      notify writable sessions (write_to writable session (get session s.sse_streams) s)

  unfoldable pub notify_all : (ℕ → Bool) → McpServer H → McpServer H
  unfolding notify
  notify_all writable s = notify writable (keys s.sse_streams) s

  -- `req.on('close')`: what a later stream of the session has replaced stays.
  unfoldable pub close_stream : String → ℕ → McpServer H → McpServer H
  close_stream session stream s =
      let streams =
        (if is_stream stream (get session s.sse_streams)
          then delete session s.sse_streams
          else s.sse_streams) in
      record s {
        registry = if has session streams then s.registry else mark_sse_closed session s.registry;
        sse_streams = streams;
      }

  unfoldable pub sweep_sessions : Config H → ℕ → McpServer H → McpServer H
  sweep_sessions config now s = record s {
    registry = (sweep now config.session_ttl_ms s.registry).1;
  }
