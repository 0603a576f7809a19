-- ===== src/Server/Reach.antt =====
-- src/mcp-server.ts: the states that the server reaches, by requests, ends of streams, pushes, sweeps
-- and calls of the hub.
use agent_comm_hub.Prelude.{ℕ, refl, String, Bool, Option, List, [], arith}
use agent_comm_hub.Dict.{get, has}
use agent_comm_hub.Auth.{TokenIdentity, Result, ok, err}
use agent_comm_hub.Sessions.{SessionRegistry, empty_registry}
use agent_comm_hub.Sessions.Uses.{Uses, IsSound, Uses-IsSound}
use agent_comm_hub.Server.{Request, Config, McpServer, RpcError}
use agent_comm_hub.Server.Streams.{notify, close_stream, sweep_sessions}
use agent_comm_hub.Server.Routes.{on_request}
use agent_comm_hub.Server.Invariant.{IsKept, StartUses, ToolsUse, EntitledIf, on_request-Keeps}
use agent_comm_hub.Server.Sound.{
  Sound, touch-IsSound, ensure-IsSound, bind_if_known-IsSound, note_if_named-IsSound,
  rebind-IsSound, note-IsSound, sweep-IsSound, open_stream-Sound, notify-Sound, close-Sound,
}

abbrev pub new_server : {H : Type 0} → H → McpServer H
new_server hub = record { registry = empty_registry; sse_streams = []; hub = hub }

module _ {H : Type 0} (config : Config H) where
  new-Sound : (hub : H) → Sound (new_server hub)
  unfolding has get
  new-Sound hub = record {
    live = λ j. refl;
    live_known = λ j l. ground (arith, l);
    bound_known = λ j b. ground (arith, b);
  }

  -- One event. `hub_calls` is what the hub does outside a request, when it drops an idle peer.
  pub data Step : McpServer H → McpServer H → Type 0 where
    request : (req : Request) (s : McpServer H) → Step s (on_request config req s).1
    stream_ends :
        (session : String) (stream : ℕ) (s : McpServer H) → Step s (close_stream session stream s)
    push :
        (writable : ℕ → Bool) (sessions : List String) (s : McpServer H)
        → Step s (notify writable sessions s)
    sweeps : (now : ℕ) (s : McpServer H) → Step s (sweep_sessions config now s)
    hub_calls :
        (r : SessionRegistry) (hub : H) (s : McpServer H)
        → Uses s.registry r
        → Step s (record s { registry = r; hub = hub })

  pub data Reach (s : McpServer H) : McpServer H → Type 0 where
    here : Reach s s
    next : {t u : McpServer H} → Reach s t → Step t u → Reach s u

  steps : (req : Request) → IsKept config req IsSound (λ identity. Unit)
  steps req = record {
    touch_keeps = λ streams r session h. touch-IsSound streams req.now session r h;
    note_keeps = λ streams r session h. note-IsSound config req streams session r h;
    rebind_keeps =
        λ streams identity r own h. rebind-IsSound config req streams req.session_id identity r h;
    open_keeps = λ identity s own h. open_stream-Sound config req identity s h;
    start_keeps = λ streams identity name version r own h.
        bind_if_known-IsSound streams _ identity _ (
          note_if_named-IsSound streams _ name version _
            (ensure-IsSound streams req.now req.fresh req.session_id r h));
    uses_keeps = λ streams r r' u h. Uses-IsSound streams u h;
  }

  entitled :
      (req : Request) (owner : Result RpcError (Option TokenIdentity))
      → EntitledIf config req (steps req) owner
  entitled req (ok identity) = tt
  entitled req (err e) = tt

  module _ (start_uses : StartUses config) (tool_uses : ToolsUse config) where
    Step-Sound : {s t : McpServer H} → Step s t → Sound s → Sound t
    unfolding sweep_sessions
    Step-Sound (request req s) h =
        on_request-Keeps config req (steps req) start_uses tool_uses s (entitled req _) h
    Step-Sound (stream_ends session stream s) h = close-Sound session stream s h
    Step-Sound (push writable sessions s) h = notify-Sound writable sessions s h
    Step-Sound (sweeps now s) h = sweep-IsSound s.sse_streams now config.session_ttl_ms s.registry h
    Step-Sound (hub_calls r hub s u) h = Uses-IsSound s.sse_streams u h

    Reach-keeps : {s t : McpServer H} → Sound s → Reach s t → Sound t
    Reach-keeps h here = h
    Reach-keeps h (next r step) = Step-Sound step (Reach-keeps h r)

    -- In every state that a new server reaches, whatever the requests, ends of streams, pushes, sweeps and
    -- calls of the hub, a session counts as live exactly when it has a stream, and every session that has
    -- a stream or that is bound to a peer is known, where `on_initialize` and the tools change the
    -- registry only by the operations that `Uses` lists.
    pub Reach-IsSound :
        (hub : H) {s : McpServer H} → Reach (new_server hub) s → IsSound s.sse_streams s.registry
    Reach-IsSound hub r = Reach-keeps (new-Sound hub) r
