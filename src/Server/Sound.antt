-- ===== src/Server/Sound.antt =====
-- src/mcp-server.ts: what the steps of the server do to its streams and to the sessions that are known.
use agent_comm_hub.Prelude.{
  ℕ, ◌-◌, leb, ◌≡◌, refl, sym, ◌∙◌, ap, String, ◌==◌, if◌then◌else◌, if_holds, Bool, true, false,
  Bool-cases, inl, inr, Option, none, some, List, [], ◌∷◌, includes, includes-add, includes-remove,
  ◌&&◌, not, or_default, arith, eq_iff, eq_refl,
}
use agent_comm_hub.Dict.{Dict, get, get_or, set, delete, has}
use agent_comm_hub.Dict.Laws.{has-set, has-delete}
use agent_comm_hub.Auth.{TokenIdentity}
use agent_comm_hub.Sessions.{
  SessionRegistry, ensure_session, touch, mark_sse_open, is_finished, sweep,
}
use agent_comm_hub.Sessions.Uses.{IsSound}
use agent_comm_hub.Sessions.Sweep.{sweep-Forgets}
use agent_comm_hub.Server.{Request, Config, McpServer}
use agent_comm_hub.Server.Headers.{presented_manager_token}
use agent_comm_hub.Server.Dispatch.{bind_if_known, note_if_named}
use agent_comm_hub.Server.Handlers.{
  mark_if_manager, open_stream, rebind_session, bind_unless_anonymous, note_session,
}
use agent_comm_hub.Server.Streams.{drop_stream, write_to, notify, close_stream, is_stream}

-- Only these three fields matter.
same-IsSound :
    (streams : Dict ℕ) (r r' : SessionRegistry)
    → r.live_streams ≡ r'.live_streams
    → r.sessions ≡ r'.sessions
    → r.peer_bindings ≡ r'.peer_bindings
    → IsSound streams r
    → IsSound streams r'
same-IsSound streams r r' l s b h = record {
  live = λ j. ap (λ ids. includes ids j) (sym l) ∙ h.live j;
  live_known =
      λ j k. ap (λ ids. includes ids j) (sym s) ∙ h.live_known j (ap (λ ids. includes ids j) l ∙ k);
  bound_known =
      λ j k. ap (λ ids. includes ids j) (sym s) ∙ h.bound_known j (ap (λ d. has j d) b ∙ k);
}

pub touch-IsSound :
    (streams : Dict ℕ) (now : ℕ) (session : Option String) (r : SessionRegistry)
    → IsSound streams r
    → IsSound streams (touch now session r)
touch-IsSound streams now none r h = h
touch-IsSound streams now (some s) r h =
    if_holds (IsSound streams) (includes r.sessions s) (same-IsSound streams r _ refl refl refl h) h

pub ensure-IsSound :
    (streams : Dict ℕ) (now : ℕ) (fresh : String) (session : Option String) (r : SessionRegistry)
    → IsSound streams r
    → IsSound streams (ensure_session now fresh session r).1
ensure-IsSound streams now fresh session r h = record {
  live = h.live;
  live_known =
      λ j l. ground (arith, includes-add (or_default session fresh) r.sessions j, h.live_known j l);
  bound_known = λ j b.
      ground (arith, includes-add (or_default session fresh) r.sessions j, h.bound_known j b);
}

pub bind_if_known-IsSound :
    (streams : Dict ℕ) (session : String) (identity : Option TokenIdentity) (r : SessionRegistry)
    → IsSound streams r
    → IsSound streams (bind_if_known session identity r)
bind_if_known-IsSound streams session none r h = h
bind_if_known-IsSound streams session (some i) r h = same-IsSound streams r _ refl refl refl h

pub note_if_named-IsSound :
    (streams : Dict ℕ) (session : String) (name version : Option String) (r : SessionRegistry)
    → IsSound streams r
    → IsSound streams (note_if_named session name version r)
note_if_named-IsSound streams session none version r h = h
note_if_named-IsSound streams session (some n) version r h =
    same-IsSound streams r _ refl refl refl h

-- A stream is opened for a session that is known.
open-IsSound :
    (streams : Dict ℕ) (session : String) (stream : ℕ) (r : SessionRegistry)
    → includes r.sessions session ≡ true
    → IsSound streams r
    → IsSound (set session stream streams) (mark_sse_open session r)
open-IsSound streams session stream r known h = record {
  live = λ j.
      ground
        (arith, includes-add session r.live_streams j, has-set j session stream streams, h.live j);
  live_known = λ j l.
      ground
        (arith, l, known, includes-add session r.live_streams j, eq_iff session j, h.live_known j);
  bound_known = h.bound_known;
}

-- What a sweep leaves, by whether the session is gone.
gone-bound :
    (gone : Bool) (r r' : SessionRegistry) (j : String)
    → get j r'.peer_bindings ≡ (if gone then none else get j r.peer_bindings)
    → has j r'.peer_bindings ≡ true
    → (gone ≡ false) × (has j r.peer_bindings ≡ true)
unfolding has
gone-bound true r r' j e h = absurd (ground (arith, e, h))
gone-bound false r r' j e h = (refl, ground (arith, e, h))

stays-known :
    (gone known known' : Bool)
    → gone ≡ false
    → known ≡ true
    → known' ≡ (not gone && known)
    → known' ≡ true
stays-known gone known known' g k e = ground (arith, g, k, e)

live-not-finished :
    (now ttl : ℕ) (r : SessionRegistry) (j : String)
    → includes r.live_streams j ≡ true
    → (not (ttl == 0) && includes r.sessions j && is_finished now ttl r j) ≡ false
live-not-finished now ttl r j l =
    and_false (not (ttl == 0)) (includes r.sessions j) _
      (ap (λ b. not b && not (leb (now - get_or j now r.last_used_at) ttl)) l)
  where
    and_false : (a b c : Bool) → c ≡ false → (a && b && c) ≡ false
    and_false a b c e = ground (arith, e)

pub sweep-IsSound :
    (streams : Dict ℕ) (now ttl : ℕ) (r : SessionRegistry)
    → IsSound streams r
    → IsSound streams (sweep now ttl r).1
sweep-IsSound streams now ttl r h = record {
  live = λ j. same_live j ∙ h.live j;
  live_known = λ j l.
      let l' : includes r.live_streams j ≡ true = sym (same_live j) ∙ l in
      stays-known _ _ _ (live-not-finished now ttl r j l') (h.live_known j l')
        (sweep-Forgets now ttl r j).1.0;
  bound_known = λ j b.
      let kept = gone-bound _ r (sweep now ttl r).1 j (sweep-Forgets now ttl r j).1.2 b in
      stays-known _ _ _ kept.0 (h.bound_known j kept.1) (sweep-Forgets now ttl r j).1.0;
}
  where
    same_live :
        (j : String) → includes (sweep now ttl r).1.live_streams j ≡ includes r.live_streams j
    same_live j = ap (λ ids. includes ids j) (sweep-Forgets now ttl r j).1.9

module _ {H : Type 0} where
  abbrev pub Sound : McpServer H → Type 0
  Sound s = IsSound s.sse_streams s.registry

  drop-Sound : (session : String) (s : McpServer H) → Sound s → Sound (drop_stream session s)
  drop-Sound session s h = record {
    live = λ j. ground (
      arith,
      includes-remove session s.registry.live_streams j,
      has-delete j session s.sse_streams,
      h.live j,
    );
    live_known = λ j l.
        h.live_known j (ground (arith, l, includes-remove session s.registry.live_streams j));
    bound_known = h.bound_known;
  }

  write-Sound :
      (writable : ℕ → Bool) (session : String) (stream : Option ℕ) (s : McpServer H)
      → Sound s
      → Sound (write_to writable session stream s)
  write-Sound writable session none s h = h
  write-Sound writable session (some stream) s h =
      if_holds Sound (writable stream) h (drop-Sound session s h)

  pub notify-Sound :
      (writable : ℕ → Bool) (sessions : List String) (s : McpServer H)
      → Sound s
      → Sound (notify writable sessions s)
  unfolding notify
  notify-Sound writable [] s h = h
  notify-Sound writable (x ∷ sessions) s h =
      notify-Sound writable sessions _ (write-Sound writable x _ s h)

  pub close-Sound :
      (session : String) (stream : ℕ) (s : McpServer H)
      → Sound s
      → Sound (close_stream session stream s)
  unfolding close_stream
  close-Sound session stream s h =
      elim (Bool-cases (is_stream stream (get session s.sse_streams))) [
        | inl own ↦
            let gone : has session (delete session s.sse_streams) ≡ false =
              ground (arith, has-delete session session s.sse_streams, eq_refl session) in
            rw (own, gone) (drop-Sound session s h)
        | inr replaced ↦ elim (Bool-cases (has session s.sse_streams)) [
          | inl there ↦ rw (replaced, there) h
          | inr absent ↦
              rw (replaced, absent)
                (record {
                  live = λ j. ground (
                    arith,
                    includes-remove session s.registry.live_streams j,
                    h.live j,
                    absent,
                    eq_iff session j,
                  );
                  live_known = λ j l.
                      h.live_known j
                        (ground (arith, l, includes-remove session s.registry.live_streams j));
                  bound_known = h.bound_known;
                })
        ]
      ]

  bind_unless-IsSound :
      (config : Config H) (req : Request) (streams : Dict ℕ) (session : String) (i : TokenIdentity)
      (bound : Option TokenIdentity) (r : SessionRegistry)
      → IsSound streams r
      → IsSound streams (bind_unless_anonymous config req session i bound r)
  bind_unless-IsSound config req streams session i (some b) r h = h
  bind_unless-IsSound config req streams session i none r h =
      if_holds (IsSound streams) i.anonymous h (same-IsSound streams r _ refl refl refl h)

  pub rebind-IsSound :
      (config : Config H) (req : Request) (streams : Dict ℕ) (session : Option String)
      (identity : Option TokenIdentity) (r : SessionRegistry)
      → IsSound streams r
      → IsSound streams (rebind_session config req session identity r)
  rebind-IsSound config req streams none identity r h = h
  rebind-IsSound config req streams (some y) none r h = h
  rebind-IsSound config req streams (some y) (some i) r h =
      bind_unless-IsSound config req streams y i _ r h

  mark-IsSound :
      (config : Config H) (req : Request) (streams : Dict ℕ) (session : String)
      (r : SessionRegistry)
      → IsSound streams r
      → IsSound streams (mark_if_manager config req session r)
  mark-IsSound config req streams session r h =
      if_holds (IsSound streams) (presented_manager_token config req)
        (same-IsSound streams r _ refl refl refl h) h

  pub note-IsSound :
      (config : Config H) (req : Request) (streams : Dict ℕ) (session : Option String)
      (r : SessionRegistry)
      → IsSound streams r
      → IsSound streams (note_session config req session r)
  note-IsSound config req streams none r h = h
  note-IsSound config req streams (some s) r h =
      mark-IsSound config req streams s _ (same-IsSound streams r _ refl refl refl h)

  -- Binding and marking a session leaves it known.
  bound-known :
      (config : Config H) (req : Request) (session : String) (identity : Option TokenIdentity)
      (r : SessionRegistry)
      → includes r.sessions session ≡ true
      → includes
          (bind_if_known session identity (mark_if_manager config req session r)).sessions
          session
        ≡ true
  bound-known config req session none r k =
      if_holds (λ (q : SessionRegistry). includes q.sessions session ≡ true)
        (presented_manager_token config req) k k
  bound-known config req session (some i) r k =
      if_holds (λ (q : SessionRegistry). includes q.sessions session ≡ true)
        (presented_manager_token config req) k k

  pub open_stream-Sound :
      (config : Config H) (req : Request) (identity : Option TokenIdentity) (s : McpServer H)
      → Sound s
      → Sound (open_stream config req identity s).1
  open_stream-Sound config req identity s h =
      let id = or_default req.session_id req.fresh in
      let r =
        (ensure_session req.now req.fresh req.session_id
          (touch req.now req.session_id s.registry)).1 in
      open-IsSound s.sse_streams id req.stream _
        (bound-known config req id identity r (
          ground (
            arith,
            includes-add id (touch req.now req.session_id s.registry).sessions id,
            eq_refl id,
          )))
        (bind_if_known-IsSound s.sse_streams id identity _ (
          mark-IsSound config req s.sse_streams id r (
            ensure-IsSound s.sse_streams req.now req.fresh req.session_id _
              (touch-IsSound s.sse_streams req.now req.session_id s.registry h))))
