-- ===== src/Server/Ownership.antt =====
-- src/mcp-server.ts: a session stays with the identity that it is bound to.
use agent_comm_hub.Prelude.{
  ◌≡◌, ◌≢◌, refl, sym, subst, String, true, false, Bool-cases, Option-cases, inl, inr, Option, none,
  some, or_default, arith,
}
use agent_comm_hub.Dict.{get}
use agent_comm_hub.Auth.{TokenIdentity, TokenRole}
use agent_comm_hub.Sessions.{SessionRegistry, token_for}
use agent_comm_hub.Server.{Request, Config, McpServer}
use agent_comm_hub.Server.Handlers.{is_mismatch, check_identity, found, check_owner}
use agent_comm_hub.Server.Routes.{on_request}
use agent_comm_hub.Server.Invariant.{IsKept, StartUses, ToolsUse, EntitledIf, on_request-Keeps}
use agent_comm_hub.Server.Bound.{
  anon_join_peer, OwnedBy, MarksWalkIns, IsOwned, MayHold, matching-OwnedBy, bind_if_known-IsOwned,
  open_stream-IsOwned, note_client-IsOwned, rebind-IsOwned, touch-IsOwned, note-IsOwned,
  Uses-IsOwned,
}

module _ {H : Type 0} (config : Config H) (req : Request) (x peer : String) (role : TokenRole) where
  abbrev Owned : SessionRegistry → Type 0
  Owned = IsOwned config req x peer role

  abbrev Holds : Option TokenIdentity → Type 0
  Holds = MayHold config req x peer role

  steps : IsKept config req (λ streams r. Owned r) Holds
  steps = record {
    touch_keeps = λ streams r session h. touch-IsOwned config req x peer role session r h;
    note_keeps = λ streams r session h. note-IsOwned config req x peer role r session h;
    rebind_keeps = λ streams identity r own h.
        rebind-IsOwned config req x peer role req.session_id identity r own h;
    open_keeps = λ identity s own h. open_stream-IsOwned config req x peer role identity s own h;
    start_keeps = λ streams identity name version r own h.
        bind_if_known-IsOwned config req x peer role identity _ own
          (note_client-IsOwned config req x peer role _ name version _ h);
    uses_keeps = λ streams r r' u h. Uses-IsOwned config req x peer role r r' u h;
  }

  matching-Holds :
      (i : TokenIdentity) (r : SessionRegistry)
      → (i.anonymous ≡ true → i.peer ≡ anon_join_peer)
      → req.fresh ≢ x
      → peer ≢ anon_join_peer
      → Owned r
      → (session : Option String) → is_mismatch (token_for session r) i ≡ false
      → or_default session req.fresh ≡ x
      → OwnedBy peer role (some i)
  matching-Holds i r w f n h none m e = absurd (f e)
  matching-Holds i r w f n h (some y) m e =
      matching-OwnedBy peer role (get y r.token_bindings) i
        (subst (λ k. OwnedBy peer role (get k r.token_bindings)) (sym e) h) m w n

  check_owner-Holds :
      MarksWalkIns config
      → req.fresh ≢ x
      → peer ≢ anon_join_peer
      → (r : SessionRegistry) → Owned r
      → EntitledIf config req steps (check_owner config req r)
  unfolding check_owner
  check_owner-Holds marks f n r h = elim (Option-cases config.authenticate) [
    | inl e ↦ rw e (λ i p same. absurd (ground arith))
    | inr (authenticate, e) ↦
        rw e (identity-Holds (authenticate req) (λ i p. marks authenticate req i e p))
  ]
    where
      identity-Holds :
          (identity : Option TokenIdentity)
          → ((i : TokenIdentity) → identity ≡ some i → i.anonymous ≡ true → i.peer ≡ anon_join_peer)
          → EntitledIf config req steps
              (found config req some (check_identity config req identity r))
      identity-Holds none w = tt
      identity-Holds (some i) w = elim (Bool-cases (is_mismatch (token_for req.session_id r) i)) [
        | inl bad ↦ rw bad tt
        | inr good ↦ rw good (λ j p same.
            subst (λ o. OwnedBy peer role o) p
              (matching-Holds i r (w i refl) f n h req.session_id good same))
      ]

  -- A session that is bound to an identity that is no walk-in's stays bound to its peer and its role,
  -- whatever is requested and by whom, where `on_initialize` and the tools change the registry only by
  -- the operations that `Uses` lists, the walk-ins that `authenticate` gives all have the peer that
  -- stands for one, which is not this one, and a fresh session id is not the session's.
  pub on_request-IsOwned :
      StartUses config
      → ToolsUse config
      → MarksWalkIns config
      → req.fresh ≢ x
      → peer ≢ anon_join_peer
      → (s : McpServer H) → Owned s.registry
      → Owned (on_request config req s).1.registry
  on_request-IsOwned start_uses tool_uses marks fresh_id no_walk_in s h =
      on_request-Keeps config req steps start_uses tool_uses s
        (check_owner-Holds marks fresh_id no_walk_in s.registry h) h
