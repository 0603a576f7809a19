-- ===== src/Server/Bound.antt =====
-- src/mcp-server.ts: what the steps of a request do to the identity that a session is bound to.
use agent_comm_hub.Prelude.{
  if_holds, ◌≡◌, ◌≢◌, refl, sym, ◌∙◌, String, str-cases, true, false, Bool-cases, inl, inr, Option,
  none, some, includes, or_default, arith, eq_iff,
}
use agent_comm_hub.Dict.{get}
use agent_comm_hub.Dict.Laws.{get-set}
use agent_comm_hub.Auth.{TokenIdentity, TokenRole}
use agent_comm_hub.Sessions.{SessionRegistry, touch, bind_token}
use agent_comm_hub.Sessions.Uses.{Uses, Uses-token}
use agent_comm_hub.Server.{Request, Config, McpServer}
use agent_comm_hub.Server.Headers.{presented_manager_token}
use agent_comm_hub.Server.Dispatch.{bind_if_known, note_if_named}
use agent_comm_hub.Server.Handlers.{
  same_role, is_mismatch, mark_if_manager, open_stream, rebind_session, bind_unless_anonymous,
  note_session,
}

abbrev pub anon_join_peer : String
anon_join_peer = "__join__"

abbrev pub OwnedBy : String → TokenRole → Option TokenIdentity → Type 0
OwnedBy peer role none = ⊥
OwnedBy peer role (some i) = (i.peer ≡ peer) × (i.role ≡ role) × (i.anonymous ≡ false)

-- Every walk-in has the peer that stands for one.
abbrev pub MarksWalkIns : {H : Type 0} → Config H → Type 0
MarksWalkIns config =
    (authenticate : Request → Option TokenIdentity) (req : Request) (i : TokenIdentity)
    → config.authenticate ≡ some authenticate
    → authenticate req ≡ some i
    → i.anonymous ≡ true
    → i.peer ≡ anon_join_peer

pub same_role→≡ : (a b : TokenRole) → same_role a b ≡ true → b ≡ a
same_role→≡ TokenRole.agent TokenRole.agent h = refl
same_role→≡ TokenRole.manager TokenRole.manager h = refl
same_role→≡ TokenRole.agent TokenRole.manager h = ground arith
same_role→≡ TokenRole.manager TokenRole.agent h = ground arith

-- An identity that does not mismatch the session's, which is no walk-in's.
pub matching-OwnedBy :
    (peer : String) (role : TokenRole) (bound : Option TokenIdentity) (i : TokenIdentity)
    → OwnedBy peer role bound
    → is_mismatch bound i ≡ false
    → (i.anonymous ≡ true → i.peer ≡ anon_join_peer)
    → peer ≢ anon_join_peer
    → OwnedBy peer role (some i)
matching-OwnedBy peer role none i h m w n = absurd h
matching-OwnedBy peer role (some b) i (hp, hr, ha) m w n = (
  same_peer,
  same ∙ hr,
  elim (Bool-cases i.anonymous) [
    | inl walk_in ↦ absurd (n (sym same_peer ∙ w walk_in))
    | inr known ↦ known
  ],
)
  where
    same_peer : i.peer ≡ peer
    same_peer = ground (arith, m, ha, hp, eq_iff b.peer i.peer)

    same : i.role ≡ b.role
    same = same_role→≡ b.role i.role (ground (arith, m, ha))

module _ {H : Type 0} (config : Config H) (req : Request) (x peer : String) (role : TokenRole) where
  abbrev pub IsOwned : SessionRegistry → Type 0
  IsOwned r = OwnedBy peer role (get x r.token_bindings)

  pub bind-IsOwned :
      (session : String) (i : TokenIdentity) (r : SessionRegistry)
      → (session ≡ x → OwnedBy peer role (some i))
      → IsOwned r
      → IsOwned (bind_token session i r)
  bind-IsOwned session i r own h = elim (str-cases session x) [
    | inl (same, e) ↦ rw (get-set x session i r.token_bindings, same) (own e)
    | inr (other, e) ↦ rw (get-set x session i r.token_bindings, other) h
  ]

  -- Who the request is from may hold the session that it is for.
  abbrev pub MayHold : Option TokenIdentity → Type 0
  MayHold identity =
      (i : TokenIdentity)
      → identity ≡ some i
      → or_default req.session_id req.fresh ≡ x
      → OwnedBy peer role (some i)

  pub bind_if_known-IsOwned :
      (identity : Option TokenIdentity) (r : SessionRegistry)
      → MayHold identity
      → IsOwned r
      → IsOwned (bind_if_known (or_default req.session_id req.fresh) identity r)
  bind_if_known-IsOwned none r own h = h
  bind_if_known-IsOwned (some i) r own h = bind-IsOwned _ i r (own i refl) h

  pub touch-IsOwned :
      (session : Option String) (r : SessionRegistry)
      → IsOwned r
      → IsOwned (touch req.now session r)
  touch-IsOwned none r h = h
  touch-IsOwned (some s) r h = if_holds IsOwned (includes r.sessions s) h h

  pub mark-IsOwned :
      (session : String) (r : SessionRegistry)
      → IsOwned r
      → IsOwned (mark_if_manager config req session r)
  mark-IsOwned session r h = if_holds IsOwned (presented_manager_token config req) h h

  pub note-IsOwned :
      (r : SessionRegistry) (session : Option String)
      → IsOwned r
      → IsOwned (note_session config req session r)
  note-IsOwned r none h = h
  note-IsOwned r (some s) h = mark-IsOwned s _ h

  pub note_client-IsOwned :
      (session : String) (name version : Option String) (r : SessionRegistry)
      → IsOwned r
      → IsOwned (note_if_named session name version r)
  note_client-IsOwned session none version r h = h
  note_client-IsOwned session (some n) version r h = h

  pub bind_unless-IsOwned :
      (session : String) (i : TokenIdentity) (bound : Option TokenIdentity) (r : SessionRegistry)
      → (session ≡ x → OwnedBy peer role (some i))
      → IsOwned r
      → IsOwned (bind_unless_anonymous config req session i bound r)
  bind_unless-IsOwned session i (some b) r own h = h
  bind_unless-IsOwned session i none r own h =
      if_holds IsOwned i.anonymous h (bind-IsOwned session i r own h)

  pub rebind-IsOwned :
      (session : Option String) (identity : Option TokenIdentity) (r : SessionRegistry)
      → ((i : TokenIdentity)
          → identity ≡ some i
          → or_default session req.fresh ≡ x
          → OwnedBy peer role (some i))
      → IsOwned r
      → IsOwned (rebind_session config req session identity r)
  rebind-IsOwned none identity r own h = h
  rebind-IsOwned (some y) none r own h = h
  rebind-IsOwned (some y) (some i) r own h = bind_unless-IsOwned y i _ r (own i refl) h

  pub open_stream-IsOwned :
      (identity : Option TokenIdentity) (s : McpServer H)
      → MayHold identity
      → IsOwned s.registry
      → IsOwned (open_stream config req identity s).1.registry
  open_stream-IsOwned identity s own h =
      bind_if_known-IsOwned identity _ own
        (mark-IsOwned _ _ (touch-IsOwned req.session_id s.registry h))

  pub Uses-IsOwned : (r r' : SessionRegistry) → Uses r r' → IsOwned r → IsOwned r'
  Uses-IsOwned r r' u h = owner-kept (get x r.token_bindings) refl h
    where
      owner-kept :
          (bound : Option TokenIdentity)
          → get x r.token_bindings ≡ bound
          → OwnedBy peer role bound
          → IsOwned r'
      owner-kept none e k = absurd k
      owner-kept (some i) e (kp, kr, ka) = rw (Uses-token x i u ka e) (kp, kr, ka)
