-- ===== src/Sessions/Uses.antt =====
-- What the hub's tools and its callbacks do to the `SessionRegistry` of src/mcp-server.ts, and what
-- that leaves as it is.
use agent_comm_hub.Prelude.{
  ℕ, ◌≡◌, refl, sym, ◌∙◌, ap, subst, String, str-cases, Bool, true, false, inl, inr, Option, none,
  some, [], ◌∷◌, map, includes, add, includes-add, arith,
}
use agent_comm_hub.Dict.{Dict, get, set, has}
use agent_comm_hub.Dict.Laws.{has-set, has-delete, get-set}
use agent_comm_hub.Auth.{TokenIdentity, ok}
use agent_comm_hub.Sessions.{
  SessionRegistry, bind_peer, claim, unbind_peer, suppress_auto, clear_suppress, bind_token,
  unbind_peer_id, rebind_peer_id, repoint, without_peer,
}

-- The operations of the registry that the hub's code calls, one after another. The identity of a
-- session is replaced only where it is a walk-in's.
pub data Uses : SessionRegistry → SessionRegistry → Type 0 where
  unused : (r : SessionRegistry) → Uses r r
  followed_by : {r r' r'' : SessionRegistry} → Uses r r' → Uses r' r'' → Uses r r''
  binds :
      (session : Option String) (peer : String) (r r' : SessionRegistry)
      → bind_peer session peer r ≡ ok r'
      → Uses r r'
  unbinds : (session : Option String) (r : SessionRegistry) → Uses r (unbind_peer session r)
  unbinds_all :
      (peer : String) (suppress : Bool) (r : SessionRegistry)
      → Uses r (unbind_peer_id peer suppress r).1
  rebinds : (old new : String) (r : SessionRegistry) → Uses r (rebind_peer_id old new r).1
  suppresses : (session : Option String) (r : SessionRegistry) → Uses r (suppress_auto session r)
  allows : (session : Option String) (r : SessionRegistry) → Uses r (clear_suppress session r)
  names_walk_in :
      (session : String) (i j : TokenIdentity) (r : SessionRegistry)
      → get session r.token_bindings ≡ some i
      → i.anonymous ≡ true
      → Uses r (bind_token session j r)

-- A session that has a stream is known, and so is one that is bound to a peer; the sessions that have
-- a stream are those of `streams`.
pub record IsSound (streams : Dict ℕ) (r : SessionRegistry) : Type 0 where
  pub live : (j : String) → includes r.live_streams j ≡ has j streams
  pub live_known : (j : String) → includes r.live_streams j ≡ true → includes r.sessions j ≡ true
  pub bound_known : (j : String) → has j r.peer_bindings ≡ true → includes r.sessions j ≡ true

has-without_peer :
    (peer : String) (d : Dict String) (j : String)
    → has j (without_peer peer d) ≡ true
    → has j d ≡ true
unfolding has get without_peer
has-without_peer peer [] j h = h
has-without_peer peer ((k, v) ∷ d) j h = ground (arith, h, has-without_peer peer d j)

has-repoint :
    (old new : String) (d : Dict String) (j : String) → has j (map (repoint old new) d) ≡ has j d
unfolding has get
has-repoint old new [] j = refl
has-repoint old new ((k, v) ∷ d) j = ground (arith, has-repoint old new d j)

claim-ok :
    (existing : Option String) (peer : String) (r r' : SessionRegistry)
    → claim existing peer r ≡ ok r'
    → r ≡ r'
claim-ok none peer r r' e = cc
claim-ok (some p) peer r r' e = ground (arith, e)

pub bind_peer-ok :
    (session peer : String) (r r' : SessionRegistry)
    → bind_peer (some session) peer r ≡ ok r'
    → record r {
      peer_bindings = set session peer r.peer_bindings;
      sessions = add session r.sessions;
    }
      ≡ r'
unfolding bind_peer
bind_peer-ok session peer r r' e = claim-ok _ peer _ r' e

bind-IsSound :
    (streams : Dict ℕ) (session peer : String) (r : SessionRegistry)
    → IsSound streams r
    → IsSound streams (record r {
      peer_bindings = set session peer r.peer_bindings;
      sessions = add session r.sessions;
    })
bind-IsSound streams session peer r h = record {
  live = h.live;
  live_known = λ j l. ground (arith, includes-add session r.sessions j, h.live_known j l);
  bound_known = λ j b. ground (
    arith,
    b,
    has-set j session peer r.peer_bindings,
    includes-add session r.sessions j,
    h.bound_known j,
  );
}

binds-IsSound :
    (streams : Dict ℕ) (session : Option String) (peer : String) (r r' : SessionRegistry)
    → bind_peer session peer r ≡ ok r'
    → IsSound streams r
    → IsSound streams r'
unfolding bind_peer
binds-IsSound streams none peer r r' e h = absurd (ground (arith, e))
binds-IsSound streams (some session) peer r r' e h =
    subst (IsSound streams) (bind_peer-ok session peer r r' e)
      (bind-IsSound streams session peer r h)

pub Uses-IsSound :
    {r r' : SessionRegistry} (streams : Dict ℕ) → Uses r r' → IsSound streams r → IsSound streams r'
unfolding unbind_peer_id rebind_peer_id
Uses-IsSound streams (unused r) h = h
Uses-IsSound streams (followed_by u v) h = Uses-IsSound streams v (Uses-IsSound streams u h)
Uses-IsSound streams (binds session peer r r' e) h = binds-IsSound streams session peer r r' e h
Uses-IsSound streams (unbinds none r) h = h
Uses-IsSound streams (unbinds (some s) r) h = record {
  live = h.live;
  live_known = h.live_known;
  bound_known = λ j b. h.bound_known j (ground (arith, b, has-delete j s r.peer_bindings));
}
Uses-IsSound streams (unbinds_all peer suppress r) h = record {
  live = h.live;
  live_known = h.live_known;
  bound_known = λ j b. h.bound_known j (has-without_peer peer r.peer_bindings j b);
}
Uses-IsSound streams (rebinds old new r) h = record {
  live = h.live;
  live_known = h.live_known;
  bound_known = λ j b. h.bound_known j (sym (has-repoint old new r.peer_bindings j) ∙ b);
}
Uses-IsSound streams (suppresses none r) h = h
Uses-IsSound streams (suppresses (some s) r) h = record {
  live = h.live;
  live_known = h.live_known;
  bound_known = h.bound_known;
}
Uses-IsSound streams (allows none r) h = h
Uses-IsSound streams (allows (some s) r) h = record {
  live = h.live;
  live_known = h.live_known;
  bound_known = h.bound_known;
}
Uses-IsSound streams (names_walk_in session i j r e w) h = record {
  live = h.live;
  live_known = h.live_known;
  bound_known = h.bound_known;
}

binds-tokens :
    (session : Option String) (peer : String) (r r' : SessionRegistry)
    → bind_peer session peer r ≡ ok r'
    → r.token_bindings ≡ r'.token_bindings
unfolding bind_peer
binds-tokens none peer r r' e = absurd (ground (arith, e))
binds-tokens (some session) peer r r' e =
    ap (λ (q : SessionRegistry). q.token_bindings) (bind_peer-ok session peer r r' e)

abbrev walk_in : Option TokenIdentity → Bool
walk_in none = false
walk_in (some i) = i.anonymous

pub Uses-token :
    {r r' : SessionRegistry} (x : String) (i : TokenIdentity)
    → Uses r r'
    → i.anonymous ≡ false
    → get x r.token_bindings ≡ some i
    → get x r'.token_bindings ≡ some i
unfolding unbind_peer_id rebind_peer_id
Uses-token x i (unused r) a h = h
Uses-token x i (followed_by u v) a h = Uses-token x i v a (Uses-token x i u a h)
Uses-token x i (binds session peer r r' e) a h =
    ap (λ (d : Dict TokenIdentity). get x d) (sym (binds-tokens session peer r r' e)) ∙ h
Uses-token x i (unbinds none r) a h = h
Uses-token x i (unbinds (some s) r) a h = h
Uses-token x i (unbinds_all peer suppress r) a h = h
Uses-token x i (rebinds old new r) a h = h
Uses-token x i (suppresses none r) a h = h
Uses-token x i (suppresses (some s) r) a h = h
Uses-token x i (allows none r) a h = h
Uses-token x i (allows (some s) r) a h = h
Uses-token x i (names_walk_in session k j r e w) a h = elim (str-cases session x) [
  | inl (same, p) ↦
      let alike : walk_in (some k) ≡ walk_in (some i) =
        ap walk_in (sym e ∙ ap (λ y. get y r.token_bindings) p ∙ h) in
      absurd (ground (arith, alike, w, a))
  | inr (other, n) ↦ get-set x session j r.token_bindings ∙ (rw other h)
]
