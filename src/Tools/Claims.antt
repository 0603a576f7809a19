-- ===== src/Tools/Claims.antt =====
-- src/hub-tools.ts: which ids `bridge_register` gives to a session, and what the session has then.
use agent_comm_hub.Prelude.{
  ◌≡◌, ◌≢◌, ◌⊎◌, refl, sym, ap, ◌∙◌, subst, eq_refl, eq_iff, String, str_eq, ltb, ◌&&◌, not, true,
  false, Option, none, some, includes-remove, arith,
}
use agent_comm_hub.Protocol.{broadcast, hub_peer}
use agent_comm_hub.Protocol.Ids.{is_peer_id}
use agent_comm_hub.Dict.Laws.{get-set}
use agent_comm_hub.Auth.{TokenIdentity, Result, ok, err}
use agent_comm_hub.Sessions.{
  SessionRegistry, BindError, peer_for, token_for, bind_peer, is_suppressed, clear_suppress,
  attached_count,
}
use agent_comm_hub.Sessions.Uses.{bind_peer-ok}
use agent_comm_hub.Hub.State.{Env}
use agent_comm_hub.Hub.Registry.{is_registered, owns_mailbox}
use agent_comm_hub.Tools.Names.{AliasError, sanitize_alias}
use agent_comm_hub.Tools.{
  cleaned, World, returns, return, fail, when, change, on_hub, bind, from_registry, keep_token,
  read_alias, is_bound_to, set_if_given, ToolError, take_id, leave_current, claim_id, claim_some,
  or_bound, bridge_register,
}
use agent_comm_hub.Tools.Returns.{
  then-returns, bind-returns, ask-returns, require_not-returns, on_hub-registry, when-registry,
  set_if_given-registry, changed, returned, required,
}

bound_registry :
    (session : Option String) (peer : String) (r r' : SessionRegistry)
    → bind_peer session peer r ≡ ok r'
    → peer_for session r' ≡ some peer
unfolding bind_peer
bound_registry none peer r r' e = absurd (ground (arith, e))
bound_registry (some s) peer r r' e =
    subst (λ (q : SessionRegistry). peer_for (some s) q ≡ some peer) (bind_peer-ok s peer r r' e)
      (get-set s s peer r.peer_bindings ∙ (rw (eq_refl s) refl))

bind-peer_for :
    (session : Option String) (peer : String) (w : World) (a : Unit {0}) (u : World)
    → bind session peer w ≡ returns a u
    → peer_for session u.0 ≡ some peer
unfolding bind
bind-peer_for session peer w a u e = by_result (bind_peer session peer w.0) refl e
  where
    by_result :
        (out : Result BindError SessionRegistry)
        → bind_peer session peer w.0 ≡ out
        → from_registry w out ≡ returns a u
        → peer_for session u.0 ≡ some peer
    by_result (ok r) p e =
        let stored : r ≡ u.0 = ground (arith, e) in
        subst (λ (q : SessionRegistry). peer_for session q ≡ some peer) stored
          (bound_registry session peer w.0 r p)
    by_result (err x) p e = absurd (ground (arith, e))

cleared :
    (session : Option String) (r : SessionRegistry)
    → (peer_for session (clear_suppress session r) ≡ peer_for session r)
      × (is_suppressed session (clear_suppress session r) ≡ false)
cleared none r = (refl, refl)
cleared (some s) r = (refl, ground (arith, includes-remove s r.suppressed_auto s, eq_refl s))

-- What the session has when it has taken an id.
abbrev pub Joined : Option String → String → SessionRegistry → Type 0
Joined session peer r = (peer_for session r ≡ some peer) × (is_suppressed session r ≡ false)

take_id-Joined :
    (env : Env) (session : Option String) (peer : String) (current alias : Option String)
    (w : World) (p : String) (v : World)
    → take_id env session peer current alias w ≡ returns p v
    → (p ≡ peer) × Joined session peer v.0
take_id-Joined env session peer current alias w p v e =
    let (a1, w1, e1, k1) = then-returns (leave_current env session current peer) _ w p v e in
    let (a2, w2, e2, k2) = then-returns (bind session peer) _ w1 p v k1 in
    let k3 = ask-returns (λ r h. is_registered peer h) _ w2 p v k2 in
    let (a4, w4, e4, k4) = then-returns (when (not (is_registered peer w2.1)) _) _ w2 p v k3 in
    let (a5, w5, e5, k5) = then-returns (change (clear_suppress session)) _ w4 p v k4 in
    let (a6, w6, e6, k6) = then-returns (on_hub _) _ w5 p v k5 in
    let (a7, w7, e7, k7) = then-returns (set_if_given peer alias) _ w6 p v k6 in
    let same : w4.0 ≡ w2.0 = when-registry (not (is_registered peer w2.1)) _ w2 a4 w4 e4 in
    let (is_peer, kept) = returned peer w7 p v k7 in
    let after : v.0 ≡ clear_suppress session w4.0 =
      kept
      ∙ set_if_given-registry peer alias w6 a7 w7 e7
      ∙ on_hub-registry _ w5 a6 w6 e6
      ∙ changed (clear_suppress session) w4 a5 w5 e5 in
    (
      is_peer,
      (
        ap (peer_for session) after
            ∙ (cleared session w4.0).0
            ∙ ap (peer_for session) same
            ∙ bind-peer_for session peer w1 a2 w2 e2,
        ap (is_suppressed session) after ∙ (cleared session w4.0).1,
      ),
    )

-- The identity of a token is for its own peer only.
abbrev pub TokenAllows : String → Option TokenIdentity → Type 0
TokenAllows peer none = Unit
TokenAllows peer (some i) = peer ≡ i.peer

-- An id that the session may take: it is well-formed and not reserved, it is the one of the session's
-- token, if it has one, nobody is registered under it but this session's peer, and no session but of this
-- peer is attached to a mailbox of that name.
pub record MayTake (session : Option String) (peer : String) (w : World) : Type 0 where
  pub valid : is_peer_id peer ≡ true
  pub unreserved : (peer ≢ broadcast) × (peer ≢ hub_peer)
  pub token : TokenAllows peer (token_for session w.0)
  pub free : (is_registered peer w.1 ≡ false) ⊎ (peer_for session w.0 ≡ some peer)
  pub unattached :
      (owns_mailbox peer w.1 ≡ false)
      ⊎ ((attached_count peer w.0 ≡ 0) ⊎ (peer_for session w.0 ≡ some peer))

token-TokenAllows :
    (token : Option TokenIdentity) (peer : String) (w : World) (a : Unit {0}) (u : World)
    → keep_token token peer w ≡ returns a u
    → TokenAllows peer token × (u ≡ w)
unfolding keep_token return
token-TokenAllows none peer w a u e = (tt, ground (arith, e))
token-TokenAllows (some i) peer w a u e =
    let (same, kept) = required (not (str_eq peer i.peer)) _ w a u e in
    ((eq_iff peer i.peer).0 (ground (arith, same)), kept)

alias-same :
    (alias : Option String) (w : World) (a : Option String) (u : World)
    → read_alias alias w ≡ returns a u
    → u ≡ w
unfolding read_alias fail return
alias-same none w a u e = ground (arith, e)
alias-same (some alias) w a u e = by_result (sanitize_alias alias) e
  where
    by_result : (out : Result AliasError String) → cleaned out w ≡ returns a u → u ≡ w
    by_result (ok alias) e = ground (arith, e)
    by_result (err x) e = absurd (ground (arith, e))

bound_to-eq : (o : Option String) (peer : String) → is_bound_to o peer ≡ true → o ≡ some peer
bound_to-eq none peer h = absurd (ground (arith, h))
bound_to-eq (some b) peer h = ap some ((eq_iff b peer).0 h)

claim_id-MayTake :
    (env : Env) (session : Option String) (peer : String) (alias : Option String) (w : World)
    (p : String) (v : World)
    → claim_id env session peer alias w ≡ returns p v
    → (p ≡ peer) × MayTake session peer w × Joined session peer v.0
claim_id-MayTake env session peer alias w p v e =
    let (valid, k1) = require_not-returns (not (is_peer_id peer)) _ _ w p v e in
    let (not_all, k2) = require_not-returns (str_eq peer broadcast) _ _ w p v k1 in
    let (not_hub, k3) = require_not-returns (str_eq peer hub_peer) _ _ w p v k2 in
    let (cleaned, w4, e4, k4) = bind-returns (read_alias alias) _ w p v k3 in
    let k5 = ask-returns (λ r h. token_for session r) _ w4 p v k4 in
    let (a6, w6, e6, k6) = then-returns (keep_token (token_for session w4.0) peer) _ w4 p v k5 in
    let k7 = ask-returns (λ r h. peer_for session r) _ w6 p v k6 in
    let k8 = ask-returns (λ r h. is_registered peer h) _ w6 p v k7 in
    let (free, k9) =
      require_not-returns
        (is_registered peer w6.1 && not (is_bound_to (peer_for session w6.0) peer)) _ _ w6 p v k8 in
    let k10 =
      ask-returns (λ r h. owns_mailbox peer h && ltb 0 (attached_count peer r)) _ w6 p v k9 in
    let (unattached, k11) =
      require_not-returns
        ((owns_mailbox peer w6.1 && ltb 0 (attached_count peer w6.0))
          && not (is_bound_to (peer_for session w6.0) peer))
        _ _ w6 p v k10 in
    let (allowed, kept) = token-TokenAllows (token_for session w4.0) peer w4 a6 w6 e6 in
    let (is_peer, joined) =
      take_id-Joined env session peer (peer_for session w6.0) cleaned w6 p v k11 in
    let mine = bound_to-eq (peer_for session w6.0) peer in
    let may : MayTake session peer w6 = record {
      valid = ground (arith, valid);
      unreserved = (
        λ q. ground (arith, not_all, (eq_iff peer broadcast).1 q),
        λ q. ground (arith, not_hub, (eq_iff peer hub_peer).1 q),
      );
      token = subst (λ (q : World). TokenAllows peer (token_for session q.0)) (sym kept) allowed;
      free = ground (arith, free, mine);
      unattached = ground (arith, unattached, mine);
    } in
    (is_peer, subst (MayTake session peer) (kept ∙ alias-same alias w cleaned w4 e4) may, joined)

failed : (x : ToolError) (w : World) (p : String) (v : World) → fail x w ≡ returns p v → ⊥
unfolding fail
failed x w p v e = ground (arith, e)

-- When `bridge_register` returns, it returns the id that was asked for, or the session's own one where none
-- was. The id is well-formed and not reserved, and it is that of the session's token, if it has one. Unless
-- the session was bound to it before, nobody was registered under it, and no session was attached to a
-- mailbox of that name. Afterwards the session is bound to it, and its automatic registration is not
-- suppressed.
pub bridge_register-MayTake :
    (env : Env) (session peer alias : Option String) (w : World) (p : String) (v : World)
    → bridge_register env session peer alias w ≡ returns p v
    → (or_bound env session peer (peer_for session w.0) ≡ some p)
      × MayTake session p w
      × Joined session p v.0
unfolding bridge_register
bridge_register-MayTake env session peer alias w p v e =
    by_id (or_bound env session peer (peer_for session w.0))
      (ask-returns (λ r h. peer_for session r) _ w p v e)
  where
    by_id :
        (o : Option String)
        → claim_some env session o alias w ≡ returns p v
        → (o ≡ some p) × MayTake session p w × Joined session p v.0
    by_id none e = absurd (failed ToolError.no_peer_to_register w p v e)
    by_id (some q) e =
        let (same, may, joined) = claim_id-MayTake env session q alias w p v e in
        let found =
          subst (λ i. MayTake session i w × Joined session i v.0) (sym same) (may, joined) in
        (ap some (sym same), found.0, found.1)
