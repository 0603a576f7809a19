-- ===== src/Tools/Keeps.antt =====
-- src/hub-tools.ts: what the tools do to the registry of sessions.
use agent_comm_hub.Prelude.{
  ◌≡◌, refl, String, str_eq, if◌then◌else◌, if_holds, Bool, true, false, Option, none, some, not,
}
use agent_comm_hub.Auth.{TokenIdentity, Result, ok, err}
use agent_comm_hub.Sessions.{
  SessionRegistry, BindError, bind_peer, unbind_peer, suppress_auto, clear_suppress, unbind_peer_id,
  rebind_peer_id,
}
use agent_comm_hub.Sessions.Uses.{Uses}
use agent_comm_hub.Hub.State.{Env, AgentHub}
use agent_comm_hub.Hub.Outcome.{M, Outcome, done, threw, exhausted}
use agent_comm_hub.Hub.Registry.{set_alias}
use agent_comm_hub.Tools.Names.{AliasError, sanitize_alias}
use agent_comm_hub.Tools.{
  World, Ran, T, returns, throws, runs_out, ran_then, ◌>>=◌, ◌>>◌, return, fail, when, ask, change,
  on_hub, from_hub, bind, from_registry, require_not, keep_token, read_alias, cleaned, set_if_given,
  ToolError, ToolOptions, join_as, join_unbound, auto_register_peer, leave_current, take_id,
  claim_id, claim_some, bridge_register, leave_hub, kick, bridge_unregister,
}

-- Whether it returns or throws, the tool has changed the registry only by the operations of `Uses`.
abbrev RanWithin : {A : Type 0} → SessionRegistry → Ran A → Type 0
RanWithin r (returns a w) = Uses r w.0
RanWithin r (throws e w) = Uses r w.0
RanWithin r runs_out = Unit

pub record Keeps {A : Type 0} (m : T A) : Type 0 where
  pub within : (w : World) → RanWithin w.0 (m w)

module _ {A B : Type 0} where
  ran_then-RanWithin :
      (r : SessionRegistry) (ran : Ran A) (f : A → T B)
      → RanWithin r ran
      → ((a : A) → Keeps (f a))
      → RanWithin r (ran_then ran f)
  ran_then-RanWithin r (returns a w) f u k = after (f a w) ((k a).within w)
    where
      after : (out : Ran B) → RanWithin w.0 out → RanWithin r out
      after (returns b v) x = Uses.followed_by u x
      after (throws e v) x = Uses.followed_by u x
      after runs_out x = tt
  ran_then-RanWithin r (throws e w) f u k = u
  ran_then-RanWithin r runs_out f u k = tt

  then-Keeps : {m : T A} {f : A → T B} → Keeps m → ((a : A) → Keeps (f a)) → Keeps (m >>= f)
  unfolding ◌>>=◌
  then-Keeps {m = m} {f = f} h k = record {
    within = λ w. ran_then-RanWithin w.0 (m w) f (h.within w) k;
  }

  and_then-Keeps : {m : T A} {k : T B} → Keeps m → Keeps k → Keeps (m >> k)
  unfolding ◌>>◌
  and_then-Keeps {m = m} {k = k} h g = record {
    within = λ w. ran_then-RanWithin w.0 (m w) (λ _. k) (h.within w) (λ _. g);
  }

module _ {A : Type 0} where
  return-Keeps : (a : A) → Keeps (return a)
  unfolding return
  return-Keeps a = record { within = λ w. Uses.unused w.0 }

  fail-Keeps : (e : ToolError) → Keeps (fail {A = A} e)
  unfolding fail
  fail-Keeps e = record { within = λ w. Uses.unused w.0 }

  ask-Keeps : (f : SessionRegistry → AgentHub → A) → Keeps (ask f)
  unfolding ask
  ask-Keeps f = record { within = λ w. Uses.unused w.0 }

  on_hub-Keeps : (m : M A) → Keeps (on_hub m)
  unfolding on_hub
  on_hub-Keeps m = record { within = λ w. from_hub-within w.0 (m w.1) }
    where
      from_hub-within : (r : SessionRegistry) (out : Outcome A) → RanWithin r (from_hub r out)
      from_hub-within r (done a h) = Uses.unused r
      from_hub-within r (threw e h) = Uses.unused r
      from_hub-within r exhausted = tt

  if-Keeps : (b : Bool) {m k : T A} → Keeps m → Keeps k → Keeps (if b then m else k)
  if-Keeps b h k = if_holds Keeps b h k

change-Keeps :
    (f : SessionRegistry → SessionRegistry)
    → ((r : SessionRegistry) → Uses r (f r))
    → Keeps (change f)
unfolding change
change-Keeps f u = record { within = λ w. u w.0 }

when-Keeps : (b : Bool) {t : T (Unit {0})} → Keeps t → Keeps (when b t)
unfolding when
when-Keeps true h = h
when-Keeps false h = return-Keeps tt

require_not-Keeps : (b : Bool) (e : ToolError) → Keeps (require_not b e)
unfolding require_not
require_not-Keeps true e = fail-Keeps e
require_not-Keeps false e = return-Keeps tt

bind-Keeps : (session : Option String) (peer : String) → Keeps (bind session peer)
unfolding bind
bind-Keeps session peer = record { within = λ w. bind-within w (bind_peer session peer w.0) refl }
  where
    bind-within :
        (w : World) (out : Result BindError SessionRegistry)
        → bind_peer session peer w.0 ≡ out
        → RanWithin w.0 (from_registry w out)
    bind-within w (ok r') e = Uses.binds session peer w.0 r' e
    bind-within w (err e) p = Uses.unused w.0

read_alias-Keeps : (alias : Option String) → Keeps (read_alias alias)
unfolding read_alias
read_alias-Keeps none = return-Keeps none
read_alias-Keeps (some alias) = cleaned-Keeps (sanitize_alias alias)
  where
    cleaned-Keeps : (out : Result AliasError String) → Keeps (cleaned out)
    cleaned-Keeps (ok alias) = return-Keeps (some alias)
    cleaned-Keeps (err e) = fail-Keeps (ToolError.bad_alias e)

keep_token-Keeps : (token : Option TokenIdentity) (peer : String) → Keeps (keep_token token peer)
unfolding keep_token
keep_token-Keeps none peer = return-Keeps tt
keep_token-Keeps (some i) peer = require_not-Keeps (not (str_eq peer i.peer)) _

set_if_given-Keeps : (peer : String) (alias : Option String) → Keeps (set_if_given peer alias)
unfolding set_if_given
set_if_given-Keeps peer none = return-Keeps tt
set_if_given-Keeps peer (some alias) = on_hub-Keeps (set_alias peer (some alias))

module _ (env : Env) (random : String) where
  join_as-Keeps :
      (session peer : String) (name version : Option String)
      → Keeps (join_as env random session peer name version)
  join_as-Keeps session peer name version =
      search
        (then-Keeps, and_then-Keeps, ask-Keeps, when-Keeps, on_hub-Keeps, bind-Keeps, return-Keeps)

  join_unbound-Keeps :
      (session : String) (name version bound : Option String) (suppressed : Bool)
      → Keeps (join_unbound env random session name version bound suppressed)
  join_unbound-Keeps session name version (some b) suppressed = return-Keeps (some b)
  join_unbound-Keeps session name version none true = return-Keeps none
  join_unbound-Keeps session name version none false =
      then-Keeps (ask-Keeps _) (λ peer. join_as-Keeps session peer name version)

  auto_register_peer-Keeps :
      (session name version : Option String)
      → Keeps (auto_register_peer env random session name version)
  unfolding auto_register_peer
  auto_register_peer-Keeps none name version = return-Keeps none
  auto_register_peer-Keeps (some s) name version = then-Keeps (ask-Keeps _) (λ bound.
      then-Keeps (ask-Keeps _) (λ suppressed. join_unbound-Keeps s name version bound suppressed))

module _ (env : Env) (session : Option String) where
  leave_current-Keeps :
      (current : Option String) (peer : String) → Keeps (leave_current env session current peer)
  leave_current-Keeps none peer = return-Keeps tt
  leave_current-Keeps (some current) peer = if-Keeps (str_eq current peer) (return-Keeps tt) (
      then-Keeps (ask-Keeps _) (λ sole.
        if-Keeps sole
          (and_then-Keeps (on_hub-Keeps _)
            (change-Keeps (λ r. (rebind_peer_id current peer r).1) (Uses.rebinds current peer)))
          (and_then-Keeps (change-Keeps (unbind_peer session) (Uses.unbinds session))
            (then-Keeps (ask-Keeps _) (λ deserted. when-Keeps deserted (on_hub-Keeps _))))))

  take_id-Keeps :
      (peer : String) (current alias : Option String)
      → Keeps (take_id env session peer current alias)
  take_id-Keeps peer current alias = and_then-Keeps (leave_current-Keeps current peer) (
      and_then-Keeps (bind-Keeps session peer) (
        then-Keeps (ask-Keeps _) (λ known.
          and_then-Keeps (when-Keeps (not known) (on_hub-Keeps _)) (
            and_then-Keeps (change-Keeps (clear_suppress session) (Uses.allows session)) (
              and_then-Keeps (on_hub-Keeps _)
                (and_then-Keeps (set_if_given-Keeps peer alias) (return-Keeps peer)))))))

  claim_id-Keeps : (peer : String) (alias : Option String) → Keeps (claim_id env session peer alias)
  claim_id-Keeps peer alias = and_then-Keeps (require_not-Keeps _ _) (
      and_then-Keeps (require_not-Keeps _ _) (
        and_then-Keeps (require_not-Keeps _ _) (
          then-Keeps (read_alias-Keeps alias) (λ cleaned. then-Keeps (ask-Keeps _) (λ token.
            and_then-Keeps (keep_token-Keeps token peer) (
              then-Keeps (ask-Keeps _) (λ current. then-Keeps (ask-Keeps _) (λ held.
                and_then-Keeps (require_not-Keeps _ _) (
                  then-Keeps (ask-Keeps _) (λ attached.
                    and_then-Keeps (require_not-Keeps _ _)
                      (take_id-Keeps peer current cleaned)))))))))))

  claim_some-Keeps : (peer alias : Option String) → Keeps (claim_some env session peer alias)
  claim_some-Keeps none alias = fail-Keeps _
  claim_some-Keeps (some peer) alias = claim_id-Keeps peer alias

  bridge_register-Keeps :
      (peer alias : Option String) → Keeps (bridge_register env session peer alias)
  unfolding bridge_register
  bridge_register-Keeps peer alias = then-Keeps (ask-Keeps _) (λ bound. claim_some-Keeps _ alias)

  leave_hub-Keeps : (peer : Option String) → Keeps (leave_hub env session peer)
  leave_hub-Keeps none = return-Keeps tt
  leave_hub-Keeps (some peer) =
      and_then-Keeps (change-Keeps (unbind_peer session) (Uses.unbinds session))
        (then-Keeps (ask-Keeps _) (λ deserted. when-Keeps deserted (on_hub-Keeps _)))

  kick-Keeps :
      (options : ToolOptions) (target : String) (caller : Option String)
      → Keeps (kick env session options target caller)
  kick-Keeps options target none = fail-Keeps _
  kick-Keeps options target (some caller) = then-Keeps (ask-Keeps _) (λ manager.
      and_then-Keeps (require_not-Keeps (not manager) _) (
        then-Keeps (ask-Keeps _) (λ here.
          if-Keeps here
            (and_then-Keeps (on_hub-Keeps _) (
              and_then-Keeps
                (change-Keeps (λ r. (unbind_peer_id target true r).1)
                  (Uses.unbinds_all target true))
                (return-Keeps (some target))))
            (return-Keeps none))))

  bridge_unregister-Keeps :
      (options : ToolOptions) (target : Option String)
      → Keeps (bridge_unregister env session options target)
  unfolding bridge_unregister
  bridge_unregister-Keeps options none = then-Keeps (ask-Keeps _) (λ peer.
      and_then-Keeps (leave_hub-Keeps peer) (
        and_then-Keeps (change-Keeps (suppress_auto session) (Uses.suppresses session))
          (return-Keeps peer)))
  bridge_unregister-Keeps options (some target) =
      then-Keeps (ask-Keeps _) (λ caller. kick-Keeps options target caller)

-- Registering, leaving, kicking and being registered on connecting change the registry of sessions only by
-- the operations that `Uses` lists, whether they return or throw.
tools-RanWithin :
    (env : Env) (random : String) (options : ToolOptions)
    (session peer alias name version : Option String) (w : World)
    → RanWithin w.0 (bridge_register env session peer alias w)
      × RanWithin w.0 (bridge_unregister env session options peer w)
      × RanWithin w.0 (auto_register_peer env random session name version w)
tools-RanWithin env random options session peer alias name version w = (
  (bridge_register-Keeps env session peer alias).within w,
  (bridge_unregister-Keeps env session options peer).within w,
  (auto_register_peer-Keeps env random session name version).within w,
)
