-- ===== src/Tools.antt =====
-- src/hub-tools.ts: the tools by which a session takes a peer id and gives it up, `bridge_register`
-- and `bridge_unregister`, and `autoRegisterPeer` and `isManagerCaller`. A tool returns, or throws, and
-- leaves behind what it changed before; `runs_out` is the fuel of the hub's methods. An argument that is
-- present is taken as a text. The random ids are arguments.
pub mod Names
pub mod Keeps
pub mod Returns
pub mod Claims
mod Tests
use agent_comm_hub.Prelude.{
  ℕ, ◌+◌, String, str_eq, ltb, leb, ◌==◌, if◌then◌else◌, Bool, true, false, ◌&&◌, ◌||◌, not, Option,
  none, some, List, includes, length, or_default,
}
use agent_comm_hub.Protocol.{broadcast, hub_peer}
use agent_comm_hub.Protocol.Ids.{is_peer_id}
use agent_comm_hub.Dict.{get, has}
use agent_comm_hub.Auth.{TokenIdentity, TokenRole, Result, ok, err}
use agent_comm_hub.Sessions.{
  SessionRegistry, BindError, peer_for, bind_peer, unbind_peer, token_for, is_suppressed,
  suppress_auto, clear_suppress, is_manager_session, attached_count, unbind_peer_id, rebind_peer_id,
}
use agent_comm_hub.Hub.State.{Env, AgentHub}
use agent_comm_hub.Hub.Outcome.{M, Error, Outcome, done, threw, exhausted, modify}
use agent_comm_hub.Hub.Registry.{
  register, unregister, touch, set_alias, owns_mailbox, is_parked, is_registered,
}
use agent_comm_hub.Hub.Renaming.{rename_peer}
use agent_comm_hub.Server.Bound.{anon_join_peer}
use Names.{AliasError, sanitize_alias, sanitize_peer_id, with_suffix}

pub data ToolError : Type 0 where
  no_peer_to_register invalid_peer_id reserved_id not_registered not_a_manager taken parked :
      ToolError
  bound_to_token : String → ToolError
  bad_alias : AliasError → ToolError
  of_hub : Error → ToolError
  of_registry : BindError → ToolError

abbrev pub World : Type 0
World = SessionRegistry × AgentHub

pub data Ran (A : Type 0) : Type 0 where
  returns : A → World → Ran A
  throws : ToolError → World → Ran A
  runs_out : Ran A

abbrev pub T : Type 0 → Type 0
T A = World → Ran A

abbrev pub ran_then : {A B : Type 0} → Ran A → (A → T B) → Ran B
ran_then (returns a w) f = f a w
ran_then (throws e w) f = throws e w
ran_then runs_out f = runs_out

infixl 5 ◌>>=◌ ◌>>◌
unfoldable pub ◌>>=◌ : {A B : Type 0} → T A → (A → T B) → T B
◌>>=◌ m f w = ran_then (m w) f

unfoldable pub ◌>>◌ : {A B : Type 0} → T A → T B → T B
◌>>◌ m k w = ran_then (m w) (λ _. k)

unfoldable pub return : {A : Type 0} → A → T A
return a w = returns a w

unfoldable pub fail : {A : Type 0} → ToolError → T A
fail e w = throws e w

unfoldable pub when : Bool → T (Unit {0}) → T (Unit {0})
when true t = t
when false t = return tt

unfoldable pub ask : {A : Type 0} → (SessionRegistry → AgentHub → A) → T A
ask f (r, h) = returns (f r h) (r, h)

unfoldable pub change : (SessionRegistry → SessionRegistry) → T (Unit {0})
change f (r, h) = returns tt (f r, h)

abbrev pub from_hub : {A : Type 0} → SessionRegistry → Outcome A → Ran A
from_hub r (done a h) = returns a (r, h)
from_hub r (threw e h) = throws (ToolError.of_hub e) (r, h)
from_hub r exhausted = runs_out

unfoldable pub on_hub : {A : Type 0} → M A → T A
on_hub m (r, h) = from_hub r (m h)

abbrev pub from_registry :
    SessionRegistry × AgentHub → Result BindError SessionRegistry → Ran (Unit {0})
from_registry (r, h) (ok r') = returns tt (r', h)
from_registry (r, h) (err e) = throws (ToolError.of_registry e) (r, h)

unfoldable pub bind : Option String → String → T (Unit {0})
bind session peer w = from_registry w (bind_peer session peer w.0)

-- `managers` is `managerPeers`, with `none` for 'all'.
pub record ToolOptions : Type 0 where
  pub managers : Option (List String)
  pub manager_token_required : Bool

abbrev is_manager_token : Option TokenIdentity → Bool
is_manager_token none = false
is_manager_token (some i) = elim i.role [ TokenRole.agent ↦ false | TokenRole.manager ↦ true ]

abbrev lists_peer : Option (List String) → Option String → Bool
lists_peer none peer = true
lists_peer (some managers) none = false
lists_peer (some managers) (some peer) = includes managers peer

unfoldable pub is_manager_caller :
    ToolOptions → Option String → Option String → SessionRegistry → Bool
is_manager_caller options session peer r =
    if is_manager_token (token_for session r)
    then true
    else (if options.manager_token_required
        then is_manager_session session r
        else lists_peer options.managers peer)

abbrev derive : String → Option String → Option TokenIdentity → String
derive random client none = sanitize_peer_id (or_default client "agent")
derive random client (some i) =
    if str_eq i.peer anon_join_peer
    then with_suffix "join-" (sanitize_peer_id (or_default client "agent")) random
    else i.peer

abbrev unreserved : String → AgentHub → String → String
unreserved random h derived =
    if str_eq derived broadcast || str_eq derived hub_peer || has derived h.groups
    then with_suffix "agent" "" random
    else derived

module _ (env : Env) (random : String) where
  abbrev pub join_as : String → String → Option String → Option String → T (Option String)
  join_as session peer name version = do
    known ← ask (λ r h. is_registered peer h)
    when (not known) (on_hub (register env peer name version true))
    bind (some session) peer
    on_hub (modify (touch env peer))
    return (some peer)

  abbrev pub join_fresh : String → Option String → Option String → T (Option String)
  join_fresh session name version = do
    peer ← ask (λ r h. unreserved random h (derive random name (token_for (some session) r)))
    join_as session peer name version

  abbrev pub join_unbound :
      String → Option String → Option String → Option String → Bool → T (Option String)
  join_unbound session name version (some bound) suppressed = return (some bound)
  join_unbound session name version none true = return none
  join_unbound session name version none false = join_fresh session name version

  unfoldable pub auto_register_peer :
      Option String → Option String → Option String → T (Option String)
  auto_register_peer none name version = return none
  auto_register_peer (some session) name version = do
    bound ← ask (λ r h. peer_for (some session) r)
    suppressed ← ask (λ r h. is_suppressed (some session) r)
    join_unbound session name version bound suppressed

unfoldable pub require_not : Bool → ToolError → T (Unit {0})
require_not true e = fail e
require_not false e = return tt

-- A session with a token has the identity of the token.
unfoldable pub keep_token : Option TokenIdentity → String → T (Unit {0})
keep_token none peer = return tt
keep_token (some i) peer = require_not (not (str_eq peer i.peer)) (ToolError.bound_to_token i.peer)

abbrev pub cleaned : Result AliasError String → T (Option String)
cleaned (ok alias) = return (some alias)
cleaned (err e) = fail (ToolError.bad_alias e)

unfoldable pub read_alias : Option String → T (Option String)
read_alias none = return none
read_alias (some alias) = cleaned (sanitize_alias alias)

abbrev pub is_bound_to : Option String → String → Bool
is_bound_to none peer = false
is_bound_to (some bound) peer = str_eq bound peer

unfoldable pub set_if_given : String → Option String → T (Unit {0})
set_if_given peer none = return tt
set_if_given peer (some alias) = on_hub (set_alias peer (some alias))

module _ (env : Env) (session : Option String) where
  -- Leaves the current id: its only session takes everything along, another one leaves it to the rest.
  abbrev pub leave_current : Option String → String → T (Unit {0})
  leave_current none peer = return tt
  leave_current (some current) peer = if str_eq current peer then return tt else (do
    sole ← ask (λ r h. attached_count current r == 1)
    if sole
        then (do
          on_hub (rename_peer env current peer)
          change (λ r. (rebind_peer_id current peer r).1))
        else (do
          change (unbind_peer session)
          deserted ← ask (λ r h. attached_count current r == 0)
          when deserted (on_hub (unregister env current false))))

  -- What is done once no guard refuses.
  abbrev pub take_id : String → Option String → Option String → T String
  take_id peer current alias = do
    leave_current current peer
    bind session peer
    known ← ask (λ r h. is_registered peer h)
    when (not known) (on_hub (register env peer none none true))
    change (clear_suppress session)
    on_hub (modify (touch env peer))
    set_if_given peer alias
    return peer

  abbrev pub claim_id : String → Option String → T String
  claim_id peer given_alias = do
    require_not (not (is_peer_id peer)) ToolError.invalid_peer_id
    require_not (str_eq peer broadcast) ToolError.reserved_id
    require_not (str_eq peer hub_peer) ToolError.reserved_id
    alias ← read_alias given_alias
    token ← ask (λ r h. token_for session r)
    keep_token token peer
    current ← ask (λ r h. peer_for session r)
    held ← ask (λ r h. is_registered peer h)
    require_not (held && not (is_bound_to current peer)) ToolError.taken
    attached ← ask (λ r h. owns_mailbox peer h && ltb 0 (attached_count peer r))
    require_not (attached && not (is_bound_to current peer)) ToolError.parked
    take_id peer current alias

  abbrev pub claim_some : Option String → Option String → T String
  claim_some none alias = fail ToolError.no_peer_to_register
  claim_some (some peer) alias = claim_id peer alias

  abbrev pub or_bound : Option String → Option String → Option String
  or_bound none bound = bound
  or_bound (some peer) bound = some peer

  -- The tool's result, the profile's alias and the peers, is read from the hub afterwards.
  unfoldable pub bridge_register : Option String → Option String → T String
  bridge_register peer alias = do
    bound ← ask (λ r h. peer_for session r)
    claim_some (or_bound peer bound) alias

  abbrev pub leave_hub : Option String → T (Unit {0})
  leave_hub none = return tt
  leave_hub (some peer) = do
    change (unbind_peer session)
    deserted ← ask (λ r h. attached_count peer r == 0)
    when deserted (on_hub (unregister env peer false))

  abbrev pub kick : ToolOptions → String → Option String → T (Option String)
  kick options target none = fail ToolError.not_registered
  kick options target (some caller) = do
    manager ← ask (λ r h. is_manager_caller options session (some caller) r)
    require_not (not manager) ToolError.not_a_manager
    here ← ask (λ r h. is_registered target h || is_parked target h)
    if here
        then (do
          on_hub (unregister env target false)
          change (λ r. (unbind_peer_id target true r).1)
          return (some target))
        else return none

  -- The peer that has left or was kicked.
  unfoldable pub bridge_unregister : ToolOptions → Option String → T (Option String)
  bridge_unregister options none = do
    peer ← ask (λ r h. peer_for session r)
    leave_hub peer
    change (suppress_auto session)
    return peer
  bridge_unregister options (some target) = do
    caller ← ask (λ r h. peer_for session r)
    kick options target caller
