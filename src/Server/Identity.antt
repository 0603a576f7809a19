-- ===== src/Server/Identity.antt =====
-- src/index.ts, `startHub`: how the server of a hub tells who a request is from. The token table is the
-- one that `watchTokenFile` holds.
use agent_comm_hub.Prelude.{
  ◌≡◌, refl, sym, ◌∙◌, subst, String, str_eq, if◌then◌else◌, Bool, true, false, Bool-cases, inl,
  inr, Option, none, some, [], ◌∷◌, All, arith,
}
use agent_comm_hub.Dict.{get}
use agent_comm_hub.Auth.{TokenIdentity, TokenRole, Table, authenticate}
use agent_comm_hub.Server.{Request, Config}
use agent_comm_hub.Server.Headers.{bearer_from_headers}
use agent_comm_hub.Server.Bound.{anon_join_peer, MarksWalkIns}

abbrev walk_in : TokenIdentity
walk_in = record { peer = anon_join_peer; role = TokenRole.agent; owner = none; anonymous = true }

abbrev pub by_token : Table → Bool → Option String → Option TokenIdentity
by_token table allow_join none = if allow_join then some walk_in else none
by_token table allow_join (some token) = authenticate (some token) table

unfoldable pub identity_for : Option Table → Bool → Option (Request → Option TokenIdentity)
unfolding authenticate
identity_for none allow_join = if allow_join then some (λ req. some walk_in) else none
identity_for (some table) allow_join =
    some (λ req. by_token table allow_join (bearer_from_headers req.authorization))

-- No entry of a table is a walk-in's.
abbrev pub NoWalkIn : Table → Type 0
NoWalkIn = All (λ e. e.1.anonymous ≡ false)

-- What is not anonymous, or is the walk-in.
abbrev Marked : Option TokenIdentity → Type 0
Marked none = Unit
Marked (some i) = i.anonymous ≡ true → i.peer ≡ anon_join_peer

get-Marked : (k : String) (table : Table) → NoWalkIn table → Marked (get k table)
unfolding get
get-Marked k [] h = tt
get-Marked k ((j, i) ∷ table) h = elim (Bool-cases (str_eq j k)) [
  | inl same ↦ rw same (λ w. absurd (ground (arith, w, h.0)))
  | inr other ↦ rw other (get-Marked k table h.1)
]

by_token-Marked :
    (table : Table) (allow_join : Bool) (token : Option String)
    → NoWalkIn table
    → Marked (by_token table allow_join token)
unfolding authenticate
by_token-Marked table true none h = λ w. refl
by_token-Marked table false none h = tt
by_token-Marked table allow_join (some t) h = get-Marked t table h

abbrev AllMarked : Option (Request → Option TokenIdentity) → Type 0
AllMarked none = Unit
AllMarked (some authenticate) = (req : Request) → Marked (authenticate req)

identity_for-AllMarked :
    (tokens : Option Table) (allow_join : Bool)
    → ((table : Table) → tokens ≡ some table → NoWalkIn table)
    → AllMarked (identity_for tokens allow_join)
unfolding identity_for
identity_for-AllMarked none true h = λ req w. refl
identity_for-AllMarked none false h = tt
identity_for-AllMarked (some table) allow_join h =
    λ req. by_token-Marked table allow_join _ (h table refl)

-- The walk-ins that a hub's server lets in all have the peer that stands for one.
pub identity_for-MarksWalkIns :
    {H : Type 0} (config : Config H) (tokens : Option Table) (allow_join : Bool)
    → config.authenticate ≡ identity_for tokens allow_join
    → ((table : Table) → tokens ≡ some table → NoWalkIn table)
    → MarksWalkIns config
identity_for-MarksWalkIns config tokens allow_join e h =
    λ f req i known presented. marked (f req) i presented (all_marked f (sym e ∙ known) req)
  where
    marked :
        (o : Option TokenIdentity) (i : TokenIdentity)
        → o ≡ some i
        → Marked o
        → i.anonymous ≡ true
        → i.peer ≡ anon_join_peer
    marked o i p m = subst Marked p m

    all_marked :
        (f : Request → Option TokenIdentity)
        → identity_for tokens allow_join ≡ some f
        → (req : Request) → Marked (f req)
    all_marked f p = subst AllMarked p (identity_for-AllMarked tokens allow_join h)
