-- ===== src/Hub/Registry/Profiles.antt =====
-- src/hub.ts, the profiles, which outlive a registration: the profile that `register` writes,
-- `announceCard`, `evictOverflowProfiles` and `discover`.
use agent_comm_hub.Prelude.{
  ℕ, zero, suc, ◌-◌, String, str_eq, ltb, leb, if◌then◌else◌, Bool, true, false, ◌&&◌, ◌||◌, not,
  Option, none, some, List, [], ◌∷◌, ◌++◌, length, filter, any,
}
use agent_comm_hub.Protocol.Status.{is_terminal}
use agent_comm_hub.Dict.{Dict, get, set, has, delete, get_or, keys, values}
use agent_comm_hub.Hub.State.{Env, AgentHub, PeerProfile, PeerCard, Effect, emit, max_profiles}

-- The client's word wins; without it the stored one stays.
abbrev fresh_or : Option String → Option String → Option String
fresh_or none old = old
fresh_or (some s) old = some s

unfoldable pub joined_profile :
    ℕ → String → Option String → Option String → Option PeerProfile → PeerProfile
joined_profile now id name version none = record {
  id = id;
  alias = none;
  client_name = name;
  client_version = version;
  registered_at = now;
  card = none;
}
joined_profile now id name version (some p) = record p {
  id = id;
  client_name = fresh_or name p.client_name;
  client_version = fresh_or version p.client_version;
}

-- `sort((a, b) => a.registeredAt - b.registeredAt)`, which is stable.
abbrev insert_oldest : PeerProfile → List PeerProfile → List PeerProfile
insert_oldest p [] = p ∷ []
insert_oldest p (q ∷ qs) =
    if leb p.registered_at q.registered_at then p ∷ q ∷ qs else q ∷ insert_oldest p qs

oldest_first : List PeerProfile → List PeerProfile
oldest_first [] = []
oldest_first (p ∷ ps) = insert_oldest p (oldest_first ps)

delete_some : ℕ → List PeerProfile → Dict PeerProfile → Dict PeerProfile
delete_some zero ps d = d
delete_some (suc n) [] d = d
delete_some (suc n) (p ∷ ps) d = delete_some n ps (delete p.id d)

unfoldable pub evict_overflow_profiles : AgentHub → AgentHub
unfolding delete_some oldest_first
evict_overflow_profiles h =
    let evictable = filter (λ p. not (has p.id h.last_seen)) (values h.profiles) in
    record h {
      profiles = delete_some (length h.profiles - max_profiles) (oldest_first evictable) h.profiles;
    }

abbrev announced : ℕ → String → PeerCard → Option PeerProfile → PeerProfile
announced now id card none = record {
  id = id;
  alias = none;
  client_name = none;
  client_version = none;
  registered_at = now;
  card = some card;
}
announced now id card (some p) = record p { id = id; card = some card }

unfoldable pub announce_card : Env → String → PeerCard → AgentHub → PeerProfile × AgentHub
unfolding evict_overflow_profiles
announce_card env id card h =
    let profile = announced env.now id card (get id h.profiles) in
    let h1 = evict_overflow_profiles (record h { profiles = set id profile h.profiles }) in
    (profile, emit (Effect.on_peers_changed (keys h1.last_seen)) h1)

pub record DiscoverFilter : Type 0 where
  pub skill : Option String
  pub tag : Option String
  pub accepts_tasks : Option Bool
  pub idle_only : Bool

pub record Load : Type 0 where
  pub queued : ℕ
  pub waiting : ℕ
  pub running : ℕ

pub record Candidate : Type 0 where
  pub peer_id : String
  pub alias : Option String
  pub card : PeerCard
  pub load : Load

abbrev is_true : Option Bool → Bool
is_true (some true) = true
is_true _ = false

abbrev is_false : Option Bool → Bool
is_false (some false) = true
is_false _ = false

abbrev has_skill : Option String → PeerCard → Bool
has_skill none card = true
has_skill (some s) card = any (λ k. str_eq k.id s) card.skills

abbrev has_tag : Option String → PeerCard → Bool
has_tag none card = true
has_tag (some t) card = any (λ k. any (λ u. str_eq u t) k.tags) card.skills

unfoldable pub load_of : String → AgentHub → Load
load_of id h = record {
  queued = length (get_or id [] h.queues);
  waiting = length (get_or id [] h.waiters);
  running = length (
      filter (λ t. not (is_terminal t.status) && any (λ a. str_eq a.peer_id id) t.assignees)
        (values h.task_ledger));
}

abbrev is_busy : Load → Bool
is_busy l = ltb 0 l.queued || ltb 0 l.waiting || ltb 0 l.running

abbrev card_passes : DiscoverFilter → PeerCard → Bool
card_passes f card =
    (is_false f.accepts_tasks || is_true card.accepts_tasks)
    && has_skill f.skill card
    && has_tag f.tag card

abbrev offer : DiscoverFilter → PeerProfile → Option PeerCard → AgentHub → List Candidate
offer f p none h = []
offer f p (some card) h =
    if card_passes f card && not (f.idle_only && is_busy (load_of p.id h))
    then record { peer_id = p.id; alias = p.alias; card = card; load = load_of p.id h } ∷ []
    else []

discover_in : DiscoverFilter → List PeerProfile → AgentHub → List Candidate
discover_in f [] h = []
discover_in f (p ∷ ps) h = offer f p p.card h ++ discover_in f ps h

unfoldable pub discover : DiscoverFilter → AgentHub → List Candidate
unfolding discover_in load_of
discover f h = discover_in f (values h.profiles) h
