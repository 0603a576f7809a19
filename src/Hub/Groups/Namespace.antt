-- ===== src/Hub/Groups/Namespace.antt =====
-- Group ids and peer ids stay apart.
use agent_comm_hub.Prelude.{◌≡◌, String, eq_iff, Bool, false, ◌&&◌, ◌||◌, Option, List, arith}
use agent_comm_hub.Dict.{has}
use agent_comm_hub.Dict.Laws.{has-set, has-delete}
use agent_comm_hub.Hub.State.{Env, AgentHub, GroupState}
use agent_comm_hub.Hub.Outcome.{Outcome, done, threw, exhausted}
use agent_comm_hub.Hub.Events.{record_event}
use agent_comm_hub.Hub.Registry.{register, join, owns_mailbox}
use agent_comm_hub.Hub.Registry.Profiles.{evict_overflow_profiles}
use agent_comm_hub.Hub.Groups.{create_group, put_group, new_group}

-- What a method leaves behind, whether it returned or threw.
abbrev pub final {ℓ} : {A : Type ℓ} → AgentHub → Outcome A → AgentHub
final h (done a h') = h'
final h (threw e h') = h'
final h exhausted = h

-- No id is at once a group and a peer that is registered or has a mailbox.
pub record IsApart (h : AgentHub) : Type 0 where
  pub apart : (id : String) → (has id h.groups && (has id h.last_seen || owns_mailbox id h)) ≡ false

join-IsApart :
    (env : Env) (id : String) (name version : Option String) (h : AgentHub)
    → IsApart h
    → has id h.groups ≡ false
    → IsApart (join env id name version h)
unfolding join evict_overflow_profiles record_event
join-IsApart env id name version h a free = record {
  apart = λ j. ground (
    arith,
    has-set j id env.now h.last_seen,
    has-delete j id h.parked_at,
    eq_iff id j,
    a.apart j,
  );
}

-- If no id is at once a group and a peer that is registered or has a mailbox, then none is after
-- registering a peer, or refusing to.
pub register-IsApart :
    (env : Env) (id : String) (name version : Option String) (reclaim : Bool) (h : AgentHub)
    → IsApart h
    → IsApart (final h (register env id name version reclaim h))
unfolding register
register-IsApart env id name version reclaim h a =
    ground (arith, a, join-IsApart env id name version h a)

put_group-IsApart :
    (id : String) (g : GroupState) (h : AgentHub)
    → IsApart h
    → (has id h.last_seen || owns_mailbox id h || has id h.profiles) ≡ false
    → IsApart (put_group id g h)
put_group-IsApart id g h a free = record {
  apart = λ j. ground (arith, has-set j id g h.groups, eq_iff id j, a.apart j);
}

-- If no id is at once a group and a peer that is registered or has a mailbox, then none is after
-- creating a group, or refusing to.
pub create_group-IsApart :
    (env : Env) (id : String) (members : List String) (creator : String) (name : Option String)
    (h : AgentHub)
    → IsApart h
    → IsApart (final h (create_group env id members creator name h))
unfolding create_group
create_group-IsApart env id members creator name h a =
    ground (arith, a, put_group-IsApart id (new_group env id members creator name) h a)
