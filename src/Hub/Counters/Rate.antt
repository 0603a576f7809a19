-- ===== src/Hub/Counters/Rate.antt =====
-- The token bucket of a mailbox.
use agent_comm_hub.Prelude.{
  ℕ, ◌+◌, ◌-◌, ◌*◌, ◌<◌, min, ◌≡◌, ◌⊎◌, refl, String, eq_refl, ltb, leb, Bool, true, false, arith,
  or_default, Bool-cases, inl, inr,
}
use agent_comm_hub.Dict.{get_or}
use agent_comm_hub.Dict.Laws.{get_or-set}
use agent_comm_hub.Hub.State.{Env, AgentHub, Bucket}
use agent_comm_hub.Hub.Counters.{token, refill, spend, take_token}

-- The rate of the options, and the bucket of a peer, which is full before its first use.
abbrev pub rate_of : Env → ℕ
rate_of env = or_default env.options.rate_per_min 0

abbrev pub bucket_of : Env → String → AgentHub → Bucket
bucket_of env peer h =
    get_or peer (record { tokens = rate_of env * token; last = env.now }) h.buckets

abbrev pub cost : Bool → ℕ
cost true = token
cost false = 0

-- What taking a token does, by its answer and the bucket before and after.
pub record Taken (env : Env) (before after : Bucket) (allowed : Bool) : Type 0 where
  pub at : after.last ≡ env.now
  pub paid :
      after.tokens + cost allowed
      ≡ min (rate_of env * token) (before.tokens + (env.now - before.last) * rate_of env)
  pub refused_below : (allowed ≡ true) ⊎ (after.tokens < token)

spend-Taken :
    (env : Env) (peer : String) (tokens : ℕ) (h : AgentHub)
    → tokens ≡ refill (rate_of env) env.now (bucket_of env peer h)
    → let r = spend peer env.now tokens h in
      Taken env (bucket_of env peer h) (bucket_of env peer r.1) r.0
unfolding spend
spend-Taken env peer tokens h e = elim (Bool-cases (ltb tokens token)) [
  | inl poor ↦
      rw
        (
          poor,
          get_or-set peer peer (record { tokens = tokens; last = env.now })
              (record { tokens = rate_of env * token; last = env.now }) h.buckets,
          eq_refl peer,
        )
        (record { at = refl; paid = omega (arith, e); refused_below = inr (ground arith) })
  | inr rich ↦
      rw
        (
          rich,
          get_or-set peer peer (record { tokens = tokens - token; last = env.now })
              (record { tokens = rate_of env * token; last = env.now }) h.buckets,
          eq_refl peer,
        )
        (record { at = refl; paid = ground (arith, e); refused_below = inl refl })
]

-- A mailbox with a rate limit pays one token for each message it takes, out of a bucket that holds
-- at most one minute's worth and refills with the time passed; it refuses a message only when less
-- than one token is left.
pub take_token-Taken :
    (env : Env) (peer : String) (h : AgentHub)
    → 0 < rate_of env
    → let r = take_token env peer h in Taken env (bucket_of env peer h) (bucket_of env peer r.1) r.0
unfolding take_token
take_token-Taken env peer h pos =
    let limited : leb (rate_of env) 0 ≡ false = ground arith in
    rw limited (spend-Taken env peer _ h refl)
