-- ===== src/Sessions/Sweep.antt =====
-- What `SessionRegistry.sweep` of src/mcp-server.ts forgets.
use agent_comm_hub.Prelude.{
  ℕ, ◌≡◌, refl, ap, subst, String, str_eq, str-cases, ◌==◌, if◌then◌else◌, Bool, true, false,
  Bool-cases, inl, inr, none, List, [], ◌∷◌, includes, includes-remove, ◌&&◌, ◌||◌, not, arith,
}
use agent_comm_hub.Dict.{get}
use agent_comm_hub.Dict.Laws.{get-delete, get_or-delete}
use agent_comm_hub.Sessions.{SessionRegistry, forget, is_finished, sweep, sweep_list}

-- The second registry holds of `session` what the first does, or, when it is gone, nothing.
abbrev pub Forgets : Bool → String → SessionRegistry → SessionRegistry → Type 0
Forgets gone session r r' =
    (includes r'.sessions session ≡ (not gone && includes r.sessions session))
    × (get session r'.last_used_at ≡ (if gone then none else get session r.last_used_at))
    × (get session r'.peer_bindings ≡ (if gone then none else get session r.peer_bindings))
    × (get session r'.client_names ≡ (if gone then none else get session r.client_names))
    × (get session r'.client_versions ≡ (if gone then none else get session r.client_versions))
    × (get session r'.session_ips ≡ (if gone then none else get session r.session_ips))
    × (get session r'.token_bindings ≡ (if gone then none else get session r.token_bindings))
    × (includes r'.manager_sessions session ≡ (not gone && includes r.manager_sessions session))
    × (includes r'.suppressed_auto session ≡ (not gone && includes r.suppressed_auto session))
    × (r'.live_streams ≡ r.live_streams)

forget-Forgets :
    (session j : String) (r : SessionRegistry) → Forgets (str_eq session j) j r (forget session r)
forget-Forgets session j r = (
  includes-remove session r.sessions j,
  get-delete j session r.last_used_at,
  get-delete j session r.peer_bindings,
  get-delete j session r.client_names,
  get-delete j session r.client_versions,
  get-delete j session r.session_ips,
  get-delete j session r.token_bindings,
  includes-remove session r.manager_sessions j,
  includes-remove session r.suppressed_auto j,
  refl,
)

none-Forgets : (j : String) (r : SessionRegistry) → Forgets false j r r
none-Forgets j r = (refl, refl, refl, refl, refl, refl, refl, refl, refl, refl)

Forgets-trans :
    (a b : Bool) (j : String) (r r' r'' : SessionRegistry)
    → Forgets a j r r'
    → Forgets b j r' r''
    → Forgets (a || b) j r r''
Forgets-trans true true j r r' r'' h k = ground arith
Forgets-trans true false j r r' r'' h k = ground arith
Forgets-trans false true j r r' r'' h k = ground arith
Forgets-trans false false j r r' r'' h k = ground arith

is_finished-forget :
    (now ttl : ℕ) (session j : String) (r : SessionRegistry)
    → is_finished now ttl (forget session r) j ≡ (not (str_eq session j) && is_finished now ttl r j)
is_finished-forget now ttl session j r = ground (arith, get_or-delete j session now r.last_used_at)

-- A session of the list is removed when it is finished, and no other is.
abbrev Sweeps :
    ℕ → ℕ → List String → SessionRegistry → String → List String × SessionRegistry → Type 0
Sweeps now ttl ss r j (removed, r') =
    let gone = includes ss j && is_finished now ttl r j in
    (includes removed j ≡ gone) × Forgets gone j r r'

-- Whether a session is gone after the first of the list is forgotten and the others are swept.
gone-cons :
    (now ttl : ℕ) (s : String) (ss : List String) (r : SessionRegistry) (j : String)
    → is_finished now ttl r s ≡ true
    → (includes (s ∷ ss) j && is_finished now ttl r j)
      ≡ (str_eq s j || (includes ss j && is_finished now ttl (forget s r) j))
gone-cons now ttl s ss r j e = rw (is_finished-forget now ttl s j r) (elim (str-cases s j) [
  | inl (same, p) ↦
      let ended : is_finished now ttl r j ≡ true =
        subst (λ k. is_finished now ttl r k ≡ true) p e in
      rw (same, ended) refl
  | inr (other, n) ↦ rw other refl
])

gone-skip :
    (now ttl : ℕ) (s : String) (ss : List String) (r : SessionRegistry) (j : String)
    → is_finished now ttl r s ≡ false
    → (includes (s ∷ ss) j && is_finished now ttl r j) ≡ (includes ss j && is_finished now ttl r j)
gone-skip now ttl s ss r j e = elim (str-cases s j) [
  | inl (same, p) ↦
      let kept : is_finished now ttl r j ≡ false =
        subst (λ k. is_finished now ttl r k ≡ false) p e in
      elim (Bool-cases (includes ss j)) [
        | inl h ↦ rw (same, kept, h) refl
        | inr h ↦ rw (same, kept, h) refl
      ]
  | inr (other, n) ↦ rw other refl
]

sweep_list-Sweeps :
    (now ttl : ℕ) (ss : List String) (r : SessionRegistry) (j : String)
    → Sweeps now ttl ss r j (sweep_list now ttl ss r)
unfolding sweep_list
sweep_list-Sweeps now ttl [] r j = (refl, none-Forgets j r)
sweep_list-Sweeps now ttl (s ∷ ss) r j = elim (Bool-cases (is_finished now ttl r s)) [
  | inl done ↦
      let rest = sweep_list-Sweeps now ttl ss (forget s r) j in
      rw (done, gone-cons now ttl s ss r j done)
        (
          ap (λ b. str_eq s j || b) rest.0,
          Forgets-trans (str_eq s j) _ j r (forget s r) _ (forget-Forgets s j r) rest.1,
        )
  | inr kept ↦ rw (kept, gone-skip now ttl s ss r j kept) (sweep_list-Sweeps now ttl ss r j)
]

-- A sweep returns the known sessions that have no live stream and were last used more than `ttl`
-- before, unless `ttl` is 0, when it returns none. It drops everything that the registry holds of
-- those, and it keeps everything that it holds of any other session and all live streams.
pub sweep-Forgets :
    (now ttl : ℕ) (r : SessionRegistry) (session : String)
    → let gone = not (ttl == 0) && includes r.sessions session && is_finished now ttl r session in
      (includes (sweep now ttl r).0 session ≡ gone) × Forgets gone session r (sweep now ttl r).1
unfolding sweep
sweep-Forgets now ttl r session = elim (Bool-cases (ttl == 0)) [
  | inl off ↦ rw off (refl, none-Forgets session r)
  | inr on ↦ rw on (sweep_list-Sweeps now ttl r.sessions r session)
]
