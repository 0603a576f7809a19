-- ===== src/Server/Refusals.antt =====
-- src/mcp-server.ts: the requests that the server refuses for want of the session's identity.
use agent_comm_hub.Prelude.{
  ◌≡◌, ◌≢◌, ◌⊎◌, inl, inr, refl, sym, ◌∙◌, ap, if_true_holds, if_false_holds, str_eq-false, String,
  str_eq, true, false, Bool-cases, Option, none, some, ◌&&◌, arith, eq_iff,
}
use agent_comm_hub.Auth.{TokenIdentity, Result, err}
use agent_comm_hub.Sessions.{token_for}
use agent_comm_hub.Server.{Request, RpcError, Response, Config, McpServer}
use agent_comm_hub.Server.Origin.{origin_allowed}
use agent_comm_hub.Server.Handlers.{
  same_role, is_mismatch, check_owner, get_owned, post_owned, handle_get, handle_post,
}
use agent_comm_hub.Server.Bound.{same_role→≡}
use agent_comm_hub.Server.Routes.{on_request, on_mcp_path}

-- The identity is missing, or the session is bound to a token of another peer or role.
abbrev pub Stranger :
    {H : Type 0} → (Request → Option TokenIdentity) → Request → McpServer H → Type 0
Stranger authenticate req s =
    (authenticate req ≡ none)
    ⊎ ((i b : TokenIdentity) × (authenticate req ≡ some i)
        × (token_for req.session_id s.registry ≡ some b)
        × (b.anonymous ≡ false)
        × ((i.peer ≢ b.peer) ⊎ (i.role ≢ b.role)))

other-mismatch :
    (i b : TokenIdentity)
    → b.anonymous ≡ false
    → (i.peer ≢ b.peer) ⊎ (i.role ≢ b.role)
    → is_mismatch (some b) i ≡ true
other-mismatch i b a (inl n) = ground (arith, a, n, eq_iff b.peer i.peer)
other-mismatch i b a (inr n) = elim (Bool-cases (same_role b.role i.role)) [
  | inl same ↦ absurd (n (same_role→≡ b.role i.role same))
  | inr differ ↦ ground (arith, a, differ)
]

abbrev Refuses : {A : Type 0} → Result RpcError A → Type 0
Refuses r = (r ≡ err RpcError.unauthorized) ⊎ (r ≡ err RpcError.token_mismatch)

post_not_get : ◌≢◌ {A = String} "POST" "GET"
post_not_get e = let differ : false ≡ true = ap (λ s. str_eq s "GET") e in ground (arith, differ)

module _ {H : Type 0} (config : Config H) (req : Request) where
  check_owner-Refuses :
      (authenticate : Request → Option TokenIdentity) (s : McpServer H)
      → config.authenticate ≡ some authenticate
      → Stranger authenticate req s
      → Refuses (check_owner config req s.registry)
  unfolding check_owner
  check_owner-Refuses authenticate s remote (inl missing) = rw (remote, missing) (inl refl)
  check_owner-Refuses authenticate s remote (inr (i, b, known, bound, token, other)) =
      rw (remote, known, bound, other-mismatch i b token other) (inr refl)

  abbrev pub Answered401 : McpServer H → Response × McpServer H → Type 0
  Answered401 s out = (out.0.status ≡ 401) × (out.1 ≡ s)

  get-401 :
      (s : McpServer H) (owner : Result RpcError (Option TokenIdentity))
      → Refuses owner
      → Answered401 s (get_owned config req owner s)
  get-401 s owner (inl e) = rw e (refl, refl)
  get-401 s owner (inr e) = rw e (refl, refl)

  post-401 :
      (s : McpServer H) (owner : Result RpcError (Option TokenIdentity))
      → Refuses owner
      → Answered401 s (post_owned config req owner s)
  post-401 s owner (inl e) = rw e (refl, refl)
  post-401 s owner (inr e) = rw e (refl, refl)

  -- In remote mode, a request on the server's path that opens a stream or sends a message is answered
  -- 401 and changes nothing, where it comes from an allowed origin and either has no valid identity or
  -- is for a session that is bound to a token of another peer or role, and the path is not `/admin` or
  -- `/healthz`.
  pub on_request-refused :
      (authenticate : Request → Option TokenIdentity) (s : McpServer H)
      → config.authenticate ≡ some authenticate
      → origin_allowed config req ≡ true
      → req.path ≡ config.path
      → (config.path ≢ "/admin") × (config.path ≢ "/healthz")
      → (req.method ≡ "GET") ⊎ (req.method ≡ "POST")
      → Stranger authenticate req s
      → ((on_request config req s).0.status ≡ 401) × ((on_request config req s).1 ≡ s)
  unfolding on_request handle_get handle_post
  on_request-refused authenticate s remote allowed path (admin, health) method stranger =
      if_true_holds Refused _ _ _ allowed (
        if_false_holds Refused _ _ _
          (ap (λ b. b && str_eq req.method "GET")
            (str_eq-false req.path "/admin" (λ e. admin (sym path ∙ e))))
          (if_false_holds Refused _ _ _
            (str_eq-false req.path "/healthz" (λ e. health (sym path ∙ e)))
            (if_true_holds Refused _ _ _ ((eq_iff req.path config.path).1 path)
              (by_method method))))
    where
      Refused : Response × McpServer H → Type 0
      Refused = Answered401 s

      refusal : Refuses (check_owner config req s.registry)
      refusal = check_owner-Refuses authenticate s remote stranger

      by_method :
          (req.method ≡ "GET") ⊎ (req.method ≡ "POST") → Answered401 s (on_mcp_path config req s)
      by_method (inl get_method) =
          if_true_holds Refused _ _ _ ((eq_iff req.method "GET").1 get_method) (get-401 s _ refusal)
      by_method (inr post_method) =
          if_false_holds Refused _ _ _
            (str_eq-false req.method "GET" (λ e. post_not_get (sym post_method ∙ e)))
            (if_true_holds Refused _ _ _ ((eq_iff req.method "POST").1 post_method)
              (post-401 s _ refusal))
