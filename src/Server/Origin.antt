-- ===== src/Server/Origin.antt =====
-- src/mcp-server.ts: `originAllowed` and `corsFor`.
use agent_comm_hub.Prelude.{
  String, opt_str_eq, if◌then◌else◌, Bool, true, false, Option, none, some, includes, ◌&&◌, ◌||◌,
  not, any, ◌==◌,
}
use agent_comm_hub.Protocol.Ids.{codes}
use agent_comm_hub.Auth.{TokenIdentity}
use agent_comm_hub.Server.{Request, Config, AllowedOrigins}
use agent_comm_hub.Server.Headers.{header_value, is_loopback_host, is_space}

abbrev pub is_listed : Option AllowedOrigins → String → Bool
is_listed none origin = false
is_listed (some AllowedOrigins.every) origin = true
is_listed (some (AllowedOrigins.listed origins)) origin = includes origins origin

-- `,` or a space, which joined headers have
abbrev is_joined : String → Bool
is_joined origin = any (λ c. c == b',' || is_space c) (codes origin)

-- An identity that a credential gave, not a walk-in's.
abbrev pub is_proven : Option TokenIdentity → Bool
is_proven none = false
is_proven (some i) = not i.anonymous

module _ {H : Type 0} (config : Config H) where
  abbrev pub presented_identity : Request → Option TokenIdentity
  presented_identity req = elim config.authenticate [
    | none ↦ none
    | some authenticate ↦ authenticate req
  ]

  abbrev pub same_host : String → Option String → Bool
  same_host origin_host none = false
  same_host origin_host (some host) = opt_str_eq (config.host_of_header host) (some origin_host)

  abbrev host_allowed : Request → Option String → Bool
  host_allowed req none = false
  host_allowed req (some origin_host) =
      is_loopback_host origin_host
      || (is_proven (presented_identity req) && same_host origin_host (header_value req.host))

  abbrev allowed : Request → Option String → Bool
  allowed req none = true
  allowed req (some origin) =
      is_listed config.origin_policy origin
      || (not (is_joined origin) && host_allowed req (config.host_of_origin origin))

  unfoldable pub origin_allowed : Request → Bool
  unfolding header_value is_loopback_host
  origin_allowed req = allowed req (header_value req.origin)

  -- The origin that the answer echoes.
  abbrev pub cors_for : Request → Option String
  cors_for req = if origin_allowed req then header_value req.origin else none
