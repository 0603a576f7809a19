-- ===== src/Server/Headers.antt =====
-- src/mcp-server.ts: reading the headers of a request, and `isLoopbackHost`; src/auth.ts:
-- `bearerFromHeaders`. A header holds no line break.
use agent_comm_hub.Prelude.{
  ℕ, suc, ◌+◌, ◌*◌, ◌-◌, String, str_eq, leb, ltb, ◌==◌, if◌then◌else◌, Bool, true, false, Option,
  none, some, List, [], ◌∷◌, includes, ◌&&◌, ◌||◌, not, or_default,
}
use Prim.Native.Char.{Char, code}
use agent_comm_hub.Protocol.Ids.{codes, between}
use agent_comm_hub.Auth.{to_lower}
use agent_comm_hub.Server.{Request, Config}

-- `\s`, and what `trim` removes.
abbrev pub is_space : ℕ → Bool
is_space c =
    between 9 13 c
    || c == 32
    || c == 160
    || c == 5760
    || between 8192 8202 c
    || c == 8232
    || c == 8233
    || c == 8239
    || c == 8287
    || c == 12288
    || c == 65279

abbrev trim_start : String → String
trim_start String.[] = String.[]
trim_start (String.◌∷◌ c s) = if is_space (code c) then trim_start s else String.◌∷◌ c s

abbrev put : Char → String → String
put c String.[] = if is_space (code c) then String.[] else String.◌∷◌ c String.[]
put c s = String.◌∷◌ c s

abbrev trim_end : String → String
trim_end String.[] = String.[]
trim_end (String.◌∷◌ c s) = put c (trim_end s)

unfoldable pub trim : String → String
trim s = trim_end (trim_start s)

-- `headerValue`: absent and blank headers are the same.
unfoldable pub header_value : Option String → Option String
header_value none = none
header_value (some s) = if str_eq (trim s) "" then none else some (trim s)

-- What follows a word, whose letters are compared after `fold`.
abbrev after_word : (ℕ → ℕ) → List ℕ → String → Option String
after_word fold [] s = some s
after_word fold (w ∷ ws) String.[] = none
after_word fold (w ∷ ws) (String.◌∷◌ c s) =
    if fold (code c) == fold w then after_word fold ws s else none

-- `\s+(.+)$`, on a text that does not end in a space.
abbrev after_spaces : Option String → Option String
after_spaces none = none
after_spaces (some String.[]) = none
after_spaces (some (String.◌∷◌ c s)) =
    if is_space (code c) && not (str_eq (trim_start s) "") then some (trim_start s) else none

abbrev bearer_of : (ℕ → ℕ) → String → Option String
bearer_of fold s = after_spaces (after_word fold (codes "Bearer") s)

-- `bearerFromHeaders`
unfoldable pub bearer_from_headers : Option String → Option String
unfolding trim
bearer_from_headers none = none
bearer_from_headers (some raw) = bearer_of (λ c. c) (trim raw)

abbrev matches_secret : Option String → Option String → Bool
matches_secret (some presented) (some secret) = str_eq (trim presented) secret
matches_secret _ _ = false

abbrev bearer_any_case : Option String → Option String
bearer_any_case none = none
bearer_any_case (some header) = bearer_of to_lower header

unfoldable pub presented_manager_token : {H : Type 0} → Config H → Request → Bool
unfolding trim header_value
presented_manager_token config req =
    matches_secret (bearer_any_case (header_value req.authorization)) config.manager_token

abbrev pub supported_versions : List String
supported_versions = "2025-06-18" ∷ "2025-03-26" ∷ "2024-11-05" ∷ []

abbrev pub latest_version : String
latest_version = "2025-06-18"

abbrev pub speak : Option String → String
speak none = latest_version
speak (some v) = if includes supported_versions v then v else latest_version

abbrev pub message_protocol_version : Request → String
message_protocol_version req = speak req.protocol_version

-- The version of a request that is answered 400.
abbrev pub rejected_version : Option String → Option String
rejected_version none = none
rejected_version (some v) = if includes supported_versions v then none else some v

abbrev before_comma : String → String
before_comma String.[] = String.[]
before_comma (String.◌∷◌ c s) = if code c == b',' then String.[] else String.◌∷◌ c (before_comma s)

-- The remote address, without the prefix of an IPv4 address.
abbrev address_of : Option String → String
address_of none = "?"
address_of (some s) = or_default (after_word (λ c. c) (codes "::ffff:") s) s

unfoldable pub client_ip : Request → String
unfolding header_value trim
client_ip req = elim (header_value req.forwarded_for) [
  | none ↦ address_of req.remote_address
  | some _ ↦ trim (before_comma (or_default req.forwarded_for ""))
]

abbrev is_digit : ℕ → Bool
is_digit c = between b'0' b'9' c

-- `(\d{1,3})` up to the next dot or to the end, with its value: the digits read, and the value so far.
octets : ℕ → ℕ → ℕ → List ℕ → Bool
octets left digits value [] = left == 0 && ltb 0 digits && leb value 255
octets left digits value (c ∷ cs) =
    if c == b'.'
    then ltb 0 left && ltb 0 digits && leb value 255 && octets (left - 1) 0 0 cs
    else (is_digit c && ltb digits 3 && octets left (suc digits) (value * 10 + (c - b'0')) cs)

abbrev drop_last_dot : List ℕ → List ℕ
drop_last_dot [] = []
drop_last_dot (c ∷ []) = if c == b'.' then [] else c ∷ []
drop_last_dot (c ∷ cs) = c ∷ drop_last_dot cs

abbrev lower : List ℕ → List ℕ
lower [] = []
lower (c ∷ cs) = to_lower c ∷ lower cs

abbrev same_codes : List ℕ → List ℕ → Bool
same_codes [] [] = true
same_codes (a ∷ cs) (b ∷ ds) = a == b && same_codes cs ds
same_codes _ _ = false

-- `/^127\.(\d{1,3})\.(\d{1,3})\.(\d{1,3})$/`, each part at most 255
abbrev is_quad : List ℕ → Bool
is_quad (a ∷ b ∷ c ∷ d ∷ cs) = same_codes (a ∷ b ∷ c ∷ d ∷ []) (codes "127.") && octets 2 0 0 cs
is_quad _ = false

abbrev is_loopback_name : List ℕ → Bool
is_loopback_name name =
    same_codes name (codes "localhost")
    || same_codes name (codes "::1")
    || same_codes name (codes "[::1]")
    || is_quad name

-- `isLoopbackHost`. Lower case is taken of the ASCII letters, which the names compared with are.
unfoldable pub is_loopback_host : String → Bool
unfolding trim octets
is_loopback_host host = is_loopback_name (drop_last_dot (lower (codes (trim host))))
