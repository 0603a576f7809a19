-- ===== src/Auth.antt =====
-- src/auth.ts, the token table: `loadTokenFile`, `readTokens`, `addToken`, `removeToken`,
-- `loadTokenFileVoid`, and the look-up of `tokenTable` and `watchTokenFile`. The file is missing,
-- holds what `JSON.parse` returns, or holds text that it rejects. The warning about the file's
-- mode, the timer that polls its time and `bearerFromHeaders` are not modelled; the token that
-- `generateToken` makes is an argument.
pub mod Agreement
pub mod Identity
pub mod Roundtrip
mod Tests
use agent_comm_hub.Prelude.{
  ℕ, suc, ◌+◌, String, str_eq, leb, ◌==◌, if◌then◌else◌, Bool, true, false, ◌&&◌, ◌||◌, not, Option,
  none, some, List, [], ◌∷◌, ◌++◌, map, length, filter, includes, or_default,
}
use agent_comm_hub.Protocol.{broadcast, hub_peer}
use agent_comm_hub.Protocol.Ids.{codes, has_id_chars, is_peer_id}
use agent_comm_hub.Dict.{Dict, get, set, has}
use agent_comm_hub.Json.{Json, Fields, field, is_object, as_array, as_string, to_items}

pub data TokenRole : Type 0 where
  agent manager : TokenRole

-- `anonymous` is set for a walk-in that presented no token.
pub record TokenIdentity : Type 0 where
  pub peer : String
  pub role : TokenRole
  pub owner : Option String
  pub anonymous : Bool

pub record TokenRowJson : Type 0 where
  pub token : String
  pub peer : String
  pub role : TokenRole
  pub owner : Option String

-- Why an entry is refused, and why a file is.
pub data RowError : Type 0 where
  not_an_object invalid_token placeholder_token invalid_peer invalid_role invalid_owner
        duplicate_token duplicate_peer :
      RowError

pub data AuthError : Type 0 where
  unreadable expected_tokens no_tokens : AuthError
  bad_entry : ℕ → RowError → AuthError
  bad_row : RowError → AuthError
  peer_has_token : AuthError

pub data Result (E A : Type 0) : Type 0 where
  ok : A → Result E A
  err : E → Result E A

infixl 5 ◌>>=◌
abbrev pub ◌>>=◌ : {E A B : Type 0} → Result E A → (A → Result E B) → Result E B
ok a >>= f = f a
err e >>= f = err e

abbrev map_err : {E F A : Type 0} → (E → F) → Result E A → Result F A
map_err f (ok a) = ok a
map_err f (err e) = err (f e)

abbrev pub to_lower : ℕ → ℕ
to_lower c = if leb b'A' c && leb c b'Z' then c + 32 else c

abbrev starts_me : List ℕ → Bool
starts_me (m ∷ e ∷ _) = to_lower m == b'm' && to_lower e == b'e'
starts_me _ = false

-- `[-_]?ME`
abbrev starts_sep_me : List ℕ → Bool
starts_sep_me [] = false
starts_sep_me (c ∷ cs) = starts_me (c ∷ cs) || ((c == b'-' || c == b'_') && starts_me cs)

abbrev strip : List ℕ → List ℕ → Option (List ℕ)
strip [] cs = some cs
strip (w ∷ ws) [] = none
strip (w ∷ ws) (c ∷ cs) = if to_lower c == w then strip ws cs else none

abbrev starts_placeholder : Option (List ℕ) → Bool
starts_placeholder none = false
starts_placeholder (some cs) = starts_sep_me cs

-- `/CHANGE[-_]?ME/i`
placeholder_in : List ℕ → Bool
placeholder_in [] = false
placeholder_in (c ∷ cs) = starts_placeholder (strip (codes "change") (c ∷ cs)) || placeholder_in cs

unfoldable pub is_placeholder : String → Bool
unfolding placeholder_in
is_placeholder token = placeholder_in (codes token)

-- `TOKEN_PATTERN`
unfoldable pub is_token : String → Bool
unfolding has_id_chars
is_token s = has_id_chars 16 128 s

abbrev pub is_routable : String → Bool
is_routable peer = is_peer_id peer && not (str_eq peer broadcast) && not (str_eq peer hub_peer)

abbrev pub require : Bool → RowError → Result RowError (Unit {0})
require true e = ok tt
require false e = err e

abbrev need : {A : Type 0} → Option A → RowError → Result RowError A
need none e = err e
need (some a) e = ok a

abbrev role_of : Option String → Option TokenRole
role_of none = none
role_of (some s) =
    if str_eq s "agent"
    then some TokenRole.agent
    else (if str_eq s "manager" then some TokenRole.manager else none)

-- An absent owner is fine, and any other value must be a text.
abbrev owner_of : Option Json → Result RowError (Option String)
owner_of none = ok none
owner_of (some (Json.str s)) = ok (some s)
owner_of (some _) = err RowError.invalid_owner

-- The tests of `loadTokenFile` on one entry, up to those for duplicates.
unfoldable pub read_row : Json → Result RowError TokenRowJson
unfolding is_token is_placeholder
read_row j = do
  _ ← require (is_object j) RowError.not_an_object
  token ← need (as_string (field "token" j)) RowError.invalid_token
  _ ← require (is_token token) RowError.invalid_token
  _ ← require (not (is_placeholder token)) RowError.placeholder_token
  peer ← need (as_string (field "peer" j)) RowError.invalid_peer
  _ ← require (is_routable peer) RowError.invalid_peer
  role ← need (role_of (as_string (field "role" j))) RowError.invalid_role
  owner ← owner_of (field "owner" j)
  ok (record { token = token; peer = peer; role = role; owner = owner })

-- The tests of `loadTokenFileVoid` on one row, up to those for duplicates. A row has a valid role.
unfoldable pub check_row : TokenRowJson → Result RowError TokenRowJson
unfolding is_token is_placeholder
check_row r = do
  _ ← require (is_token r.token) RowError.invalid_token
  _ ← require (not (is_placeholder r.token)) RowError.placeholder_token
  _ ← require (is_routable r.peer) RowError.invalid_peer
  ok r

abbrev pub Table : Type 0
Table = Dict TokenIdentity

abbrev nonempty : Option String → Option String
nonempty none = none
nonempty (some s) = if str_eq s "" then none else some s

abbrev pub identity_of : TokenRowJson → TokenIdentity
identity_of r = record { peer = r.peer; role = r.role; owner = nonempty r.owner; anonymous = false }

-- The table, and the peers that have a token.
unfoldable pub insert_row :
    TokenRowJson → Table × List String → Result RowError (Table × List String)
insert_row r (table, peers) = do
  _ ← require (not (has r.token table)) RowError.duplicate_token
  _ ← require (not (includes peers r.peer)) RowError.duplicate_peer
  ok (set r.token (identity_of r) table, r.peer ∷ peers)

load_entries : ℕ → List Json → Table × List String → Result AuthError (Table × List String)
unfolding read_row insert_row
load_entries index [] st = ok st
load_entries index (j ∷ js) st = do
  st' ← map_err (AuthError.bad_entry index) (read_row j >>= λ r. insert_row r st)
  load_entries (suc index) js st'

-- `loadTokenFileVoid`
unfoldable pub check_rows :
    List TokenRowJson → Table × List String → Result AuthError (Table × List String)
unfolding check_row insert_row
check_rows [] st = ok st
check_rows (r ∷ rs) st = do
  st' ← map_err AuthError.bad_row (check_row r >>= λ r'. insert_row r' st)
  check_rows rs st'

pub data TokenFile : Type 0 where
  missing garbage : TokenFile
  holds : Json → TokenFile

abbrev parsed : TokenFile → Option Json
parsed (holds j) = some j
parsed _ = none

abbrev finish : Table × List String → Result AuthError Table
finish ([], peers) = err AuthError.no_tokens
finish (e ∷ table, peers) = ok (e ∷ table)

abbrev load_rows : Option (List Json) → Result AuthError Table
load_rows none = err AuthError.expected_tokens
load_rows (some rows) = load_entries 1 rows ([], []) >>= finish

abbrev load_parsed : Option Json → Result AuthError Table
load_parsed none = err AuthError.unreadable
load_parsed (some j) = load_rows (as_array (field "tokens" j))

unfoldable pub load_token_file : TokenFile → Result AuthError Table
unfolding load_entries
load_token_file file = load_parsed (parsed file)

unfoldable pub authenticate : Option String → Table → Option TokenIdentity
authenticate none table = none
authenticate (some token) table = get token table

-- A reload of `watchTokenFile` keeps the table when the file is refused.
abbrev keep_or : Table → Result AuthError Table → Table
keep_or table (ok next) = next
keep_or table (err e) = table

unfoldable pub reload : TokenFile → Table → Table
reload file table = keep_or table (load_token_file file)

abbrev row_of : String × TokenIdentity → TokenRowJson
row_of (token, i) = record { token = token; peer = i.peer; role = i.role; owner = i.owner }

-- A table from which the last token was removed reads as no rows.
abbrev rows_or_empty : Option (List Json) → AuthError → Result AuthError (List TokenRowJson)
rows_or_empty (some []) e = ok []
rows_or_empty _ e = err e

abbrev tokens_field : Option Json → Option (List Json)
tokens_field none = none
tokens_field (some j) = as_array (field "tokens" j)

abbrev read_loaded : TokenFile → Result AuthError Table → Result AuthError (List TokenRowJson)
read_loaded file (ok table) = ok (map row_of table)
read_loaded file (err e) = rows_or_empty (tokens_field (parsed file)) e

unfoldable pub read_tokens : TokenFile → Result AuthError (List TokenRowJson)
read_tokens missing = ok []
read_tokens garbage = read_loaded garbage (load_token_file garbage)
read_tokens (holds j) = read_loaded (holds j) (load_token_file (holds j))

abbrev role_text : TokenRole → String
role_text TokenRole.agent = "agent"
role_text TokenRole.manager = "manager"

abbrev owner_fields : Option String → Fields
owner_fields none = Fields.end
owner_fields (some s) = Fields.entry "owner" (Json.str s) Fields.end

abbrev row_json : TokenRowJson → Json
row_json r = Json.obj (
    Fields.entry "token" (Json.str r.token) (
      Fields.entry "peer" (Json.str r.peer)
        (Fields.entry "role" (Json.str (role_text r.role)) (owner_fields r.owner))))

unfoldable pub write_token_file : List TokenRowJson → TokenFile
write_token_file rows =
    holds (Json.obj (Fields.entry "tokens" (Json.arr (to_items (map row_json rows))) Fields.end))

abbrev named : TokenRowJson → TokenRowJson
named r = record r { owner = nonempty r.owner }

-- `row.token` is the given token or a generated one.
unfoldable pub add_token : TokenFile → TokenRowJson → Result AuthError (TokenRowJson × TokenFile)
add_token file row =
    if not (is_token row.token) then err (AuthError.bad_row RowError.invalid_token) else (do
      rows ← read_tokens file
      _ ←
          (if includes (map (λ r. r.peer) rows) row.peer
            then err AuthError.peer_has_token
            else ok tt)
      _ ← check_rows (rows ++ named row ∷ []) ([], [])
      ok (named row, write_token_file (rows ++ named row ∷ [])))

unfoldable pub remove_token : TokenFile → String → Result AuthError (Bool × TokenFile)
remove_token file peer = do
  rows ← read_tokens file
  let kept = filter (λ r. not (str_eq r.peer peer)) rows
  ok (if length kept == length rows then (false, file) else (true, write_token_file kept))
