-- ===== src/Auth/Tests.antt =====
-- A table of one token, and adding a second.
use agent_comm_hub.Prelude.{
  String, ◌≡◌, refl, str_eq, if◌then◌else◌, true, false, none, some, [], ◌∷◌,
}
use agent_comm_hub.Dict.{get, set, has}
use agent_comm_hub.Protocol.Ids.{is_peer_id}
use agent_comm_hub.Auth.{
  TokenRole, TokenRowJson, AuthError, ok, err, Table, TokenFile, is_placeholder, load_token_file,
  check_rows, write_token_file, read_tokens, add_token, remove_token, authenticate, identity_of,
}
use agent_comm_hub.Auth.Agreement.{Agree, load-write_agreement}
use agent_comm_hub.Auth.Identity.{TableIsValid, load_token_file-TableIsValid}
use agent_comm_hub.Auth.Roundtrip.{add_token-authenticate}

abbrev alice : TokenRowJson
alice = record { token = "0123456789abcdef"; peer = "alice"; role = TokenRole.agent; owner = none }

abbrev bob : TokenRowJson
bob = record {
  token = "fedcba9876543210";
  peer = "bob";
  role = TokenRole.manager;
  owner = some "B";
}

abbrev file : TokenFile
file = write_token_file (alice ∷ [])

abbrev table : Table
table = (alice.token, identity_of alice) ∷ []

file_loads : load_token_file file ≡ ok table
unfolding load_token_file write_token_file has set get is_peer_id
file_loads = refl

placeholder_test :
    (is_placeholder "CHANGE-ME-alice-0123" ≡ true)
    × (is_placeholder "exchange-meters-0123" ≡ true)
    × (is_placeholder "change-your-token-01" ≡ false)
unfolding is_placeholder
placeholder_test = (refl, refl, refl)

bob_added : add_token file bob ≡ ok (bob, write_token_file (alice ∷ bob ∷ []))
unfolding add_token load_token_file write_token_file read_tokens check_rows has set get is_peer_id
bob_added = refl

last_token_test : remove_token file "alice" ≡ ok (true, write_token_file [])
unfolding remove_token load_token_file write_token_file read_tokens has set get is_peer_id
last_token_test = refl

empty_file_test : load_token_file (write_token_file []) ≡ err AuthError.no_tokens
unfolding load_token_file write_token_file
empty_file_test = refl

load-write_agreement_example :
    Agree
      (check_rows (alice ∷ bob ∷ []) ([], []))
      (load_token_file (write_token_file (alice ∷ bob ∷ [])))
load-write_agreement_example = load-write_agreement (alice ∷ bob ∷ [])

load_token_file-TableIsValid_example : TableIsValid table
load_token_file-TableIsValid_example = load_token_file-TableIsValid file table file_loads

add_token-authenticate_example :
    (new : Table) × (load_token_file (write_token_file (alice ∷ bob ∷ [])) ≡ ok new)
    × ((token : String)
        → authenticate (some token) new ≡ (
            if str_eq bob.token token
            then some (identity_of bob)
            else authenticate (some token) table))
add_token-authenticate_example =
    add_token-authenticate file table bob bob (write_token_file (alice ∷ bob ∷ [])) file_loads
      bob_added
