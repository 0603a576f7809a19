-- ===== src/Tools/Names.antt =====
-- src/hub-tools.ts: `sanitizePeerId` and `sanitizeAlias`. Of the letters that are not ASCII, lower case
-- makes an ASCII one only of the Kelvin sign and of the dotted capital I.
pub mod Ids
use agent_comm_hub.Prelude.{
  ℕ, zero, suc, ◌+◌, ◌-◌, ◌≤◌, ◌≡◌, refl, ap, ◌∙◌, sym, String, str_eq, ltb, leb, ◌==◌,
  if◌then◌else◌, if_holds, Bool, true, false, Bool-cases, inl, inr, ◌&&◌, ◌||◌, not, List, [], ◌∷◌,
  length, all, any, arith,
}
use Prim.Native.Char.{Char, code}
use Prim.Native.String.{◌++◌}
use agent_comm_hub.Protocol.Ids.{codes, between, is_id_char, has_id_chars, is_peer_id}
use agent_comm_hub.Auth.{Result, ok, err}
use agent_comm_hub.Server.Headers.{trim}

abbrev letter : ℕ → String → Char → Char
letter i String.[] c = c
letter zero (String.◌∷◌ l ls) c = l
letter (suc i) (String.◌∷◌ l ls) c = letter i ls c

abbrev lower_char : Char → Char
lower_char c =
    if between b'A' b'Z' (code c)
    then letter (code c - b'A') "abcdefghijklmnopqrstuvwxyz" c
    else (if code c == 8490 then "k" else c)

-- `toLowerCase`, as far as the next step tells texts apart
abbrev to_lower_case : String → String
to_lower_case String.[] = String.[]
to_lower_case (String.◌∷◌ c s) =
    if code c == 304
    then String.◌∷◌ "i" (String.◌∷◌ c (to_lower_case s))
    else String.◌∷◌ (lower_char c) (to_lower_case s)

-- `[a-z0-9._:-]`
abbrev is_plain : ℕ → Bool
is_plain c = is_id_char c && not (between b'A' b'Z' c)

-- `replace(/[^a-z0-9._:-]+/g, '-')`: the flag says that the run has its dash.
unfoldable collapse : Bool → String → String
collapse in_run String.[] = String.[]
collapse in_run (String.◌∷◌ c s) =
    if is_plain (code c)
    then String.◌∷◌ c (collapse false s)
    else (if in_run then collapse true s else String.◌∷◌ "-" (collapse true s))

unfoldable drop_dashes : String → String
drop_dashes String.[] = String.[]
drop_dashes (String.◌∷◌ c s) = if code c == b'-' then drop_dashes s else String.◌∷◌ c s

abbrev put_dash : Char → String → String
put_dash c String.[] = if code c == b'-' then String.[] else String.◌∷◌ c String.[]
put_dash c s = String.◌∷◌ c s

unfoldable drop_last_dashes : String → String
drop_last_dashes String.[] = String.[]
drop_last_dashes (String.◌∷◌ c s) = put_dash c (drop_last_dashes s)

-- `slice(0, n)`, of ASCII texts
unfoldable take_chars : ℕ → String → String
take_chars zero s = String.[]
take_chars (suc n) String.[] = String.[]
take_chars (suc n) (String.◌∷◌ c s) = String.◌∷◌ c (take_chars n s)

abbrev or_agent : String → String
or_agent String.[] = "agent"
or_agent (String.◌∷◌ c s) = String.◌∷◌ c s

unfoldable pub sanitize_peer_id : String → String
unfolding collapse drop_dashes drop_last_dashes take_chars
sanitize_peer_id name =
    or_agent (take_chars 64 (drop_last_dashes (drop_dashes (collapse false (to_lower_case name)))))

abbrev pub with_suffix : String → String → String → String
with_suffix start middle random = start ++ (middle ++ ("-" ++ random))

pub data AliasError : Type 0 where
  empty too_long control_characters : AliasError

-- The length in UTF-16 units.
abbrev utf16_length : List ℕ → ℕ
utf16_length [] = 0
utf16_length (c ∷ cs) = (if ltb c 65536 then 1 else 2) + utf16_length cs

abbrev check_alias : String → Result AliasError String
check_alias alias =
    if str_eq alias ""
    then err AliasError.empty
    else (if ltb 64 (utf16_length (codes alias))
        then err AliasError.too_long
        else (if any (λ c. ltb c 32 || c == 127) (codes alias)
            then err AliasError.control_characters
            else ok alias))

unfoldable pub sanitize_alias : String → Result AliasError String
unfolding trim
sanitize_alias alias = check_alias (trim alias)
