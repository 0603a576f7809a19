-- ===== src/Protocol/Ids.antt =====
-- src/protocol.ts: `PEER_ID_PATTERN`. A text is walked as the list of its code points.
use agent_comm_hub.Prelude.{ℕ, String, leb, Bool, ◌&&◌, ◌||◌, List, [], ◌∷◌, length, all}
use Prim.Native.Char.{code}

abbrev pub codes : String → List ℕ
codes String.[] = []
codes (String.◌∷◌ c s) = code c ∷ codes s

abbrev pub between : ℕ → ℕ → ℕ → Bool
between lo hi c = leb lo c && leb c hi

-- `[A-Za-z0-9._:-]`
abbrev pub is_id_char : ℕ → Bool
is_id_char c =
    between b'A' b'Z' c
    || between b'a' b'z' c
    || between b'0' b'9' c
    || between b'-' b'.' c
    || between b':' b':' c
    || between b'_' b'_' c

-- `^[A-Za-z0-9._:-]{lo,hi}$`
unfoldable pub has_id_chars : ℕ → ℕ → String → Bool
has_id_chars lo hi s =
    let cs = codes s in leb lo (length cs) && leb (length cs) hi && all is_id_char cs

unfoldable pub is_peer_id : String → Bool
unfolding has_id_chars
is_peer_id s = has_id_chars 1 64 s
