-- ===== src/Tools/Names/Ids.antt =====
-- src/hub-tools.ts, `sanitizePeerId`: every name becomes a peer id.
use agent_comm_hub.Prelude.{
  ℕ, zero, suc, ◌≤◌, ◌≡◌, refl, String, leb, ◌==◌, if_holds, Bool, true, false, Bool-cases, inl,
  inr, ◌&&◌, length, all, arith,
}
use Prim.Native.Char.{Char, code}
use agent_comm_hub.Protocol.Ids.{codes, is_id_char, has_id_chars, is_peer_id}
use agent_comm_hub.Tools.Names.{
  is_plain, to_lower_case, collapse, drop_dashes, put_dash, drop_last_dashes, take_chars, or_agent,
  sanitize_peer_id,
}

abbrev IsText : String → Type 0
IsText s = all is_id_char (codes s) ≡ true

IsText-cons :
    (c : Char) (s : String) → is_id_char (code c) ≡ true → IsText s → IsText (String.◌∷◌ c s)
IsText-cons c s h k = rw (h, k) refl

head-IsText : (c : Char) (s : String) → IsText (String.◌∷◌ c s) → is_id_char (code c) ≡ true
head-IsText c s h = and_left (is_id_char (code c)) _ h
  where
    and_left : (a b : Bool) → (a && b) ≡ true → a ≡ true
    and_left a b e = ground (arith, e)

tail-IsText : (c : Char) (s : String) → IsText (String.◌∷◌ c s) → IsText s
tail-IsText c s h = and_right (is_id_char (code c)) _ h
  where
    and_right : (a b : Bool) → (a && b) ≡ true → b ≡ true
    and_right a b e = ground (arith, e)

plain-id : (c : ℕ) → is_plain c ≡ true → is_id_char c ≡ true
plain-id c h = and_left (is_id_char c) _ h
  where
    and_left : (a b : Bool) → (a && b) ≡ true → a ≡ true
    and_left a b e = ground (arith, e)

collapse-IsText : (in_run : Bool) (s : String) → IsText (collapse in_run s)
unfolding collapse
collapse-IsText in_run String.[] = refl
collapse-IsText in_run (String.◌∷◌ c s) = elim (Bool-cases (is_plain (code c))) [
  | inl plain ↦
      rw plain
        (IsText-cons c (collapse false s) (plain-id (code c) plain) (collapse-IsText false s))
  | inr odd ↦ rw odd (
      if_holds IsText in_run (collapse-IsText true s)
        (IsText-cons "-" (collapse true s) refl (collapse-IsText true s)))
]

drop_dashes-IsText : (s : String) → IsText s → IsText (drop_dashes s)
unfolding drop_dashes
drop_dashes-IsText String.[] h = h
drop_dashes-IsText (String.◌∷◌ c s) h =
    if_holds IsText (code c == b'-') (drop_dashes-IsText s (tail-IsText c s h)) h

put_dash-IsText :
    (c : Char) (s : String) → is_id_char (code c) ≡ true → IsText s → IsText (put_dash c s)
put_dash-IsText c String.[] h k =
    if_holds IsText (code c == b'-') refl (IsText-cons c String.[] h refl)
put_dash-IsText c (String.◌∷◌ d s) h k = IsText-cons c (String.◌∷◌ d s) h k

drop_last_dashes-IsText : (s : String) → IsText s → IsText (drop_last_dashes s)
unfolding drop_last_dashes
drop_last_dashes-IsText String.[] h = h
drop_last_dashes-IsText (String.◌∷◌ c s) h =
    put_dash-IsText c (drop_last_dashes s) (head-IsText c s h)
      (drop_last_dashes-IsText s (tail-IsText c s h))

take_chars-IsText : (n : ℕ) (s : String) → IsText s → IsText (take_chars n s)
unfolding take_chars
take_chars-IsText zero s h = refl
take_chars-IsText (suc n) String.[] h = refl
take_chars-IsText (suc n) (String.◌∷◌ c s) h =
    IsText-cons c (take_chars n s) (head-IsText c s h) (take_chars-IsText n s (tail-IsText c s h))

length-take_chars : (n : ℕ) (s : String) → length (codes (take_chars n s)) ≤ n
unfolding take_chars
length-take_chars zero s = omega arith
length-take_chars (suc n) String.[] = omega arith
length-take_chars (suc n) (String.◌∷◌ c s) = omega (arith, length-take_chars n s)

or_agent-is_peer_id :
    (s : String) → IsText s → length (codes s) ≤ 64 → is_peer_id (or_agent s) ≡ true
unfolding is_peer_id has_id_chars
or_agent-is_peer_id String.[] h k = refl
or_agent-is_peer_id (String.◌∷◌ c s) h k =
    let fits : leb (length (codes (String.◌∷◌ c s))) 64 ≡ true = ground (arith, k) in
    let some_char : leb 1 (length (codes (String.◌∷◌ c s))) ≡ true = ground arith in
    rw (fits, some_char, h) refl

-- The id that a client's name is turned into is a valid peer id, whatever the name.
pub sanitize_peer_id-is_peer_id : (name : String) → is_peer_id (sanitize_peer_id name) ≡ true
unfolding sanitize_peer_id
sanitize_peer_id-is_peer_id name =
    let dashed = drop_last_dashes (drop_dashes (collapse false (to_lower_case name))) in
    or_agent-is_peer_id (take_chars 64 dashed)
      (take_chars-IsText 64 dashed (
        drop_last_dashes-IsText (drop_dashes (collapse false (to_lower_case name))) (
          drop_dashes-IsText (collapse false (to_lower_case name))
            (collapse-IsText false (to_lower_case name)))))
      (length-take_chars 64 dashed)
