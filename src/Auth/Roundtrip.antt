-- ===== src/Auth/Roundtrip.antt =====
-- A token that was added is accepted, and nothing else changes.
use agent_comm_hub.Prelude.{
  String, ◌≡◌, refl, ap, ◌∙◌, str_eq, if◌then◌else◌, false, Option, none, some, List, [], ◌∷◌, ◌++◌,
  map, arith, Bool-cases, inl, inr, includes, All, subst,
}
use mathlib.Core.List.{append_assoc, append-nil}
use agent_comm_hub.Dict.{get, set, has}
use agent_comm_hub.Dict.Laws.{get-set}
use agent_comm_hub.Auth.{
  TokenIdentity, TokenRowJson, AuthError, RowError, Result, ok, err, ◌>>=◌, Table, TokenFile,
  missing, garbage, holds, check_row, insert_row, authenticate, check_rows, load_token_file,
  write_token_file, read_tokens, add_token, finish, map_err, identity_of, nonempty, row_of, named,
  is_token,
}
use agent_comm_hub.Auth.Agreement.{Agree, load-write_agreement}
use agent_comm_hub.Auth.Identity.{Gives, load_token_file-holds}

-- Owners are never empty texts, and no entry is a walk-in's.
abbrev Named : Table → Type 0
Named = All (λ e. (nonempty e.1.owner ≡ e.1.owner) × (e.1.anonymous ≡ false))

nonempty_idem : (o : Option String) → nonempty (nonempty o) ≡ nonempty o
nonempty_idem none = refl
nonempty_idem (some s) = ground arith

set-Named :
    (k : String) (i : TokenIdentity) (d : Table)
    → (nonempty i.owner ≡ i.owner) × (i.anonymous ≡ false)
    → Named d
    → Named (set k i d)
unfolding set
set-Named k i [] e h = (e, tt)
set-Named k i ((j, w) ∷ d) e h = ground (arith, e, h, set-Named k i d e h.1)

insert_row-Named :
    (r : TokenRowJson) (st : Table × List String)
    → Named st.0
    → Gives (λ st'. Named st'.0) (insert_row r st)
unfolding insert_row
insert_row-Named r (table, peers) h = elim (Bool-cases (has r.token table)) [
  | inl old ↦ rw old tt
  | inr new ↦ elim (Bool-cases (includes peers r.peer)) [
    | inl taken ↦ rw (new, taken) tt
    | inr fresh ↦
        rw (new, fresh) (set-Named r.token (identity_of r) table (nonempty_idem r.owner, refl) h)
  ]
]

loaded-Named : (file : TokenFile) (table : Table) → load_token_file file ≡ ok table → Named table
loaded-Named =
    load_token_file-holds (λ st. Named st.0) Named tt (λ r st valid h. insert_row-Named r st h)
      (λ st h. h)

abbrev entry_of : TokenRowJson → String × TokenIdentity
entry_of r = (r.token, identity_of r)

set_of_new :
    (k : String) (i : TokenIdentity) (d : Table) → has k d ≡ false → set k i d ≡ d ++ (k, i) ∷ []
unfolding set has get
set_of_new k i [] e = refl
set_of_new k i ((j, w) ∷ d) e = ground (arith, e, set_of_new k i d)

-- A step that succeeds appends the row's entry.
insert_row-append :
    (r : TokenRowJson) (st : Table × List String)
    → Gives (λ st'. st'.0 ≡ st.0 ++ entry_of r ∷ []) (insert_row r st)
unfolding insert_row
insert_row-append r (table, peers) = elim (Bool-cases (has r.token table)) [
  | inl old ↦ rw old tt
  | inr new ↦ elim (Bool-cases (includes peers r.peer)) [
    | inl taken ↦ rw (new, taken) tt
    | inr fresh ↦ rw (new, fresh) (set_of_new r.token (identity_of r) table new)
  ]
]

check_row_self : (r : TokenRowJson) → Gives (λ r'. r' ≡ r) (check_row r)
unfolding check_row
check_row_self r = ground arith

-- The step of a check, with whatever the step gives.
step-Gives :
    (r : TokenRowJson) (st : Table × List String) (P Q : Table × List String → Type 0)
    (k : Table × List String → Result AuthError (Table × List String))
    → Gives P (insert_row r st)
    → ((st' : Table × List String) → P st' → Gives Q (k st'))
    → Gives Q (map_err AuthError.bad_row (check_row r >>= λ r'. insert_row r' st) >>= k)
step-Gives r st P Q k first next = from_check (check_row r) (check_row_self r)
  where
    from_insert :
        (v : Result RowError (Table × List String))
        → Gives P v
        → Gives Q (map_err AuthError.bad_row v >>= k)
    from_insert (ok st') p = next st' p
    from_insert (err e) p = tt

    from_check :
        (c : Result RowError TokenRowJson)
        → Gives (λ r'. r' ≡ r) c
        → Gives Q (map_err AuthError.bad_row (c >>= λ r'. insert_row r' st) >>= k)
    from_check (ok r') e = rw e (from_insert (insert_row r st) first)
    from_check (err e) h = tt

insert_row-set :
    (r : TokenRowJson) (st : Table × List String)
    → Gives (λ st'. st'.0 ≡ set r.token (identity_of r) st.0) (insert_row r st)
unfolding insert_row
insert_row-set r (table, peers) = ground arith

-- Checking rows and then one more puts the last one's entry into the table of the others.
check_rows-set :
    (rows : List TokenRowJson) (r : TokenRowJson) (st : Table × List String)
    → Gives
        (λ st'. st'.0 ≡ set r.token (identity_of r) (st.0 ++ map entry_of rows))
        (check_rows (rows ++ r ∷ []) st)
unfolding check_rows
check_rows-set [] r st =
    step-Gives r st (λ st'. st'.0 ≡ set r.token (identity_of r) st.0) _ ok (insert_row-set r st)
      (λ st' e. rw append-nil e)
check_rows-set (q ∷ rows) r st =
    step-Gives q st (λ st'. st'.0 ≡ st.0 ++ entry_of q ∷ []) _ (check_rows (rows ++ r ∷ []))
      (insert_row-append q st)
      (λ st' e.
        subst
          (λ (t : Table).
            Gives (λ st''. st''.0 ≡ set r.token (identity_of r) t)
              (check_rows (rows ++ r ∷ []) st'))
          (ap (λ (t : Table). t ++ map entry_of rows) e
            ∙ append_assoc st.0 (entry_of q ∷ []) (map entry_of rows))
          (check_rows-set rows r st'))

entries_of_table : (d : Table) → Named d → map entry_of (map row_of d) ≡ d
entries_of_table [] h = refl
entries_of_table ((t, i) ∷ d) h = ground (arith, h, entries_of_table d h.1)

read_tokens-loaded :
    (file : TokenFile) (old : Table)
    → load_token_file file ≡ ok old
    → read_tokens file ≡ ok (map row_of old)
unfolding read_tokens load_token_file
read_tokens-loaded missing old e = cc
read_tokens-loaded garbage old e = cc
read_tokens-loaded (holds j) old e = rw e

finish_of_set :
    (k : String) (i : TokenIdentity) (d : Table) (peers : List String)
    → finish (set k i d, peers) ≡ ok (set k i d)
unfolding set
finish_of_set k i [] peers = refl
finish_of_set k i ((j, w) ∷ d) peers = ground arith

-- The file that is written loads as the table with the entry put in.
abbrev Loads : Table → TokenRowJson × TokenFile → Type 0
Loads table (r, file) = load_token_file file ≡ ok table

written-Gives :
    (old : Table) (row : TokenRowJson)
    → Named old
    → let rows = map row_of old ++ named row ∷ [] in
      Gives
        (λ _. load_token_file (write_token_file rows) ≡ ok (set row.token (identity_of row) old))
        (check_rows rows ([], []))
written-Gives old row h =
    from_check (check_rows rows ([], [])) (check_rows-set (map row_of old) (named row) ([], []))
      (load-write_agreement rows)
  where
    rows : List TokenRowJson
    rows = map row_of old ++ named row ∷ []

    from_check :
        (c : Result AuthError (Table × List String))
        → Gives
            (λ st'. st'.0 ≡ set row.token (identity_of (named row)) (map entry_of (map row_of old)))
            c
        → Agree c (load_token_file (write_token_file rows))
        → Gives
            (λ _.
              load_token_file (write_token_file rows) ≡ ok (set row.token (identity_of row) old))
            c
    from_check (err e) g a = tt
    from_check (ok (table, peers)) g a =
        let same : table ≡ set row.token (identity_of row) old =
          g ∙ rw (entries_of_table old h, nonempty_idem row.owner) in
        a ∙ (rw same (finish_of_set row.token (identity_of row) old peers))

add_token-Gives :
    (file : TokenFile) (old : Table) (row : TokenRowJson)
    → load_token_file file ≡ ok old
    → Gives (Loads (set row.token (identity_of row) old)) (add_token file row)
unfolding add_token
add_token-Gives file old row e = elim (Bool-cases (is_token row.token)) [
  | inr bad ↦ rw bad tt
  | inl good ↦ elim (Bool-cases (includes (map (λ r. r.peer) (map row_of old)) row.peer)) [
    | inl taken ↦ rw (good, read_tokens-loaded file old e, taken) tt
    | inr free ↦
        rw (good, read_tokens-loaded file old e, free)
          (persist (check_rows (map row_of old ++ named row ∷ []) ([], []))
            (written-Gives old row (loaded-Named file old e)))
  ]
]
  where
    persist :
        (c : Result AuthError (Table × List String))
        → Gives
            (λ _.
              load_token_file (write_token_file (map row_of old ++ named row ∷ []))
              ≡ ok (set row.token (identity_of row) old))
            c
        → Gives
            (Loads (set row.token (identity_of row) old))
            (c >>= λ _. ok (named row, write_token_file (map row_of old ++ named row ∷ [])))
    persist (ok st) p = p
    persist (err er) p = tt

-- If a token file loads as a table, and a token is added to it, then the file that is written
-- loads, the new token is that of its peer, and every other token is what it was.
pub add_token-authenticate :
    (file : TokenFile) (old : Table) (row r : TokenRowJson) (file' : TokenFile)
    → load_token_file file ≡ ok old
    → add_token file row ≡ ok (r, file')
    → (new : Table) × (load_token_file file' ≡ ok new)
      × ((token : String)
          → authenticate (some token) new ≡ (
              if str_eq row.token token
              then some (identity_of row)
              else authenticate (some token) old))
unfolding authenticate
add_token-authenticate file old row r file' e a = (
  set row.token (identity_of row) old,
  subst (Gives (Loads (set row.token (identity_of row) old))) a (add_token-Gives file old row e),
  λ token. get-set token row.token (identity_of row) old,
)
