-- ===== src/Auth/Agreement.antt =====
-- What the command line writes is what the hub accepts.
use agent_comm_hub.Prelude.{ℕ, suc, String, ◌≡◌, refl, Option, none, some, List, [], ◌∷◌, map}
use agent_comm_hub.Json.{Json, items, to_items}
use agent_comm_hub.Auth.{
  TokenRole, TokenRowJson, AuthError, RowError, Result, ok, err, ◌>>=◌, Table, read_row, check_row,
  insert_row, load_entries, check_rows, load_token_file, write_token_file, row_json, finish,
  map_err,
}

items-to_items : (js : List Json) → items (to_items js) ≡ js
items-to_items [] = refl
items-to_items (j ∷ js) = rw (items-to_items js)

-- An entry that was written reads as the row, with the same verdict.
read_row-fields :
    (token peer : String) (role : TokenRole) (owner : Option String)
    → let r : TokenRowJson = record { token = token; peer = peer; role = role; owner = owner } in
      read_row (row_json r) ≡ check_row r
unfolding read_row check_row
read_row-fields token peer TokenRole.agent none = refl
read_row-fields token peer TokenRole.agent (some s) = refl
read_row-fields token peer TokenRole.manager none = refl
read_row-fields token peer TokenRole.manager (some s) = refl

pub read_row-row_json : (r : TokenRowJson) → read_row (row_json r) ≡ check_row r
read_row-row_json r = read_row-fields r.token r.peer r.role r.owner

-- The verdicts of the two paths on the same rows: both accept them with the same table, or both
-- refuse them. A table without tokens is refused when it is loaded.
abbrev pub Agree : Result AuthError (Table × List String) → Result AuthError Table → Type 0
Agree (ok st) loaded = loaded ≡ finish st
Agree (err e) (ok table) = ⊥
Agree (err e) (err e') = Unit

abbrev SameVerdict :
    Result AuthError (Table × List String) → Result AuthError (Table × List String) → Type 0
SameVerdict (ok st) loaded = loaded ≡ ok st
SameVerdict (err e) (ok st) = ⊥
SameVerdict (err e) (err e') = Unit

verdict_of_rest :
    (index : ℕ) (rows : List TokenRowJson) (v : Result RowError (Table × List String))
    → ((st : Table × List String)
        → SameVerdict (check_rows rows st) (load_entries (suc index) (map row_json rows) st))
    → SameVerdict
        (map_err AuthError.bad_row v >>= check_rows rows)
        (map_err (AuthError.bad_entry index) v >>= load_entries (suc index) (map row_json rows))
verdict_of_rest index rows (ok st) rest = rest st
verdict_of_rest index rows (err e) rest = tt

entries_of_rows :
    (index : ℕ) (rows : List TokenRowJson) (st : Table × List String)
    → SameVerdict (check_rows rows st) (load_entries index (map row_json rows) st)
unfolding check_rows load_entries
entries_of_rows index [] st = refl
entries_of_rows index (r ∷ rows) st = rw (read_row-row_json r) (
    verdict_of_rest index rows (check_row r >>= λ r'. insert_row r' st)
      (entries_of_rows (suc index) rows))

finish_agrees :
    (a b : Result AuthError (Table × List String)) → SameVerdict a b → Agree a (b >>= finish)
finish_agrees (ok st) b s = rw s
finish_agrees (err e) (ok st) s = absurd s
finish_agrees (err e) (err e') s = tt

-- Whatever rows are written, loading the file gives the verdict of the check that precedes the
-- write: the same table, or a refusal where the check refuses.
pub load-write_agreement :
    (rows : List TokenRowJson)
    → Agree (check_rows rows ([], [])) (load_token_file (write_token_file rows))
unfolding load_token_file write_token_file
load-write_agreement rows = rw (items-to_items (map row_json rows)) (
    finish_agrees (check_rows rows ([], [])) (load_entries 1 (map row_json rows) ([], []))
      (entries_of_rows 1 rows ([], [])))
