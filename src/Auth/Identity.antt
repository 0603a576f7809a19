-- ===== src/Auth/Identity.antt =====
-- What a loaded table says about identities.
use agent_comm_hub.Prelude.{
  ℕ, suc, String, ◌≡◌, ◌⊎◌, sym, ◌∙◌, ap, str_eq, eq_iff, str-cases, if◌then◌else◌, true, false,
  Option, none, some, List, [], ◌∷◌, arith, Bool-cases, inl, inr, includes, subst,
}
use mathlib.Core.Option.{some-injective}
use agent_comm_hub.Dict.{get, set, has}
use agent_comm_hub.Dict.Laws.{get-set}
use agent_comm_hub.Json.{Json, field, as_array}
use agent_comm_hub.Auth.{
  TokenIdentity, TokenRowJson, AuthError, Result, ok, err, ◌>>=◌, Table, TokenFile, read_row,
  insert_row, load_entries, load_token_file, is_token, is_routable, identity_of, finish,
  load_parsed, load_rows, parsed, map_err,
}

-- A token identifies one routable peer, and a peer has one token.
pub record TableIsValid (table : Table) : Type 0 where
  pub one_token :
      (t u : String) (i j : TokenIdentity)
      → get t table ≡ some i
      → get u table ≡ some j
      → i.peer ≡ j.peer
      → t ≡ u
  pub well_formed :
      (t : String) (i : TokenIdentity)
      → get t table ≡ some i
      → (is_token t ≡ true) × (is_routable i.peer ≡ true)

-- During a load: the peers seen are those of the table.
record StateIsValid (st : Table × List String) : Type 0 where
  valid : TableIsValid st.0
  seen : (t : String) (i : TokenIdentity) → get t st.0 ≡ some i → includes st.1 i.peer ≡ true

empty-StateIsValid : StateIsValid ([], [])
unfolding get
empty-StateIsValid = record {
  valid = record { one_token = λ t u i j p q e. cc; well_formed = λ t i p. cc };
  seen = λ t i p. cc;
}

-- The entry of a row that is inserted, or an old entry of another peer.
abbrev NewOrOld : TokenRowJson → Table → String → TokenIdentity → Type 0
NewOrOld r table t i =
    ((t ≡ r.token) × (i ≡ identity_of r))
    ⊎ ((get t table ≡ some i) × (str_eq i.peer r.peer ≡ false))

-- An entry of the table after an insertion: the new one, or an old one with another peer.
entry_cases :
    (r : TokenRowJson) (table : Table) (peers : List String)
    → StateIsValid (table, peers)
    → includes peers r.peer ≡ false
    → (t : String) (i : TokenIdentity) → get t (set r.token (identity_of r) table) ≡ some i
    → NewOrOld r table t i
entry_cases r table peers v fresh t i p = elim (str-cases r.token t) [
  | inl (same, e) ↦ inl (sym e, some-injective _ _ (ground (arith, here, same)))
  | inr (other, ne) ↦
      let old : get t table ≡ some i = ground (arith, here, other) in
      inr (old, not_fresh (v.seen t i old))
]
  where
    here : (if str_eq r.token t then some (identity_of r) else get t table) ≡ some i
    here = sym (get-set t r.token (identity_of r) table) ∙ p

    not_fresh : includes peers i.peer ≡ true → str_eq i.peer r.peer ≡ false
    not_fresh h = ground (arith, eq_iff i.peer r.peer, fresh, h)

insert_valid :
    (r : TokenRowJson) (table : Table) (peers : List String)
    → is_token r.token ≡ true
    → is_routable r.peer ≡ true
    → StateIsValid (table, peers)
    → includes peers r.peer ≡ false
    → StateIsValid (set r.token (identity_of r) table, r.peer ∷ peers)
insert_valid r table peers tok rout v fresh = record {
  valid = record {
    one_token = λ t u i j p q e.
        one t u i j (entry_cases r table peers v fresh t i p)
          (entry_cases r table peers v fresh u j q) e;
    well_formed = λ t i p. formed t i (entry_cases r table peers v fresh t i p);
  };
  seen = λ t i p. saw t i (entry_cases r table peers v fresh t i p);
}
  where
    one :
        (t u : String) (i j : TokenIdentity)
        → NewOrOld r table t i
        → NewOrOld r table u j
        → i.peer ≡ j.peer
        → t ≡ u
    one t u i j (inl (et, ei)) (inl (eu, ej)) e = et ∙ sym eu
    one t u i j (inl (et, ei)) (inr (g, ne)) e =
        let same : r.peer ≡ j.peer = sym (ap (λ (k : TokenIdentity). k.peer) ei) ∙ e in
        ground (arith, eq_iff j.peer r.peer, ne, same)
    one t u i j (inr (g, ne)) (inl (eu, ej)) e =
        let same : i.peer ≡ r.peer = e ∙ ap (λ (k : TokenIdentity). k.peer) ej in
        ground (arith, eq_iff i.peer r.peer, ne, same)
    one t u i j (inr (g, ne)) (inr (g', ne')) e = v.valid.one_token t u i j g g' e

    formed :
        (t : String) (i : TokenIdentity)
        → NewOrOld r table t i
        → (is_token t ≡ true) × (is_routable i.peer ≡ true)
    formed t i (inl (et, ei)) = rw (et, ei) (tok, rout)
    formed t i (inr (g, ne)) = v.valid.well_formed t i g

    saw :
        (t : String) (i : TokenIdentity)
        → NewOrOld r table t i
        → includes (r.peer ∷ peers) i.peer ≡ true
    saw t i (inl (et, ei)) = rw ei (ground (arith, eq_iff r.peer r.peer))
    saw t i (inr (g, ne)) = ground (arith, v.seen t i g)

-- A successful result, if there is one, satisfies `P`.
abbrev pub Gives : {E A : Type 0} → (A → Type 0) → Result E A → Type 0
Gives P (ok a) = P a
Gives P (err e) = Unit

insert_row-Gives :
    (r : TokenRowJson) (st : Table × List String)
    → is_token r.token ≡ true
    → is_routable r.peer ≡ true
    → StateIsValid st
    → Gives StateIsValid (insert_row r st)
unfolding insert_row
insert_row-Gives r (table, peers) tok rout v = elim (Bool-cases (has r.token table)) [
  | inl old ↦ rw old tt
  | inr new ↦ elim (Bool-cases (includes peers r.peer)) [
    | inl taken ↦ rw (new, taken) tt
    | inr fresh ↦ rw (new, fresh) (insert_valid r table peers tok rout v fresh)
  ]
]

read_row-Gives :
    (j : Json) → Gives (λ r. (is_token r.token ≡ true) × (is_routable r.peer ≡ true)) (read_row j)
unfolding read_row
read_row-Gives j = ground arith

bind-Gives :
    {E A B : Type 0} (P : A → Type 0) (Q : B → Type 0) (r : Result E A) (f : A → Result E B)
    → Gives P r
    → ((a : A) → P a → Gives Q (f a))
    → Gives Q (r >>= f)
bind-Gives P Q (ok a) f p next = next a p
bind-Gives P Q (err e) f p next = tt

map_err-Gives :
    {E F A : Type 0} (P : A → Type 0) (g : E → F) (r : Result E A)
    → Gives P r
    → Gives P (map_err g r)
map_err-Gives P g (ok a) p = p
map_err-Gives P g (err e) p = tt

-- What holds of the state of a load at its start and after each entry holds of the loaded table.
module _ (I : Table × List String → Type 0) (T : Table → Type 0) (start : I ([], []))
    (step : (r : TokenRowJson) (st : Table × List String)
      → (is_token r.token ≡ true) × (is_routable r.peer ≡ true)
      → I st
      → Gives I (insert_row r st))
    (stop : (st : Table × List String) → I st → T st.0) where
  load_entries-Gives :
      (index : ℕ) (js : List Json) (st : Table × List String)
      → I st
      → Gives I (load_entries index js st)
  unfolding load_entries
  load_entries-Gives index [] st v = v
  load_entries-Gives index (j ∷ js) st v =
      bind-Gives I I _ (load_entries (suc index) js)
        (map_err-Gives I (AuthError.bad_entry index) _ (
          bind-Gives (λ r. (is_token r.token ≡ true) × (is_routable r.peer ≡ true)) I (read_row j)
            (λ r. insert_row r st) (read_row-Gives j) (λ r ok. step r st ok v)))
        (λ st' v'. load_entries-Gives (suc index) js st' v')

  finish-Gives : (st : Table × List String) → I st → Gives T (finish st)
  finish-Gives ([], peers) v = tt
  finish-Gives (e ∷ table, peers) v = stop (e ∷ table, peers) v

  load_rows-Gives : (rows : Option (List Json)) → Gives T (load_rows rows)
  load_rows-Gives none = tt
  load_rows-Gives (some rows) =
      bind-Gives I T (load_entries 1 rows ([], [])) finish
        (load_entries-Gives 1 rows ([], []) start) finish-Gives

  load_parsed-Gives : (j : Option Json) → Gives T (load_parsed j)
  load_parsed-Gives none = tt
  load_parsed-Gives (some j) = load_rows-Gives (as_array (field "tokens" j))

  pub load_token_file-holds :
      (file : TokenFile) (table : Table) → load_token_file file ≡ ok table → T table
  unfolding load_token_file
  load_token_file-holds file table e = subst (Gives T) e (load_parsed-Gives (parsed file))

-- In a table that a token file loads as, a token is well formed and identifies a peer that is not
-- a reserved address, and no two tokens identify the same peer.
pub load_token_file-TableIsValid :
    (file : TokenFile) (table : Table) → load_token_file file ≡ ok table → TableIsValid table
load_token_file-TableIsValid =
    load_token_file-holds StateIsValid TableIsValid empty-StateIsValid
      (λ r st ok v. insert_row-Gives r st ok.0 ok.1 v) (λ st v. v.valid)
