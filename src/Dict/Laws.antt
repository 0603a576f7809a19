-- ===== src/Dict/Laws.antt =====
-- What reading gives after a write or a deletion.
use agent_comm_hub.Prelude.{
  String, str_eq, if◌then◌else◌, ◌≡◌, refl, ◌||◌, not, none, some, [], ◌∷◌, arith, eq_iff, ◌&&◌,
}
use agent_comm_hub.Dict.{Dict, get, set, delete, has, get_or}

module _ {ℓ} {V : Type ℓ} where
  pub get-set :
      (j k : String) (v : V) (d : Dict V)
      → get j (set k v d) ≡ (if str_eq k j then some v else get j d)
  unfolding get set
  get-set j k v [] = refl
  get-set j k v ((i, w) ∷ d) = ground (arith, eq_iff k j, eq_iff i k, eq_iff i j, get-set j k v d)

  pub get-delete :
      (j k : String) (d : Dict V) → get j (delete k d) ≡ (if str_eq k j then none else get j d)
  unfolding get delete
  get-delete j k [] = ground arith
  get-delete j k ((i, w) ∷ d) = ground (arith, eq_iff k j, eq_iff i k, eq_iff i j, get-delete j k d)

  pub has-set : (j k : String) (v : V) (d : Dict V) → has j (set k v d) ≡ (str_eq k j || has j d)
  unfolding has
  has-set j k v d = ground (arith, get-set j k v d)

  pub has-delete : (j k : String) (d : Dict V) → has j (delete k d) ≡ (not (str_eq k j) && has j d)
  unfolding has
  has-delete j k d = ground (arith, get-delete j k d)

  pub get_or-set :
      (j k : String) (v u : V) (d : Dict V)
      → get_or j u (set k v d) ≡ (if str_eq k j then v else get_or j u d)
  unfolding get_or
  get_or-set j k v u d = ground (arith, get-set j k v d)

  pub get_or-delete :
      (j k : String) (u : V) (d : Dict V)
      → get_or j u (delete k d) ≡ (if str_eq k j then u else get_or j u d)
  unfolding get_or
  get_or-delete j k u d = ground (arith, get-delete j k d)
