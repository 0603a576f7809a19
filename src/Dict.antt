-- ===== src/Dict.antt =====
-- A JavaScript `Map` with string keys, as the list of its entries in insertion order: writing to a
-- key that is there keeps its place, a new key goes to the end, and a deleted one leaves no gap.
pub mod Laws
use agent_comm_hub.Prelude.{
  ℕ, String, str_eq, if◌then◌else◌, Bool, true, false, Option, none, some, List, [], ◌∷◌, map, not,
  filter,
}

abbrev pub Dict {ℓ} : Type ℓ → Type ℓ
Dict V = List (String × V)

module _ {ℓ} {V : Type ℓ} where
  unfoldable pub get : String → Dict V → Option V
  get k [] = none
  get k ((j, v) ∷ d) = if str_eq j k then some v else get k d

  unfoldable pub set : String → V → Dict V → Dict V
  set k v [] = (k, v) ∷ []
  set k v ((j, w) ∷ d) = if str_eq j k then (j, v) ∷ d else (j, w) ∷ set k v d

  unfoldable pub delete : String → Dict V → Dict V
  delete k [] = []
  delete k ((j, w) ∷ d) = if str_eq j k then delete k d else (j, w) ∷ delete k d

  unfoldable pub has : String → Dict V → Bool
  unfolding get
  has k d = elim (get k d) [ none ↦ false | some _ ↦ true ]

  -- `map.get(k) ?? v`
  unfoldable pub get_or : String → V → Dict V → V
  unfolding get
  get_or k v d = elim (get k d) [ none ↦ v | some w ↦ w ]

  abbrev pub keys : Dict V → List String
  keys = map (λ e. e.0)

  abbrev pub values : Dict V → List V
  values = map (λ e. e.1)
