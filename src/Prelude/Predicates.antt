-- ===== src/Prelude/Predicates.antt =====
-- Predicates on lists by recursion, which compute to tuples and sums.
use Prim.Native.Nat.{ℕ, zero, suc}
use mathlib.Core.Path.{◌≡◌, refl}
use mathlib.Core.Logic.{◌⊎◌}
use mathlib.Core.Bool.{Bool, true, false}
use mathlib.Core.List.{List, [], ◌∷◌, ◌++◌}
use native.Mathlib.Omega.{arith}
use agent_comm_hub.Prelude.Lists.{filter, remove_at, drop}

module _ {ℓ κ} {A : Type ℓ} where
  abbrev pub All : (A → Type κ) → List A → Type κ
  All P [] = Unit
  All P (x ∷ xs) = P x × All P xs

module _ {ℓ κ} {A : Type ℓ} (P : A → Type κ) where
  pub All-append : (xs ys : List A) → All P xs → All P ys → All P (xs ++ ys)
  All-append [] ys h k = k
  All-append (x ∷ xs) ys (p, h) k = (p, All-append xs ys h k)

  pub All-remove_at : (i : ℕ) (xs : List A) → All P xs → All P (remove_at i xs)
  All-remove_at i [] h = tt
  All-remove_at zero (x ∷ xs) h = h.1
  All-remove_at (suc i) (x ∷ xs) h = (h.0, All-remove_at i xs h.1)

  pub All-drop : (n : ℕ) (xs : List A) → All P xs → All P (drop n xs)
  All-drop zero xs h = h
  All-drop (suc n) [] h = tt
  All-drop (suc n) (x ∷ xs) h = All-drop n xs h.1

  pub All-filter : (p : A → Bool) (xs : List A) → All P xs → All P (filter p xs)
  All-filter p [] h = tt
  All-filter p (x ∷ xs) h = ground (arith, All-filter p xs h.1)

  pub All-mono {μ} : {Q : A → Type μ} (xs : List A) → ((a : A) → P a → Q a) → All P xs → All Q xs
  All-mono [] f h = tt
  All-mono (x ∷ xs) f h = (f x h.0, All-mono xs f h.1)

  pub All-forall : (xs : List A) → ((a : A) → P a) → All P xs
  All-forall [] f = tt
  All-forall (x ∷ xs) f = (f x, All-forall xs f)

-- Some element of the list has the property.
abbrev pub Any {ℓ} : {A : Type ℓ} → (A → Type 0) → List A → Type 0
Any P [] = ⊥
Any P (x ∷ xs) = P x ⊎ Any P xs

module _ {ℓ} {A : Type ℓ} where
  -- A filter that keeps everything, and one that keeps nothing.
  pub filter_of_All : (p : A → Bool) (xs : List A) → All (λ a. p a ≡ true) xs → filter p xs ≡ xs
  filter_of_All p [] h = refl
  filter_of_All p (x ∷ xs) h = ground (arith, filter_of_All p xs h.1)

  pub filter_of_none : (p : A → Bool) (xs : List A) → All (λ a. p a ≡ false) xs → filter p xs ≡ []
  filter_of_none p [] h = refl
  filter_of_none p (x ∷ xs) h = ground (arith, filter_of_none p xs h.1)
