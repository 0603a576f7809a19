-- ===== src/Prelude/Lists.antt =====
-- Arrays as lists, measured and indexed by native numbers.
use Prim.Native.Nat.{ℕ, zero, suc, ◌+◌, ◌-◌, ◌≤◌, ◌<◌}
use mathlib.Core.Path.{◌≡◌, refl, ap}
use mathlib.Core.Bool.{Bool, true, false, ◌&&◌, ◌||◌}
use mathlib.Core.List.{List, [], ◌∷◌, ◌++◌}
use mathlib.Core.Option.{Option, none, some}
use mathlib.Core.Option
use native.Mathlib.Omega.{arith}
use agent_comm_hub.Prelude.Tests.{if◌then◌else◌, ◌==◌}

module _ {ℓ} {A : Type ℓ} where
  abbrev pub length : List A → ℕ
  length [] = 0
  length (x ∷ xs) = suc (length xs)

  abbrev pub get_elem? : List A → ℕ → Option A
  get_elem? [] i = none
  get_elem? (x ∷ xs) zero = some x
  get_elem? (x ∷ xs) (suc i) = get_elem? xs i

  abbrev pub drop : ℕ → List A → List A
  drop zero xs = xs
  drop (suc n) [] = []
  drop (suc n) (x ∷ xs) = drop n xs

  abbrev pub take : ℕ → List A → List A
  take zero xs = []
  take (suc n) [] = []
  take (suc n) (x ∷ xs) = x ∷ take n xs

  -- `array.splice(i, 1)`: removes the element at `i`.
  abbrev pub remove_at : ℕ → List A → List A
  remove_at i [] = []
  remove_at zero (x ∷ xs) = xs
  remove_at (suc i) (x ∷ xs) = x ∷ remove_at i xs

  -- `array.splice(i, 0, a)`: inserts before the element at `i`.
  abbrev pub insert_at : ℕ → A → List A → List A
  insert_at zero a xs = a ∷ xs
  insert_at (suc i) a [] = a ∷ []
  insert_at (suc i) a (x ∷ xs) = x ∷ insert_at i a xs

  -- `array.slice(-n)`; `slice(-0)` is `slice(0)`, the whole array.
  abbrev pub slice_last : ℕ → List A → List A
  slice_last n xs = if n == 0 then xs else drop (length xs - n) xs

  abbrev pub filter : (A → Bool) → List A → List A
  filter p [] = []
  filter p (x ∷ xs) = if p x then x ∷ filter p xs else filter p xs

  abbrev pub any : (A → Bool) → List A → Bool
  any p [] = false
  any p (x ∷ xs) = p x || any p xs

  abbrev pub all : (A → Bool) → List A → Bool
  all p [] = true
  all p (x ∷ xs) = p x && all p xs

  -- `array.find`
  abbrev pub find : (A → Bool) → List A → Option A
  find p [] = none
  find p (x ∷ xs) = if p x then some x else find p xs

  abbrev later_or : Option A → Option A → Option A
  later_or here none = here
  later_or here (some later) = some later

  -- `array.findLast`
  abbrev pub find_last : (A → Bool) → List A → Option A
  find_last p [] = none
  find_last p (x ∷ xs) = later_or (if p x then some x else none) (find_last p xs)

  -- `array.findIndex`, with `none` for -1
  abbrev pub find_index : (A → Bool) → List A → Option ℕ
  find_index p [] = none
  find_index p (x ∷ xs) = if p x then some 0 else Option.map suc (find_index p xs)

  -- `option ?? d`
  abbrev pub or_default : Option A → A → A
  or_default none d = d
  or_default (some a) d = a

  pub length-append : (xs ys : List A) → length (xs ++ ys) ≡ length xs + length ys
  length-append [] ys = omega arith
  length-append (x ∷ xs) ys = omega (arith, length-append xs ys)

  pub take-drop : (n : ℕ) (xs : List A) → take n xs ++ drop n xs ≡ xs
  take-drop zero xs = refl
  take-drop (suc n) [] = refl
  take-drop (suc n) (x ∷ xs) = ap (λ ys. x ∷ ys) (take-drop n xs)

  pub length-drop : (n : ℕ) (xs : List A) → length (drop n xs) ≡ length xs - n
  length-drop zero xs = omega arith
  length-drop (suc n) [] = omega arith
  length-drop (suc n) (x ∷ xs) = omega (arith, length-drop n xs)

  pub length-remove_at :
      (i : ℕ) (xs : List A) → i < length xs → suc (length (remove_at i xs)) ≡ length xs
  length-remove_at i [] h = absurd (omega arith)
  length-remove_at zero (x ∷ xs) h = refl
  length-remove_at (suc i) (x ∷ xs) h = omega (arith, length-remove_at i xs)

  pub length-insert_at : (i : ℕ) (a : A) (xs : List A) → length (insert_at i a xs) ≡ suc (length xs)
  length-insert_at zero a xs = refl
  length-insert_at (suc i) a [] = refl
  length-insert_at (suc i) a (x ∷ xs) = ap suc (length-insert_at i a xs)

  pub length-filter-le : (p : A → Bool) (xs : List A) → length (filter p xs) ≤ length xs
  length-filter-le p [] = omega arith
  length-filter-le p (x ∷ xs) = ground (arith, length-filter-le p xs)

  pub find_index-lt :
      (p : A → Bool) (xs : List A) {i : ℕ} → find_index p xs ≡ some i → i < length xs
  find_index-lt p [] h = ground arith
  find_index-lt p (x ∷ xs) {i = zero} h = omega arith
  find_index-lt p (x ∷ xs) {i = suc i} h =
      ground (arith, find_index-lt p xs {i = i}, Option.map-eq-some_iff suc (find_index p xs))

  pub find_index-zero :
      (p : A → Bool) (x : A) (xs : List A) → find_index p (x ∷ xs) ≡ some 0 → p x ≡ true
  find_index-zero p x xs h = ground (arith, Option.map-eq-some_iff suc (find_index p xs) {b = 0})

  pub find_index-suc :
      (p : A → Bool) (x : A) (xs : List A) (i : ℕ)
      → find_index p (x ∷ xs) ≡ some (suc i)
      → (p x ≡ false) × (find_index p xs ≡ some i)
  find_index-suc p x xs i h =
      ground (arith, Option.map-eq-some_iff suc (find_index p xs) {b = suc i})

  pub find_index-none :
      (p : A → Bool) (x : A) (xs : List A)
      → find_index p (x ∷ xs) ≡ none
      → (p x ≡ false) × (find_index p xs ≡ none)
  find_index-none p x xs h = ground arith
