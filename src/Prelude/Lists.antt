-- ===== src/Prelude/Lists.antt =====
-- Lists counted by the native numbers, Boolean searches and predicates on all members.
use Prim.Native.Nat.{ℕ, zero, suc, ◌+◌, ◌≤◌, ◌<◌}
use mathlib.Core.Path.{◌≡◌, refl}
use mathlib.Core.Logic.{◌⊎◌, inl, inr}
use mathlib.Core.Bool.{Bool, true, false, not, ◌&&◌, ◌||◌}
use mathlib.Core.Option.{Option, none, some}
use mathlib.Core.List.{List, [], ◌∷◌, ◌++◌, map}
use native.Mathlib.Omega.{arith}
use ogs_swg.Prelude.Tests.{if◌then◌else◌}

module _ {ℓ} {A : Type ℓ} where
  abbrev pub length : List A → ℕ
  length [] = 0
  length (_ ∷ xs) = suc (length xs)

  abbrev pub get_elem? : List A → ℕ → Option A
  get_elem? [] _ = none
  get_elem? (x ∷ _) zero = some x
  get_elem? (_ ∷ xs) (suc i) = get_elem? xs i

  -- `Array.prototype.some`, `every`, `filter` and `find`.
  abbrev pub any : (A → Bool) → List A → Bool
  any p [] = false
  any p (x ∷ xs) = p x || any p xs

  abbrev pub all : (A → Bool) → List A → Bool
  all p [] = true
  all p (x ∷ xs) = p x && all p xs

  abbrev pub filter : (A → Bool) → List A → List A
  filter p [] = []
  filter p (x ∷ xs) = let rest = filter p xs in if p x then x ∷ rest else rest

  abbrev pub find : (A → Bool) → List A → Option A
  find p [] = none
  find p (x ∷ xs) = let rest = find p xs in if p x then some x else rest

  -- `map((x, idx) => idx === i ? f(x) : x)` and `filter((_, idx) => idx !== i)`
  abbrev pub modify_at : ℕ → (A → A) → List A → List A
  modify_at i f [] = []
  modify_at zero f (x ∷ xs) = f x ∷ xs
  modify_at (suc i) f (x ∷ xs) = x ∷ modify_at i f xs

  abbrev pub remove_at : ℕ → List A → List A
  remove_at i [] = []
  remove_at zero (x ∷ xs) = xs
  remove_at (suc i) (x ∷ xs) = x ∷ remove_at i xs

  pub length-modify_at : (i : ℕ) (f : A → A) (xs : List A) → length (modify_at i f xs) ≡ length xs
  length-modify_at i f [] = refl
  length-modify_at zero f (x ∷ xs) = refl
  length-modify_at (suc i) f (x ∷ xs) = omega (arith, length-modify_at i f xs)

  pub le-length-remove_at : (i : ℕ) (xs : List A) → length xs ≤ length (remove_at i xs) + 1
  le-length-remove_at i [] = omega arith
  le-length-remove_at zero (x ∷ xs) = omega arith
  le-length-remove_at (suc i) (x ∷ xs) = omega (arith, le-length-remove_at i xs)

  pub length-append : (xs ys : List A) → length (xs ++ ys) ≡ length xs + length ys
  length-append [] ys = omega arith
  length-append (_ ∷ xs) ys = omega (arith, length-append xs ys)

  pub length-filter-le : (p : A → Bool) (xs : List A) → length (filter p xs) ≤ length xs
  length-filter-le p [] = omega arith
  length-filter-le p (x ∷ xs) = ground (arith, length-filter-le p xs)

pub List-cases {ℓ} :
    {A : Type ℓ} (xs : List A) → (xs ≡ []) ⊎ ((x : A) × (rest : List A) × (xs ≡ x ∷ rest))
List-cases [] = inl refl
List-cases (x ∷ xs) = inr (x, xs, refl)

module _ {ℓ} {A : Type ℓ} (p : A → Bool) where
  pub any-filter_nil : (xs : List A) → filter p xs ≡ [] → any p xs ≡ false
  any-filter_nil [] h = refl
  any-filter_nil (x ∷ xs) h = ground (arith, any-filter_nil xs)

  pub any-filter_cons :
      (xs : List A) {y : A} {rest : List A} → filter p xs ≡ y ∷ rest → any p xs ≡ true
  any-filter_cons [] h = cc
  any-filter_cons (x ∷ xs) {y} {rest} h = ground (arith, any-filter_cons xs {y = y} {rest = rest})

module _ {ℓ κ} {A : Type ℓ} (P : A → Type κ) where
  abbrev pub All : List A → Type κ
  All [] = Unit
  All (x ∷ xs) = P x × All xs

  pub All-append : (xs ys : List A) → All xs → All ys → All (xs ++ ys)
  All-append [] ys _ k = k
  All-append (_ ∷ xs) ys (p, h) k = (p, All-append xs ys h k)

pub length-map {ℓ κ} :
    {A : Type ℓ} {B : Type κ} (f : A → B) (xs : List A) → length (map f xs) ≡ length xs
length-map f [] = refl
length-map f (_ ∷ xs) = omega (arith, length-map f xs)

-- A finite table is checked by evaluation: the test of each of its rows, from the last one down.
module _ (test : ℕ → Bool) where
  unfoldable pub table : ℕ → Bool
  table zero = true
  table (suc size) = test size && table size

  pub table-row : (size row : ℕ) → row < size → table size ≡ true → test row ≡ true
  unfolding table
  table-row zero row below checked = absurd (omega arith)
  table-row (suc size) row below checked = ground (arith, table-row size row)

module _ {ℓ} {A : Type ℓ} (p : A → Bool) where
  pub filter-append : (xs ys : List A) → filter p (xs ++ ys) ≡ filter p xs ++ filter p ys
  filter-append [] ys = refl
  filter-append (x ∷ xs) ys = ground (arith, filter-append xs ys)

  -- What passes a test passes it again, and fails its negation.
  pub filter-filter : (xs : List A) → filter p (filter p xs) ≡ filter p xs
  filter-filter [] = refl
  filter-filter (x ∷ xs) = ground (arith, filter-filter xs)

  pub filter-filter-not : (xs : List A) → filter p (filter (λ x. not (p x)) xs) ≡ []
  filter-filter-not [] = refl
  filter-filter-not (x ∷ xs) = ground (arith, filter-filter-not xs)
