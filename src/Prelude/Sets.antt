-- ===== src/Prelude/Sets.antt =====
-- `Set<string>`: the members in the order of insertion, each once.
use Prim.Native.String.{String}
use mathlib.Core.Path.{◌≡◌, refl, sym, ◌∙◌}
use mathlib.Core.Logic.{inl, inr}
use mathlib.Core.Bool.{Bool, false, not, ◌&&◌, ◌||◌}
use mathlib.Core.List.{List, [], ◌∷◌, ◌++◌, append-nil, append_assoc}
use native.Mathlib.Omega.{arith}
use text.Mathlib.TextEquality.{eq_iff}
use text.Mathlib.TextPositions.{eq_refl}
use ogs_swg.Prelude.Tests.{if◌then◌else◌, Bool-cases}
use ogs_swg.Prelude.Lists.{filter}
use ogs_swg.Prelude.Text.{str_eq}

-- `has` and `includes`
abbrev pub has : List String → String → Bool
has [] a = false
has (x ∷ xs) a = str_eq x a || has xs a

abbrev pub add : List String → String → List String
add xs a = if has xs a then xs else xs ++ a ∷ []

abbrev pub delete : List String → String → List String
delete xs a = filter (λ x. not (str_eq x a)) xs

-- `new Set(xs)`
abbrev pub add_all : List String → List String → List String
add_all acc [] = acc
add_all acc (x ∷ xs) = add_all (add acc x) xs

abbrev pub set_of : List String → List String
set_of xs = add_all [] xs

-- No member twice.
abbrev pub HasNoRepeat : List String → Type 0
HasNoRepeat [] = Unit
HasNoRepeat (x ∷ xs) = (has xs x ≡ false) × HasNoRepeat xs

pub has-append : (xs ys : List String) (a : String) → has (xs ++ ys) a ≡ (has xs a || has ys a)
has-append [] ys a = refl
has-append (x ∷ xs) ys a = ground (arith, has-append xs ys a)

pub has-add : (xs : List String) (a b : String) → has (add xs a) b ≡ (str_eq a b || has xs b)
has-add xs a b = ground (arith, has-append xs (a ∷ []) b, eq_iff a b)

pub has-delete :
    (xs : List String) (a b : String) → has (delete xs a) b ≡ (not (str_eq a b) && has xs b)
has-delete [] a b = ground arith
has-delete (x ∷ xs) a b = ground (arith, has-delete xs a b, eq_iff x a, eq_iff x b, eq_iff a b)

pub has-add_all :
    (acc xs : List String) (b : String) → has (add_all acc xs) b ≡ (has acc b || has xs b)
has-add_all acc [] b = ground arith
has-add_all acc (x ∷ xs) b = ground (arith, has-add_all (add acc x) xs b, has-add acc x b)

pub has-set_of : (xs : List String) (b : String) → has (set_of xs) b ≡ has xs b
has-set_of xs b = has-add_all [] xs b

HasNoRepeat-append_one :
    (xs : List String) (a : String) → HasNoRepeat xs → has xs a ≡ false → HasNoRepeat (xs ++ a ∷ [])
HasNoRepeat-append_one [] a _ _ = (refl, tt)
HasNoRepeat-append_one (x ∷ xs) a (n, h) e = (
  ground (arith, has-append xs (a ∷ []) x, eq_iff x a, eq_iff a x),
  HasNoRepeat-append_one xs a h (ground arith),
)

pub HasNoRepeat-add : (xs : List String) (a : String) → HasNoRepeat xs → HasNoRepeat (add xs a)
HasNoRepeat-add xs a h = elim (Bool-cases (has xs a)) [
  | inl old ↦ rw old h
  | inr new ↦ rw new (HasNoRepeat-append_one xs a h new)
]

pub HasNoRepeat-add_all : (acc xs : List String) → HasNoRepeat acc → HasNoRepeat (add_all acc xs)
HasNoRepeat-add_all acc [] h = h
HasNoRepeat-add_all acc (x ∷ xs) h = HasNoRepeat-add_all (add acc x) xs (HasNoRepeat-add acc x h)

pub has-filter :
    (p : String → Bool) (xs : List String) (a : String) → has (filter p xs) a ≡ (p a && has xs a)
has-filter p [] a = ground arith
has-filter p (x ∷ xs) a = elim (Bool-cases (str_eq x a)) [
  | inl same ↦ rw ((eq_iff x a).0 same) (ground (arith, has-filter p xs a, eq_refl a))
  | inr other ↦ ground (arith, has-filter p xs a)
]

pub HasNoRepeat-filter :
    (p : String → Bool) (xs : List String) → HasNoRepeat xs → HasNoRepeat (filter p xs)
HasNoRepeat-filter p [] h = tt
HasNoRepeat-filter p (x ∷ xs) (n, h) = ground (arith, HasNoRepeat-filter p xs h, has-filter p xs x)

has-middle : (acc xs : List String) (x : String) → HasNoRepeat (acc ++ x ∷ xs) → has acc x ≡ false
has-middle [] xs x h = refl
has-middle (a ∷ acc) xs x (n, h) =
    ground (arith, has-append acc (x ∷ xs) a, has-middle acc xs x h, eq_iff a x, eq_iff x a)

-- A list without repetition is its own set.
add_all-fresh : (acc xs : List String) → HasNoRepeat (acc ++ xs) → add_all acc xs ≡ acc ++ xs
add_all-fresh acc [] h = sym (append-nil acc)
add_all-fresh acc (x ∷ xs) h = rw (has-middle acc xs x h) (
    add_all-fresh (acc ++ x ∷ []) xs (rw (append_assoc acc (x ∷ []) xs) h)
    ∙ append_assoc acc (x ∷ []) xs)

pub set_of-fresh : (xs : List String) → HasNoRepeat xs → set_of xs ≡ xs
set_of-fresh xs h = add_all-fresh [] xs h
