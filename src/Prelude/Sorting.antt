-- ===== src/Prelude/Sorting.antt =====
-- `Array.prototype.sort` with a comparison function: an insertion sort, and when its result is in
-- order.
use mathlib.Core.List.{Perm, perm_middle, List, [], ◌∷◌, ◌++◌, append-nil}
use mathlib.Core.List.Perm
use mathlib.Core.Path.{◌≡◌}
use mathlib.Core.Logic.{inl, inr}
use mathlib.Core.Bool.{true, false}
use ogs_swg.Prelude.Tests.{if◌then◌else◌, Bool-cases}
use ogs_swg.Prelude.Int.{ℤ, is_negative}

module _ {A : Type 0} (cmp : A → A → ℤ) where
  -- A stable sort: an element goes behind those that it does not compare as less than. A stable sort by a
  -- consistent comparison has one result. With one that contradicts itself, also where the order is not
  -- transitive, the order is up to the browser, and this is one of those allowed.
  unfoldable pub insert : A → List A → List A
  insert u [] = u ∷ []
  insert u (v ∷ vs) =
      let later = insert u vs in if is_negative (cmp u v) then u ∷ v ∷ vs else v ∷ later

  unfoldable pub sort_onto : List A → List A → List A
  unfolding insert
  sort_onto sorted [] = sorted
  sort_onto sorted (u ∷ us) = sort_onto (insert u sorted) us

  unfoldable pub sort : List A → List A
  unfolding sort_onto
  sort us = sort_onto [] us

  -- No two elements each come before the other.
  abbrev pub IsAsymmetric : Type 0
  IsAsymmetric = (a b : A) → is_negative (cmp a b) ≡ true → is_negative (cmp b a) ≡ false

  -- No element compares as less than the one before it.
  abbrev pub IsSorted : List A → Type 0
  IsSorted [] = Unit
  IsSorted (a ∷ []) = Unit
  IsSorted (a ∷ b ∷ us) = (is_negative (cmp b a) ≡ false) × IsSorted (b ∷ us)

  IsSorted-tail : (a : A) (us : List A) → IsSorted (a ∷ us) → IsSorted us
  IsSorted-tail a [] h = tt
  IsSorted-tail a (b ∷ us) h = h.1

  insert-perm : (u : A) (vs : List A) → Perm (insert u vs) (u ∷ vs)
  unfolding insert
  insert-perm u [] = Perm.refl _
  insert-perm u (v ∷ vs) = elim (Bool-cases (is_negative (cmp u v))) [
    | inl less ↦ rw less (Perm.refl _)
    | inr more ↦ rw more (Perm.trans (Perm.cons v (insert-perm u vs)) (Perm.swap _ _ _))
  ]

  sort_onto-perm : (sorted us : List A) → Perm (sort_onto sorted us) (us ++ sorted)
  unfolding sort_onto
  sort_onto-perm sorted [] = Perm.refl _
  sort_onto-perm sorted (u ∷ us) =
      Perm.trans (sort_onto-perm (insert u sorted) us)
        (Perm.trans (Perm.append_left us (insert-perm u sorted)) (perm_middle us sorted))

  -- Behind an element that is not greater, insertion keeps the order.
  insert-IsSorted_cons :
      (a u : A) (vs : List A)
      → IsAsymmetric
      → is_negative (cmp u a) ≡ false
      → IsSorted (a ∷ vs)
      → IsSorted (a ∷ insert u vs)
  unfolding insert
  insert-IsSorted_cons a u [] asym above h = (above, tt)
  insert-IsSorted_cons a u (v ∷ vs) asym above h = elim (Bool-cases (is_negative (cmp u v))) [
    | inl less ↦ rw less (above, (asym u v less, h.1))
    | inr more ↦ rw more (h.0, insert-IsSorted_cons v u vs asym more h.1)
  ]

  insert-IsSorted : (u : A) (vs : List A) → IsAsymmetric → IsSorted vs → IsSorted (insert u vs)
  unfolding insert
  insert-IsSorted u [] asym h = tt
  insert-IsSorted u (v ∷ vs) asym h = elim (Bool-cases (is_negative (cmp u v))) [
    | inl less ↦ rw less (asym u v less, h)
    | inr more ↦ rw more (insert-IsSorted_cons v u vs asym more h)
  ]

  sort_onto-IsSorted :
      (sorted us : List A) → IsAsymmetric → IsSorted sorted → IsSorted (sort_onto sorted us)
  unfolding sort_onto
  sort_onto-IsSorted sorted [] asym h = h
  sort_onto-IsSorted sorted (u ∷ us) asym h =
      sort_onto-IsSorted (insert u sorted) us asym (insert-IsSorted u sorted asym h)

  -- With a comparison that does not contradict itself the result is in order.
  pub sort-IsSorted : (us : List A) → IsAsymmetric → Perm (sort us) us × IsSorted (sort us)
  unfolding sort
  sort-IsSorted us asym =
      (rw (append-nil us) at (sort_onto-perm [] us), sort_onto-IsSorted [] us asym tt)

abbrev pub AllBehind : {A : Type 0} → (A → A → Type 0) → A → List A → Type 0
AllBehind R u [] = Unit
AllBehind R u (v ∷ vs) = R u v × AllBehind R u vs

-- Each element stands in the relation to all those behind it.
abbrev pub AllPairs : {A : Type 0} → (A → A → Type 0) → List A → Type 0
AllPairs R [] = Unit
AllPairs R (u ∷ us) = AllBehind R u us × AllPairs R us

module _ {A : Type 0} (cmp : A → A → ℤ) (R : A → A → Type 0)
    (below : (a b : A) → is_negative (cmp b a) ≡ false → R a b)
    (trans : (a b c : A) → R a b → R b c → R a c) where
  AllBehind-trans : (u v : A) (us : List A) → R u v → AllBehind R v us → AllBehind R u us
  AllBehind-trans u v [] h all = tt
  AllBehind-trans u v (w ∷ us) h all = (trans u v w h all.0, AllBehind-trans u v us h all.1)

  -- Where the relation is transitive, an order of neighbours is one of all elements.
  IsSorted-AllPairs : (us : List A) → IsSorted cmp us → AllPairs R us
  IsSorted-AllPairs [] h = tt
  IsSorted-AllPairs (u ∷ []) h = (tt, tt)
  IsSorted-AllPairs (u ∷ v ∷ us) h =
      let rest = IsSorted-AllPairs (v ∷ us) h.1 in
      let first = below u v h.0 in ((first, AllBehind-trans u v us first rest.0), rest)

  pub sort-AllPairs :
      (us : List A) → IsAsymmetric cmp → Perm (sort cmp us) us × AllPairs R (sort cmp us)
  sort-AllPairs us asym =
      let (perm, sorted) = sort-IsSorted cmp us asym in
      (perm, IsSorted-AllPairs (sort cmp us) sorted)
