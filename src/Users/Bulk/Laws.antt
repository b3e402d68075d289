-- ===== src/Users/Bulk/Laws.antt =====
-- frontend/src/components/UserManagement.tsx, `handleBulkCreate`: the number and the names of the users.
use text.Mathlib.TextLemmas.{append_cancel_left, append_cancel_right}
use ogs_swg.Prelude.{
  ℕ, zero, suc, ◌+◌, ◌<◌, String, List, [], ◌∷◌, map, Option, none, some, false, ◌≡◌, refl, arith,
  length, eq_iff, has, HasNoRepeat, concat,
}
use ogs_swg.Wire.{CreateUserRequest}
use ogs_swg.Encoding.Decimal.{decimal, decimal_inj}
use ogs_swg.Users.{Page, BulkConfig, sequential}
use ogs_swg.Prelude.Int.{pos}
use ogs_swg.Users.Bulk.{Random, bulk_user, bulk_from, users_to_create, rounds, plus}

abbrev pub names : List CreateUserRequest → List String
names us = map (λ (u : CreateUserRequest). u.name) us

length-bulk_from :
    (rnd : Random) (cfg : BulkConfig) (type : Option String) (left i : ℕ)
    → length (bulk_from rnd cfg type left i) ≡ left
unfolding bulk_from
length-bulk_from rnd cfg type zero i = refl
length-bulk_from rnd cfg type (suc left) i =
    omega (arith, length-bulk_from rnd cfg type left (suc i))

plus-pos : (first i : ℕ) → plus (some (pos first)) i ≡ some (pos (first + i))
plus-pos first i = ground arith

module _ (rnd : Random) (cfg : BulkConfig) (type : Option String) (first : ℕ)
    (numbered : cfg.mode ≡ sequential) (from : cfg.start_index ≡ some (pos first)) where
  name-sequential :
      (i : ℕ)
      → (bulk_user rnd cfg type i).name
        ≡ concat (concat (cfg.prefix ∷ "-" ∷ decimal (first + i) ∷ []) ∷ cfg.suffix ∷ [])
  unfolding bulk_user
  name-sequential i = rw (numbered, from, plus-pos first i) refl

  name_inj : (i j : ℕ) → (bulk_user rnd cfg type i).name ≡ (bulk_user rnd cfg type j).name → i ≡ j
  name_inj i j h =
      let whole = rw (name-sequential i, name-sequential j) at h in
      let numbers : decimal (first + i) ≡ decimal (first + j) =
        append_cancel_right (decimal (first + i)) (decimal (first + j)) "" (
          append_cancel_left "-" _ _
            (append_cancel_left cfg.prefix _ _ (append_cancel_right _ _ _ whole))) in
      omega (arith, decimal_inj (first + i) (first + j) numbers)

  has-later :
      (left i j : ℕ)
      → i < j
      → has (names (bulk_from rnd cfg type left j)) (bulk_user rnd cfg type i).name ≡ false
  unfolding bulk_from
  has-later zero i j h = refl
  has-later (suc left) i j h = ground (
    arith,
    has-later left i (suc j),
    eq_iff (bulk_user rnd cfg type j).name (bulk_user rnd cfg type i).name,
    name_inj j i,
  )

  HasNoRepeat-bulk_from : (left i : ℕ) → HasNoRepeat (names (bulk_from rnd cfg type left i))
  unfolding bulk_from
  HasNoRepeat-bulk_from zero i = tt
  HasNoRepeat-bulk_from (suc left) i =
      (has-later left i (suc i) (omega arith), HasNoRepeat-bulk_from left (suc i))

-- In sequential mode, with a first index that is not negative, as many users are sent as the count says
-- (none for a negative count and for none), and no two of them have the same name.
pub users_to_create-sequential :
    (rnd : Random) (s : Page) (first : ℕ)
    → s.bulk_config.mode ≡ sequential
    → s.bulk_config.start_index ≡ some (pos first)
    → (length (users_to_create rnd s) ≡ rounds s.bulk_config.count)
      × HasNoRepeat (names (users_to_create rnd s))
unfolding users_to_create
users_to_create-sequential rnd s first numbered from = (
  length-bulk_from rnd s.bulk_config _ (rounds s.bulk_config.count) 0,
  HasNoRepeat-bulk_from rnd s.bulk_config _ first numbered from (rounds s.bulk_config.count) 0,
)

-- Whether every user has this name.
abbrev pub AllNamed : String → List CreateUserRequest → Type 0
AllNamed name [] = Unit
AllNamed name (u ∷ us) = (u.name ≡ name) × AllNamed name us

abbrev pub nan_name : BulkConfig → String
nan_name cfg = concat (concat (cfg.prefix ∷ "-" ∷ "NaN" ∷ []) ∷ cfg.suffix ∷ [])

AllNamed-bulk_from :
    (rnd : Random) (cfg : BulkConfig) (type : Option String)
    → cfg.mode ≡ sequential
    → cfg.start_index ≡ none
    → (left i : ℕ) → AllNamed (nan_name cfg) (bulk_from rnd cfg type left i)
unfolding bulk_from bulk_user
AllNamed-bulk_from rnd cfg type numbered no_number zero i = tt
AllNamed-bulk_from rnd cfg type numbered no_number (suc left) i =
    (rw (numbered, no_number) refl, AllNamed-bulk_from rnd cfg type numbered no_number left (suc i))

-- In sequential mode, with a first index that is no number, all users have the same name.
pub users_to_create-AllNamed :
    (rnd : Random) (s : Page)
    → s.bulk_config.mode ≡ sequential
    → s.bulk_config.start_index ≡ none
    → AllNamed (nan_name s.bulk_config) (users_to_create rnd s)
unfolding users_to_create
users_to_create-AllNamed rnd s numbered no_number =
    AllNamed-bulk_from rnd s.bulk_config _ numbered no_number (rounds s.bulk_config.count) 0
