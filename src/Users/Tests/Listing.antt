-- ===== src/Users/Tests/Listing.antt =====
-- Examples for the list of users (frontend/src/components/UserManagement.tsx).
use mathlib.Core.List.{Perm}
use ogs_swg.Prelude.{ℕ, ◌/◌, ◌<◌, [], ◌∷◌, some, true, false, ◌≡◌, refl, arith, length, HasNoRepeat}
use ogs_swg.Prelude.Int.{pos, sub_ℕ, is_negative}
use ogs_swg.Prelude.Sorting.{AllPairs}
use ogs_swg.Users.{Page, by_status, by_usage, desc}
use ogs_swg.Users.Sort.{Platform, compare_users, sorted_users, filtered_users}
use ogs_swg.Users.Sort.Laws.{
  IsTextOrder, InOrder, sorted_users-AllPairs, compare_users-by_status_desc,
}
use ogs_swg.Users.Bulk.{Random, users_to_create}
use ogs_swg.Users.Bulk.Laws.{names, users_to_create-sequential}
use ogs_swg.Users.Rows.Laws.{apply, apply-row, remove}
use ogs_swg.Users.Tests.{ann, bob, page}

-- All texts compare as equal, and a quotient is rounded down to a whole number.
abbrev platform : Platform
platform = record {
  locale_compare = λ s t. pos 0;
  Float = ℕ;
  zero_float = 0;
  quotient = λ x y. x / y;
  close = λ x y. false;
  minus = λ x y. sub_ℕ x y;
}

platform-IsTextOrder : IsTextOrder platform
platform-IsTextOrder = record { opposite = λ s t. refl; trans = λ s t u h h'. refl }

abbrev by_use : Page
by_use = record page { sort_key = by_usage; sort_dir = desc }

sorted_users-AllPairs_example :
    Perm (sorted_users platform by_use) (filtered_users by_use)
    × AllPairs (InOrder platform by_usage desc) (sorted_users platform by_use)
sorted_users-AllPairs_example = sorted_users-AllPairs platform by_use platform-IsTextOrder refl

compare_users-by_status_desc_example :
    (is_negative (compare_users platform by_status desc ann bob) ≡ true)
    × (is_negative (compare_users platform by_status desc bob ann) ≡ true)
compare_users-by_status_desc_example = compare_users-by_status_desc platform ann bob refl refl

abbrev rnd : Random
rnd = record { uuid = λ i. "u"; suffix = λ i. "x" }

abbrev three : Page
three = record page {
  bulk_config = record page.bulk_config { count = some (pos 3); start_index = some (pos 9) };
}

users_to_create-sequential_example :
    (length (users_to_create rnd three) ≡ 3) × HasNoRepeat (names (users_to_create rnd three))
users_to_create-sequential_example = users_to_create-sequential rnd three 9 refl refl

abbrev one_row : Page
one_row = record page { inbound_rows = record { tag = "in-a"; flow = "" } ∷ [] }

apply-row_example : 0 < length (apply (remove 0) one_row).inbound_rows
apply-row_example = apply-row (remove 0) one_row (omega arith)
