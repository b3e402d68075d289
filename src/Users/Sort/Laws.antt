-- ===== src/Users/Sort/Laws.antt =====
-- frontend/src/components/UserManagement.tsx: the order of the list.
use mathlib.Core.List.{Perm}
use ogs_swg.Prelude.{String, Bool, true, false, none, some, ◌≤◌, ◌≡◌, refl, ap, ◌≢◌, arith}
use ogs_swg.Prelude.Sorting.{IsAsymmetric, AllPairs, sort-AllPairs}
use ogs_swg.Prelude.Int.{neg, is_negative}
use ogs_swg.Wire.{UserStatus}
use ogs_swg.Users.{
  Page, SortKey, by_user, by_quota, by_usage, by_status, by_last_seen, SortDir, asc, desc,
}
use ogs_swg.Users.Sort.{
  Platform, ratio, over_limit, compare_users, sorted_users, filtered_users, same_key, toggle_sort,
  render_sort_icon, up_down, flip,
}

-- The columns whose comparison is consistent. That by quota takes quotients that are close as equal,
-- so its order is not transitive; that by status compares a user over its limit as more than itself.
abbrev pub is_consistent : SortKey → Bool
is_consistent by_user = true
is_consistent by_usage = true
is_consistent by_last_seen = true
is_consistent _ = false

-- What is asked of the order of texts: it is total and transitive.
abbrev pub IsNotAfter : Platform → String → String → Type 0
IsNotAfter platform s t = is_negative (platform.locale_compare t s) ≡ false

pub record IsTextOrder (platform : Platform) : Type 0 where
  pub opposite : (s t : String) → platform.locale_compare t s ≡ neg (platform.locale_compare s t)
  pub trans :
      (s t u : String) → IsNotAfter platform s t → IsNotAfter platform t u → IsNotAfter platform s u

-- What a column says of a user that comes before another one in its ascending order.
abbrev pub Ascends : Platform → SortKey → UserStatus → UserStatus → Type 0
Ascends platform by_user a b = IsNotAfter platform a.name b.name
Ascends platform by_usage a b = a.total ≤ b.total
Ascends platform by_last_seen a b =
    elim a.last_seen [ none ↦ 0 | some t ↦ t ] ≤ elim b.last_seen [ none ↦ 0 | some t ↦ t ]
Ascends platform by_status a b = over_limit a ≡ true → over_limit b ≡ true
Ascends platform by_quota a b =
    is_negative (platform.minus (ratio platform b) (ratio platform a)) ≡ false

abbrev pub InOrder : Platform → SortKey → SortDir → UserStatus → UserStatus → Type 0
InOrder platform key asc a b = Ascends platform key a b
InOrder platform key desc a b = Ascends platform key b a

module _ (platform : Platform) (c : IsTextOrder platform) where
  compare_users-IsAsymmetric :
      (key : SortKey) (dir : SortDir)
      → is_consistent key ≡ true
      → IsAsymmetric (compare_users platform key dir)
  unfolding compare_users
  compare_users-IsAsymmetric by_user asc ok a b h = ground (arith, c.opposite a.name b.name)
  compare_users-IsAsymmetric by_user desc ok a b h = ground (arith, c.opposite a.name b.name)
  compare_users-IsAsymmetric by_usage asc ok a b h = ground arith
  compare_users-IsAsymmetric by_usage desc ok a b h = ground arith
  compare_users-IsAsymmetric by_last_seen asc ok a b h = ground arith
  compare_users-IsAsymmetric by_last_seen desc ok a b h = ground arith
  compare_users-IsAsymmetric by_quota dir ok a b h = cc ok
  compare_users-IsAsymmetric by_status dir ok a b h = cc ok

  compare_users-InOrder :
      (key : SortKey) (dir : SortDir)
      → is_consistent key ≡ true
      → (a b : UserStatus) → is_negative (compare_users platform key dir b a) ≡ false
      → InOrder platform key dir a b
  unfolding compare_users
  compare_users-InOrder by_user asc ok a b h = h
  compare_users-InOrder by_user desc ok a b h = ground (arith, c.opposite a.name b.name)
  compare_users-InOrder by_usage asc ok a b h = ground arith
  compare_users-InOrder by_usage desc ok a b h = ground arith
  compare_users-InOrder by_last_seen asc ok a b h = ground arith
  compare_users-InOrder by_last_seen desc ok a b h = ground arith
  compare_users-InOrder by_quota dir ok a b h = cc ok
  compare_users-InOrder by_status dir ok a b h = cc ok

  Ascends-trans :
      (key : SortKey)
      → is_consistent key ≡ true
      → (a b d : UserStatus) → Ascends platform key a b
      → Ascends platform key b d
      → Ascends platform key a d
  Ascends-trans by_user ok a b d h h' = c.trans a.name b.name d.name h h'
  Ascends-trans by_usage ok a b d h h' = omega arith
  Ascends-trans by_last_seen ok a b d h h' = omega arith
  Ascends-trans by_quota ok a b d h h' = cc ok
  Ascends-trans by_status ok a b d h h' = cc ok

  InOrder-trans :
      (key : SortKey) (dir : SortDir)
      → is_consistent key ≡ true
      → (a b d : UserStatus) → InOrder platform key dir a b
      → InOrder platform key dir b d
      → InOrder platform key dir a d
  InOrder-trans key asc ok a b d h h' = Ascends-trans key ok a b d h h'
  InOrder-trans key desc ok a b d h h' = Ascends-trans key ok d b a h' h

-- If the order of texts is total and transitive, and the page is in the order by name, by usage or by
-- the time last seen, it lists each user that passes the filter as often as the server does, and all
-- of them in the chosen direction: by their names in the order of texts, by their totals, or by their
-- times, where a missing one counts as 0.
pub sorted_users-AllPairs :
    (platform : Platform) (p : Page)
    → IsTextOrder platform
    → is_consistent p.sort_key ≡ true
    → Perm (sorted_users platform p) (filtered_users p)
      × AllPairs (InOrder platform p.sort_key p.sort_dir) (sorted_users platform p)
unfolding sorted_users
sorted_users-AllPairs platform p c ok =
    sort-AllPairs (compare_users platform p.sort_key p.sort_dir)
      (InOrder platform p.sort_key p.sort_dir)
      (compare_users-InOrder platform c p.sort_key p.sort_dir ok)
      (InOrder-trans platform c p.sort_key p.sort_dir ok) (filtered_users p)
      (compare_users-IsAsymmetric platform c p.sort_key p.sort_dir ok)

-- In the descending order by status two users over their limits each come before the other, so
-- the comparison is none that `sort` can be given.
pub compare_users-by_status_desc :
    (platform : Platform) (a b : UserStatus)
    → over_limit a ≡ true
    → over_limit b ≡ true
    → (is_negative (compare_users platform by_status desc a b) ≡ true)
      × (is_negative (compare_users platform by_status desc b a) ≡ true)
unfolding compare_users
compare_users-by_status_desc platform a b over_a over_b = ground arith

flip-flip : (d : SortDir) → flip (flip d) ≡ d
flip-flip asc = refl
flip-flip desc = refl

same_key_refl : (key : SortKey) → same_key key key ≡ true
same_key_refl by_user = refl
same_key_refl by_quota = refl
same_key_refl by_usage = refl
same_key_refl by_status = refl
same_key_refl by_last_seen = refl

render_sort_icon-arrow :
    (key : SortKey) (p : Page) → same_key p.sort_key key ≡ true → render_sort_icon key p ≢ up_down
unfolding render_sort_icon
render_sort_icon-arrow key p same = λ e. ground arith

toggle_sort-again :
    (key : SortKey) (p : Page)
    → same_key p.sort_key key ≡ true
    → toggle_sort key (toggle_sort key p) ≡ p
unfolding toggle_sort
toggle_sort-again key p same =
    rw same (rw same (ap (λ (d : SortDir). record p { sort_dir = d }) (flip-flip p.sort_dir)))

toggle_sort-same_key : (key : SortKey) (p : Page) → same_key (toggle_sort key p).sort_key key ≡ true
unfolding toggle_sort
toggle_sort-same_key key p = ground (arith, same_key_refl key)

-- After a click on the header of a column that column has an arrow, and two more clicks on it change
-- nothing.
pub toggle_sort-toggle_sort :
    (key : SortKey) (p : Page)
    → (toggle_sort key (toggle_sort key (toggle_sort key p)) ≡ toggle_sort key p)
      × (render_sort_icon key (toggle_sort key p) ≢ up_down)
toggle_sort-toggle_sort key p =
    let same : same_key (toggle_sort key p).sort_key key ≡ true = toggle_sort-same_key key p in
    (
      toggle_sort-again key (toggle_sort key p) same,
      render_sort_icon-arrow key (toggle_sort key p) same,
    )
