-- ===== src/Users/Sort.antt =====
-- frontend/src/components/UserManagement.tsx: the filter and the order of the list.
-- `localeCompare` and the floating-point quotients of the order by quota are arguments.
pub mod Laws
use ogs_swg.Prelude.{
  ℕ, ◌-◌, String, List, [], ◌∷◌, Option, none, some, Bool, true, false, not, ◌&&◌, ◌||◌, ltb, ◌==◌,
  truthy, filter, has, if◌then◌else◌,
}
use ogs_swg.Prelude.Sorting.{sort}
use ogs_swg.Prelude.Int.{ℤ, pos, negsuc, sub_ℕ, neg, is_negative}
use ogs_swg.Wire.{UserStatus}
use ogs_swg.Users.{
  Page, SortKey, by_user, by_quota, by_usage, by_status, by_last_seen, SortDir, asc, desc,
}

-- The platform: the order of texts in the user's language, and floating-point numbers. Of a
-- difference only the sign matters, since `sort` reads no more.
pub record Platform : Type 1 where
  pub locale_compare : String → String → ℤ
  pub Float : Type 0
  pub zero_float : Float
  pub quotient : ℕ → ℕ → Float
  -- `Math.abs(x - y) < 0.0001`
  pub close : Float → Float → Bool
  -- the sign of `x - y`
  pub minus : Float → Float → ℤ

abbrev pub directed : SortDir → ℤ → ℤ
directed asc d = d
directed desc d = neg d

abbrev pub last_seen : UserStatus → ℕ
last_seen u = elim u.last_seen [ none ↦ 0 | some t ↦ t ]

-- `u.total > (u.quota_limit || Infinity)`
abbrev pub over_limit : UserStatus → Bool
over_limit u = if u.quota_limit == 0 then false else ltb u.quota_limit u.total

module _ (platform : Platform) where
  open platform use {locale_compare, Float, zero_float, quotient, close, minus}

  abbrev pub ratio : UserStatus → Float
  ratio u = if u.quota_limit == 0 then zero_float else quotient u.total u.quota_limit

  -- The function that `sort` gets. In the order by status the conditional operator takes in the
  -- difference: it is `a ? 1 : (0 - (b ? 1 : 0))`.
  unfoldable pub compare_users : SortKey → SortDir → UserStatus → UserStatus → ℤ
  compare_users by_quota dir a b =
      if close (ratio a) (ratio b)
      then directed dir (sub_ℕ a.total b.total)
      else directed dir (minus (ratio a) (ratio b))
  compare_users by_usage dir a b = directed dir (sub_ℕ a.total b.total)
  compare_users by_status dir a b =
      directed dir (if over_limit a then pos 1 else if over_limit b then negsuc 0 else pos 0)
  compare_users by_last_seen dir a b = directed dir (sub_ℕ (last_seen a) (last_seen b))
  compare_users by_user dir a b = directed dir (locale_compare a.name b.name)

-- Which users the filter leaves.
abbrev pub passes : String → UserStatus → Bool
passes inbound u =
    not (truthy inbound)
    || elim u.inbound_tags [ none ↦ not (truthy inbound) | some tags ↦ has tags inbound ]

unfoldable pub filtered_users : Page → List UserStatus
filtered_users p = filter (passes p.filter_inbound) p.users

unfoldable pub sorted_users : Platform → Page → List UserStatus
sorted_users platform p = sort (compare_users platform p.sort_key p.sort_dir) (filtered_users p)

abbrev pub same_key : SortKey → SortKey → Bool
same_key by_user by_user = true
same_key by_quota by_quota = true
same_key by_usage by_usage = true
same_key by_status by_status = true
same_key by_last_seen by_last_seen = true
same_key _ _ = false

abbrev pub flip : SortDir → SortDir
flip asc = desc
flip desc = asc

-- Numbers and times start in descending order.
abbrev pub first_dir : SortKey → SortDir
first_dir by_user = asc
first_dir _ = desc

unfoldable pub toggle_sort : SortKey → Page → Page
toggle_sort key p =
    if same_key p.sort_key key
    then record p { sort_dir = flip p.sort_dir }
    else record p { sort_key = key; sort_dir = first_dir key }

pub data SortIcon : Type 0 where
  up_down up down : SortIcon

unfoldable pub render_sort_icon : SortKey → Page → SortIcon
render_sort_icon key p =
    if same_key p.sort_key key then elim p.sort_dir [ asc ↦ up | desc ↦ down ] else up_down
