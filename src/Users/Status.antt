-- ===== src/Users/Status.antt =====
-- frontend/src/components/UserManagement.tsx: the state of a user as its row and its card show it.
-- `Date.now()` is an argument, in milliseconds; a time that was seen is in whole seconds.
pub mod Laws
use ogs_swg.Prelude.{
  ℕ, ◌-◌, ◌/◌, ◌+◌, ◌<◌, String, [], ◌∷◌, Option, none, some, Bool, true, false, ltb, ◌==◌, concat,
  if◌then◌else◌,
}
use ogs_swg.Wire.{UserStatus}
use ogs_swg.Encoding.Decimal.{decimal}

-- `Math.floor((Date.now() / 1000) - timestamp)`, where 0 stands for a negative number too.
abbrev pub elapsed : ℕ → ℕ → ℕ
elapsed now timestamp = now / 1000 - timestamp

unfoldable pub format_time_ago : ℕ → ℕ → String
format_time_ago now timestamp =
    let seconds : ℕ = elapsed now timestamp in
    let minutes : ℕ = seconds / 60 in
    let hours : ℕ = minutes / 60 in
    if timestamp == 0
    then "Never"
    else if ltb seconds 60
    then "Just now"
    else if ltb minutes 60
    then concat (decimal minutes ∷ "m ago" ∷ [])
    else if ltb hours 24
    then concat (decimal hours ∷ "h ago" ∷ [])
    else concat (decimal (hours / 24) ∷ "d ago" ∷ [])

-- The colours of the dot.
pub data Color : Type 0 where
  slate_600 slate_700 emerald_500 red_500 amber_500 : Color

pub record Status : Type 0 where
  pub color : Color
  pub text : String
  pub is_online : Bool

abbrev pub is_exceeded : UserStatus → Bool
is_exceeded u = if u.quota_limit == 0 then false else ltb u.quota_limit u.total

-- `user.enabled`, where `undefined` is falsy.
abbrev pub is_enabled : UserStatus → Bool
is_enabled u = elim u.enabled [ none ↦ false | some b ↦ b ]

-- `user.last_seen`, 0 for `undefined`: both are falsy.
abbrev pub seen : UserStatus → ℕ
seen u = elim u.last_seen [ none ↦ 0 | some t ↦ t ]

-- `Math.floor(Date.now() / 1000) - user.last_seen < 300`
abbrev pub is_recent : ℕ → ℕ → Bool
is_recent now timestamp = ltb (now / 1000) (timestamp + 300)

abbrev exceed : UserStatus → Status → Status
exceed u st = if is_exceeded u then record st { color = amber_500; text = "Exceeded" } else st

-- The row of the table.
unfoldable pub row_status : ℕ → UserStatus → Status
unfolding format_time_ago
row_status now u = exceed u (
    if is_enabled u
    then if seen u == 0
      then record { color = slate_700; text = "Never"; is_online = false }
      else record {
        color = if is_recent now (seen u) then emerald_500 else slate_700;
        text = format_time_ago now (seen u);
        is_online = is_recent now (seen u);
      }
    else record { color = red_500; text = "Disabled"; is_online = false })

-- The card, which sets no text where the user was never seen.
unfoldable pub card_status : ℕ → UserStatus → Status
unfolding format_time_ago
card_status now u =
    let first : Status = record { color = slate_600; text = "Never"; is_online = false } in
    exceed u (
      if is_enabled u
      then if seen u == 0 then record first { color = slate_700 } else record first {
        text = format_time_ago now (seen u);
        color = if is_recent now (seen u) then emerald_500 else slate_700;
        is_online = is_recent now (seen u);
      }
      else record first { color = red_500; text = "Disabled" })
