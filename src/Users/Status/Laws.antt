-- ===== src/Users/Status/Laws.antt =====
-- frontend/src/components/UserManagement.tsx: the displayed state of a user.
use ogs_swg.Prelude.{
  ℕ, ◌/◌, ◌+◌, ◌*◌, ◌<◌, ◌≤◌, String, [], ◌∷◌, ◌≡◌, inl, inr, arith, ltb, concat, Bool-cases,
}
use ogs_swg.Wire.{UserStatus}
use ogs_swg.Encoding.Decimal.{decimal}
use ogs_swg.Users.Status.{elapsed, format_time_ago, row_status, card_status}

-- The table and the cards show the same state of a user.
pub row_status-eq-card_status : (now : ℕ) (u : UserStatus) → row_status now u ≡ card_status now u
unfolding row_status card_status
row_status-eq-card_status now u = ground arith

-- The unit that a time is given in, with the bounds of the number before it.
pub data Shown (seconds : ℕ) (text : String) : Type 0 where
  just_now : seconds < 60 → text ≡ "Just now" → Shown seconds text
  minutes :
      (m : ℕ)
      → 1 ≤ m
      → m < 60
      → m * 60 ≤ seconds
      → seconds < (m + 1) * 60
      → text ≡ concat (decimal m ∷ "m ago" ∷ [])
      → Shown seconds text
  hours :
      (h : ℕ)
      → 1 ≤ h
      → h < 24
      → h * 3600 ≤ seconds
      → seconds < (h + 1) * 3600
      → text ≡ concat (decimal h ∷ "h ago" ∷ [])
      → Shown seconds text
  days :
      (d : ℕ)
      → 1 ≤ d
      → d * 86400 ≤ seconds
      → seconds < (d + 1) * 86400
      → text ≡ concat (decimal d ∷ "d ago" ∷ [])
      → Shown seconds text

-- A time that is not 0 is shown in whole minutes below an hour, in hours below a day, and then in
-- days, each rounded down and never 0.
pub format_time_ago-Shown :
    (now timestamp : ℕ)
    → 0 < timestamp
    → Shown (elapsed now timestamp) (format_time_ago now timestamp)
unfolding format_time_ago
format_time_ago-Shown now timestamp pos =
    let s : ℕ = elapsed now timestamp in
    elim (Bool-cases (ltb s 60)) [
      | inl a ↦ just_now (ground arith) (ground arith)
      | inr a ↦ elim (Bool-cases (ltb (s / 60) 60)) [
        | inl b ↦
            minutes (s / 60) (ground arith) (ground arith) (omega arith) (omega arith)
              (ground arith)
        | inr b ↦ elim (Bool-cases (ltb (s / 60 / 60) 24)) [
          | inl c ↦
              hours (s / 60 / 60) (ground arith) (ground arith) (omega arith) (omega arith)
                (ground arith)
          | inr c ↦
              days (s / 60 / 60 / 24) (ground arith) (omega arith) (omega arith) (ground arith)
        ]
      ]
    ]
