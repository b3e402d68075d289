-- ===== src/Users/Quota.antt =====
-- frontend/src/components/UserManagement.tsx: a quota as the form shows it.
use ogs_swg.Prelude.{ℕ, ◌+◌, ◌*◌, ◌/◌, ◌%◌, ◌≡◌, refl, String, [], ◌∷◌, concat, ltb, if◌then◌else◌}
use ogs_swg.Encoding.Decimal.{decimal}

-- The quota in the form of a text, as `(bytes / BYTES_PER_GB).toFixed(2)`: the division by 2 ^ 30 is
-- exact, and `toFixed` takes the nearest hundredth, the larger of two.
abbrev pub bytes_per_gb : ℕ
bytes_per_gb = 1024 * 1024 * 1024

abbrev hundredths : ℕ → ℕ
hundredths bytes = (bytes * 200 + bytes_per_gb) / (bytes_per_gb * 2)

abbrev pad_two : ℕ → String
pad_two n = if ltb n 10 then concat ("0" ∷ decimal n ∷ []) else decimal n

unfoldable pub bytes_to_gb_string : ℕ → String
unfolding decimal
bytes_to_gb_string bytes =
    if ltb 0 bytes
    then concat (decimal (hundredths bytes / 100) ∷ "." ∷ pad_two (hundredths bytes % 100) ∷ [])
    else ""

gb_test : bytes_to_gb_string 1600000000 ≡ "1.49"
unfolding bytes_to_gb_string
gb_test = refl
