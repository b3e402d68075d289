-- ===== src/Users/Uuid.antt =====
-- frontend/src/components/UserManagement.tsx: the random identifier of a user.
use ogs_swg.Prelude.{
  ℕ, ◌+◌, ◌%◌, ◌==◌, suc, code, String, Bool, true, false, if◌then◌else◌, ltb, ◌&&◌, ◌||◌, ◌≡◌,
  refl, arith, ◌<◌, table, table-row, inl, inr, Bool-cases,
}
use Prim.Native.Char.{Char}

-- The draws are those of `Math.random() * 16 | 0`; `r & 3 | 8` is `8 + r % 4`.
unfoldable pub hex_char : ℕ → Char
hex_char n =
    if n == 0
    then "0"
    else if n == 1
    then "1"
    else if n == 2
    then "2"
    else if n == 3
    then "3"
    else if n == 4
    then "4"
    else if n == 5
    then "5"
    else if n == 6
    then "6"
    else if n == 7
    then "7"
    else if n == 8
    then "8"
    else if n == 9
    then "9"
    else if n == 10
    then "a"
    else if n == 11
    then "b"
    else if n == 12
    then "c"
    else if n == 13
    then "d"
    else if n == 14
    then "e"
    else "f"

unfoldable pub replace_xy : (ℕ → ℕ) → ℕ → String → String
unfolding hex_char
replace_xy draws i String.[] = ""
replace_xy draws i (String.◌∷◌ c s) =
    let after = replace_xy draws (suc i) s in
    let same = replace_xy draws i s in
    if code c == 120
    then String.◌∷◌ (hex_char (draws i)) after
    else if code c == 121
    then String.◌∷◌ (hex_char (8 + draws i % 4)) after
    else String.◌∷◌ c same

abbrev pub uuid_template : String
uuid_template = "xxxxxxxx-xxxx-4xxx-yxxx-xxxxxxxxxxxx"

-- A text that has the form of a template: a digit of base 16 for each `x`, one of `8`, `9`, `a` and
-- `b` for each `y`, and every other character as it is.
abbrev pub is_hex : ℕ → Bool
is_hex c = (ltb 47 c && ltb c 58) || (ltb 96 c && ltb c 103)

abbrev pub is_variant : ℕ → Bool
is_variant c = c == 56 || c == 57 || c == 97 || c == 98

unfoldable pub fits : String → String → Bool
fits String.[] String.[] = true
fits (String.◌∷◌ t ts) (String.◌∷◌ c cs) =
    let rest = fits ts cs in
    (if code t == 120
      then is_hex (code c)
      else if code t == 121
      then is_variant (code c)
      else code c == code t)
    && rest
fits _ _ = false

hex_table : table (λ n. is_hex (code (hex_char n))) 16 ≡ true
unfolding hex_char table
hex_table = refl

variant_table : table (λ n. is_variant (code (hex_char (8 + n)))) 4 ≡ true
unfolding hex_char table
variant_table = refl

itself : (n : ℕ) → n == n ≡ true
itself n = ground arith

-- Whatever the draws are, each below 16, the text has the form of the template.
pub fits-replace_xy :
    (draws : ℕ → ℕ) (i : ℕ) (t : String)
    → ((k : ℕ) → draws k < 16)
    → fits t (replace_xy draws i t) ≡ true
unfolding fits replace_xy
fits-replace_xy draws i String.[] h = refl
fits-replace_xy draws i (String.◌∷◌ c s) h =
    let hex = table-row (λ n. is_hex (code (hex_char n))) 16 (draws i) (h i) hex_table in
    let variant =
      table-row (λ n. is_variant (code (hex_char (8 + n)))) 4 (draws i % 4) (omega arith)
        variant_table in
    elim (Bool-cases (code c == 120)) [
      | inl x ↦ rw (x, x, hex) (fits-replace_xy draws (suc i) s h)
      | inr other ↦ elim (Bool-cases (code c == 121)) [
        | inl y ↦ rw (other, y, other, y, variant) (fits-replace_xy draws (suc i) s h)
        | inr same ↦ rw (other, same, other, same, itself (code c)) (fits-replace_xy draws i s h)
      ]
    ]

uuid_test : replace_xy (λ i. i % 16) 0 uuid_template ≡ "01234567-89ab-4cde-b012-3456789abcde"
unfolding replace_xy hex_char
uuid_test = refl
