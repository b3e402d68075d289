-- ===== src/Peers/Address.antt =====
-- frontend/src/components/WireGuard.tsx, `ipToNum`: the number that the order by address compares.
-- A part of an address that is beyond 2 ^ 53 is not rounded here.
use ogs_swg.Prelude.{
  ℕ, ◌+◌, ◌-◌, ◌*◌, ◌%◌, ◌^◌, ◌≡◌, refl, String, List, [], ◌∷◌, map, Option, none, some, Bool, ◌&&◌,
  code, trim, if◌then◌else◌, ◌==◌, leb, ltb,
}
use ogs_swg.Prelude.Int.{ℤ, pos, negsuc, pos_part, neg_part, sub_ℕ, neg}

-- `split` by one character: the first piece, and the others.
abbrev pub split_first : ℕ → String → String × List String
split_first sep String.[] = ("", [])
split_first sep (String.◌∷◌ c s) =
    let (piece, pieces) = split_first sep s in
    if code c == sep then ("", piece ∷ pieces) else (String.◌∷◌ c piece, pieces)

abbrev pub split : ℕ → String → List String
split sep s = let (piece, pieces) = split_first sep s in piece ∷ pieces

abbrev is_digit : ℕ → Bool
is_digit c = leb 48 c && leb c 57

-- The value of the digits at the beginning, behind those that were read.
abbrev pub digits_from : ℕ → String → ℕ
digits_from acc String.[] = acc
digits_from acc (String.◌∷◌ c s) =
    let more = digits_from (acc * 10 + (code c - 48)) s in if is_digit (code c) then more else acc

abbrev pub unsigned : String → Option ℕ
unsigned String.[] = none
unsigned (String.◌∷◌ c s) =
    if is_digit (code c) then some (digits_from 0 (String.◌∷◌ c s)) else none

abbrev signed : String → Option ℤ
signed String.[] = none
signed (String.◌∷◌ c s) =
    if code c == 45
    then elim (unsigned s) [ none ↦ none | some n ↦ some (neg (pos n)) ]
    else if code c == 43
    then elim (unsigned s) [ none ↦ none | some n ↦ some (pos n) ]
    else elim (unsigned (String.◌∷◌ c s)) [ none ↦ none | some n ↦ some (pos n) ]

-- `parseInt(s, 10)`, with `none` for `NaN`.
unfoldable pub parse_int : String → Option ℤ
unfolding trim
parse_int s = signed (trim s)

-- The signed 32-bit number that an operand of `<<` is taken as.
abbrev pub to_int32 : ℤ → ℤ
to_int32 z =
    let low : ℕ = (pos_part z + (2 ^ 32 - neg_part z % 2 ^ 32)) % 2 ^ 32 in
    if ltb low (2 ^ 31) then pos low else negsuc (2 ^ 32 - low - 1)

-- `z << k`
unfoldable pub shift_left : ℤ → ℕ → ℤ
shift_left z k = to_int32 (sub_ℕ (pos_part z * 2 ^ k) (neg_part z * 2 ^ k))

abbrev pub add_ℤ : ℤ → ℤ → ℤ
add_ℤ a b = sub_ℕ (pos_part a + pos_part b) (neg_part a + neg_part b)

-- The number of four parts, and 0 where one is no number or they are not four.
unfoldable pub parts_to_num : List (Option ℤ) → ℤ
unfolding shift_left
parts_to_num (some a ∷ some b ∷ some c ∷ some d ∷ []) =
    add_ℤ (add_ℤ (add_ℤ (shift_left a 24) (shift_left b 16)) (shift_left c 8)) d
parts_to_num _ = pos 0

abbrev pub first_piece : ℕ → String → String
first_piece sep s = (split_first sep s).0

unfoldable pub primary_allowed_ip : String → String
unfolding trim
primary_allowed_ip allowed = trim (first_piece 44 allowed)

unfoldable pub ip_to_num : String → ℤ
unfolding primary_allowed_ip parse_int parts_to_num
ip_to_num ip = parts_to_num (map parse_int (split 46 (first_piece 47 (primary_allowed_ip ip))))

ip_test : ip_to_num "10.0.0.2/32, fd00::2/128" ≡ pos (10 * 2 ^ 24 + 2)
unfolding ip_to_num
ip_test = refl

ip_high_test : ip_to_num "192.168.1.2" ≡ neg (pos (2 ^ 32 - (192 * 2 ^ 24 + 168 * 2 ^ 16 + 258)))
unfolding ip_to_num
ip_high_test = refl
