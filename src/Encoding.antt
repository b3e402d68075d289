-- ===== src/Encoding.antt =====
-- The parts of ECMAScript and of the URL standard that frontend/src/api.ts calls:
-- `encodeURIComponent`, `URLSearchParams` and `String(n)`.
-- A text is a list of scalar values, so `encodeURIComponent` never meets a lone surrogate.
pub mod Safety
pub mod Injective
pub mod Decimal
use Prim.Native.String
use ogs_swg.Prelude.{
  ℕ, ◌+◌, ◌/◌, ◌%◌, String, Char, code, List, [], ◌∷◌, Bool, ◌&&◌, ◌||◌, leb, ltb, ◌==◌,
  if◌then◌else◌, concat, ◌≡◌, refl,
}

abbrev pub is_alphanumeric : ℕ → Bool
is_alphanumeric c = (leb 97 c && leb c 122) || (leb 65 c && leb c 90) || (leb 48 c && leb c 57)

-- The characters `- _ . ! ~ * ' ( )`, and letters and digits.
abbrev pub is_unreserved : ℕ → Bool
is_unreserved c =
    is_alphanumeric c
    || c == 45
    || c == 95
    || c == 46
    || c == 33
    || c == 126
    || (leb 39 c && leb c 42)

-- The characters `* - . _`, and letters and digits.
abbrev pub is_form_safe : ℕ → Bool
is_form_safe c = is_alphanumeric c || c == 42 || c == 45 || c == 46 || c == 95

-- A digit in base 16, upper case.
unfoldable pub hex_digit : ℕ → Char
hex_digit n =
    if n == 0
    then "0"
    else if n == 1
    then "1"
    else if n == 2
    then "2"
    else if n == 3
    then "3"
    else if n == 4
    then "4"
    else if n == 5
    then "5"
    else if n == 6
    then "6"
    else if n == 7
    then "7"
    else if n == 8
    then "8"
    else if n == 9
    then "9"
    else if n == 10
    then "A"
    else if n == 11
    then "B"
    else if n == 12
    then "C"
    else if n == 13
    then "D"
    else if n == 14
    then "E"
    else "F"

-- The bytes of a character in UTF-8.
unfoldable pub utf8 : ℕ → List ℕ
utf8 n =
    if ltb n 0x80
    then n ∷ []
    else if ltb n 0x800
    then (0xC0 + n / 64) ∷ (0x80 + n % 64) ∷ []
    else if ltb n 0x10000
    then (0xE0 + n / 4096) ∷ (0x80 + n / 64 % 64) ∷ (0x80 + n % 64) ∷ []
    else (0xF0 + n / 262144) ∷ (0x80 + n / 4096 % 64) ∷ (0x80 + n / 64 % 64) ∷ (0x80 + n % 64) ∷ []

-- `%XY` for each byte, in front of a text.
unfoldable pub percent : List ℕ → String → String
percent [] s = s
percent (b ∷ bs) s =
    String.◌∷◌ "%"
      (String.◌∷◌ (hex_digit (b / 16)) (String.◌∷◌ (hex_digit (b % 16)) (percent bs s)))

unfoldable pub encode_uri_component : String → String
unfolding hex_digit utf8 percent
encode_uri_component String.[] = ""
encode_uri_component (String.◌∷◌ c s) =
    let rest = encode_uri_component s in
    if is_unreserved (code c) then String.◌∷◌ c rest else percent (utf8 (code c)) rest

-- The serializer of `application/x-www-form-urlencoded`.
unfoldable pub form_encode : String → String
unfolding hex_digit utf8 percent
form_encode String.[] = ""
form_encode (String.◌∷◌ c s) =
    let rest = form_encode s in
    if code c == 32
    then String.◌∷◌ "+" rest
    else if is_form_safe (code c)
    then String.◌∷◌ c rest
    else percent (utf8 (code c)) rest

-- `URLSearchParams.toString()`
pub query : List (String × String) → String
query [] = ""
query ((k, v) ∷ []) = concat (form_encode k ∷ "=" ∷ form_encode v ∷ [])
query ((k, v) ∷ ps) = concat (form_encode k ∷ "=" ∷ form_encode v ∷ "&" ∷ query ps ∷ [])

encode_test : encode_uri_component "a b&ñ€" ≡ "a%20b%26%C3%B1%E2%82%AC"
unfolding encode_uri_component
encode_test = refl

query_test : query (("q", "a b") ∷ ("n", "1/2") ∷ []) ≡ "q=a+b&n=1%2F2"
unfolding query form_encode
query_test = refl
