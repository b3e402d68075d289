-- ===== src/Json/Lexer.antt =====
-- The tokens of a JSON text, as `JSON.parse` reads them: one pass from left to right in a mode, whose
-- results are put together from right to left.
-- A number is a whole number; an escape `\u` of a surrogate is refused.
use Prim.Native.Char.{char}
use Prim.Native.Nat.{compare, Ordering}
use ogs_swg.Prelude.{
  ℕ, zero, suc, ◌+◌, ◌-◌, ◌*◌, ◌≡◌, refl, String, Char, code, Bool, Option, none, some, List, [],
  ◌∷◌, ◌&&◌, ◌||◌, leb, ltb, ◌==◌, if◌then◌else◌,
}

pub data Token : Type 0 where
  left_bracket right_bracket left_brace right_brace comma colon : Token
  word : String → Token
  digits : ℕ → Token
  quotation : String → Token

-- Between tokens; in a string, behind its backslash, or in an escape with the digits to come and the
-- value so far; in a number; and in a word.
pub data Mode : Type 0 where
  between quoted escaped : Mode
  unicode : ℕ → ℕ → Mode
  in_number : ℕ → Mode
  in_word : Mode

-- The rest of the token that is being read, and the tokens behind it.
pub record Lexed : Type 0 where
  pub pending : String
  pub tokens : List Token

abbrev pub is_digit : ℕ → Bool
is_digit c = leb 48 c && leb c 57

abbrev pub is_letter : ℕ → Bool
is_letter c = leb 97 c && leb c 122

-- JSON white space
abbrev pub is_blank : ℕ → Bool
is_blank c = c == 32 || (leb 9 c && leb c 10) || c == 13

-- The value of a digit in base 16; 16 for another character.
unfoldable pub hex_value : ℕ → ℕ
hex_value c =
    if is_digit c
    then c - 48
    else if leb 97 c && leb c 102
    then c - 87
    else if leb 65 c && leb c 70
    then c - 55
    else 16

abbrev pub start : ℕ → Mode
start c =
    if c == 34
    then quoted
    else if is_digit c
    then in_number (c - 48)
    else if is_letter c
    then in_word
    else between

unfoldable pub next : Mode → ℕ → Mode
unfolding hex_value
next between c = start c
next quoted c = if c == 92 then escaped else if c == 34 then between else quoted
next escaped c = if c == 117 then unicode 3 0 else quoted
next (unicode zero n) c = quoted
next (unicode (suc k) n) c = unicode k (n * 16 + hex_value c)
next (in_number n) c = if is_digit c then in_number (n * 10 + (c - 48)) else start c
next in_word c = if is_letter c then in_word else start c

abbrev pub push_token : Token → Option Lexed → Option Lexed
push_token t none = none
push_token t (some r) = some (record { pending = ""; tokens = t ∷ r.tokens })

abbrev pub push_char : Char → Option Lexed → Option Lexed
push_char c none = none
push_char c (some r) = some (record r { pending = String.◌∷◌ c r.pending })

-- The token that begins with the pending characters.
abbrev pub close_text : Option Lexed → Option Lexed
close_text none = none
close_text (some r) = some (record { pending = ""; tokens = quotation r.pending ∷ r.tokens })

abbrev pub close_word : Char → Option Lexed → Option Lexed
close_word c none = none
close_word c (some r) =
    some (record { pending = ""; tokens = word (String.◌∷◌ c r.pending) ∷ r.tokens })

-- A character between tokens.
abbrev pub begin : Char → Option Lexed → Option Lexed
begin c r =
    let n = code c in
    if n == 34
    then close_text r
    else if is_digit n
    then r
    else if is_letter n
    then close_word c r
    else if is_blank n
    then r
    else if n == 91
    then push_token left_bracket r
    else if n == 93
    then push_token right_bracket r
    else if n == 123
    then push_token left_brace r
    else if n == 125
    then push_token right_brace r
    else if n == 44
    then push_token comma r
    else if n == 58
    then push_token colon r
    else none

-- The character behind a backslash, `u` left out.
abbrev pub unescape : ℕ → Option Char
unescape c =
    if c == 34
    then some "\""
    else if c == 92
    then some "\\"
    else if c == 47
    then some "/"
    else if c == 98
    then some "\u{8}"
    else if c == 102
    then some "\u{c}"
    else if c == 110
    then some "\n"
    else if c == 114
    then some "\r"
    else if c == 116
    then some "\t"
    else none

abbrev pub scalar : (n : ℕ) (o : Ordering) → compare n 55296 ≡ o → Option Char
scalar n Ordering.lt h = some (char n (rw h tt))
scalar n _ h = none

-- The character of a number below the surrogates.
unfoldable pub char_of : ℕ → Option Char
char_of n = scalar n (compare n 55296) refl

abbrev pub push_char? : Option Char → Option Lexed → Option Lexed
push_char? none r = none
push_char? (some c) r = push_char c r

-- What a character in a mode adds to the results of the text behind it.
unfoldable pub emit : Mode → Char → Option Lexed → Option Lexed
unfolding hex_value char_of
emit between c r = begin c r
emit quoted c r =
    if code c == 92
    then r
    else if code c == 34
    then (elim r [ none ↦ none | some l ↦ some (record l { pending = "" }) ])
    else if ltb (code c) 32
    then none
    else push_char c r
emit escaped c r = if code c == 117 then r else push_char? (unescape (code c)) r
emit (unicode zero n) c r =
    if hex_value (code c) == 16 then none else push_char? (char_of (n * 16 + hex_value (code c))) r
emit (unicode (suc k) n) c r = if hex_value (code c) == 16 then none else r
emit (in_number n) c r =
    if is_digit (code c) then (if n == 0 then none else r) else push_token (digits n) (begin c r)
emit in_word c r = if is_letter (code c) then push_char c r else begin c r

unfoldable pub lex : Mode → String → Option Lexed
unfolding next emit
lex between String.[] = some (record { pending = ""; tokens = [] })
lex (in_number n) String.[] = some (record { pending = ""; tokens = digits n ∷ [] })
lex in_word String.[] = some (record { pending = ""; tokens = [] })
lex _ String.[] = none
lex q (String.◌∷◌ c s) = emit q c (lex (next q (code c)) s)

lex_test :
    lex between "[ 10,\"a\\u0041\" ,true]"
    ≡ some (record {
      pending = "";
      tokens =
          left_bracket
          ∷ digits 10
          ∷ comma
          ∷ quotation "aA"
          ∷ comma
          ∷ word "true"
          ∷ right_bracket
          ∷ [];
    })
unfolding lex
lex_test = refl
