-- ===== src/Json.antt =====
-- The JSON values of ECMAScript that the pages of the sing-box configuration read and write, and
-- `JSON.stringify(value, null, 2)`.
-- A number is a whole number from 0 on, as every number of such a configuration is (ports,
-- versions, identifiers). It stands for itself, so it is to stay below 2 ^ 53, from where on the
-- source rounds. A negative number, a fraction and an exponent are refused. The members of an object keep the order of the text, and no key stands
-- twice.
pub mod Lexer
pub mod Parser
pub mod Access
pub mod Laws
use Prim.Native.String
use Prim.Native.String.{char_at}
use ogs_swg.Prelude.{
  ℕ, zero, suc, ◌+◌, ◌/◌, ◌%◌, String, Char, code, Bool, true, false, List, ◌≡◌, refl, ltb, ◌==◌,
  if◌then◌else◌,
}
use ogs_swg.Encoding.Decimal.{decimal}

mutual
  pub data Json : Type 0 where
    null : Json
    boolean : Bool → Json
    number : ℕ → Json
    string : String → Json
    array : Elements → Json
    object : Members → Json

  pub data Elements : Type 0 where
    no_elements : Elements
    element : Json → Elements → Elements

  pub data Members : Type 0 where
    no_members : Members
    member : String → Json → Members → Members

-- A text in front of another.
abbrev pub onto : String → String → String
onto String.[] k = k
onto (String.◌∷◌ c s) k = String.◌∷◌ c (onto s k)

-- A digit in base 16, lower case.
unfoldable pub low_hex : ℕ → Char
low_hex n = char_at "0123456789abcdef" n

-- A character of a string: quotes, backslashes and control characters are escaped.
unfoldable pub print_char : Char → String → String
print_char c k =
    if code c == 34
    then onto "\\\"" k
    else if code c == 92
    then onto "\\\\" k
    else if code c == 8
    then onto "\\b" k
    else if code c == 9
    then onto "\\t" k
    else if code c == 10
    then onto "\\n" k
    else if code c == 12
    then onto "\\f" k
    else if code c == 13
    then onto "\\r" k
    else if ltb (code c) 32
    then onto "\\u00" (String.◌∷◌ (low_hex (code c / 16)) (String.◌∷◌ (low_hex (code c % 16)) k))
    else String.◌∷◌ c k

-- The characters of a string and the closing quote.
unfoldable pub print_rest : String → String → String
unfolding print_char low_hex
print_rest String.[] k = String.◌∷◌ "\"" k
print_rest (String.◌∷◌ c s) k = print_char c (print_rest s k)

unfoldable pub quote : String → String → String
unfolding print_rest
quote s k = String.◌∷◌ "\"" (print_rest s k)

abbrev pub indent : ℕ → String → String
indent zero k = k
indent (suc d) k = String.◌∷◌ " " (String.◌∷◌ " " (indent d k))

abbrev pub new_line : ℕ → String → String
new_line d k = String.◌∷◌ "\n" (indent d k)

-- With an indentation of two spaces, or with no white space at all.
pub data Layout : Type 0 where
  indented compact : Layout

abbrev pub line : Layout → ℕ → String → String
line indented d k = new_line d k
line compact d k = k

abbrev pub colon_text : Layout → String → String
colon_text indented k = onto ": " k
colon_text compact k = onto ":" k

-- A value at a depth of nesting, and what follows it.
unfoldable mutual
  unfolding quote decimal

  pub print : Layout → ℕ → Json → String → String
  print l d null k = onto "null" k
  print l d (boolean true) k = onto "true" k
  print l d (boolean false) k = onto "false" k
  print l d (number n) k = onto (decimal n) k
  print l d (string s) k = quote s k
  print l d (array no_elements) k = onto "[]" k
  print l d (array (element v vs)) k =
      String.◌∷◌ "[" (line l (suc d) (print l (suc d) v (print_elements l d vs k)))
  print l d (object no_members) k = onto "{}" k
  print l d (object (member key v ms)) k =
      String.◌∷◌ "{"
        (line l (suc d) (quote key (colon_text l (print l (suc d) v (print_members l d ms k)))))

  -- The elements behind the first, and the closing bracket.
  pub print_elements : Layout → ℕ → Elements → String → String
  print_elements l d no_elements k = line l d (String.◌∷◌ "]" k)
  print_elements l d (element v vs) k =
      String.◌∷◌ "," (line l (suc d) (print l (suc d) v (print_elements l d vs k)))

  pub print_members : Layout → ℕ → Members → String → String
  print_members l d no_members k = line l d (String.◌∷◌ "}" k)
  print_members l d (member key v ms) k =
      String.◌∷◌ ","
        (line l (suc d) (quote key (colon_text l (print l (suc d) v (print_members l d ms k)))))

-- `JSON.stringify(value, null, 2)` and `JSON.stringify(value)`
unfoldable pub stringify : Json → String
unfolding print
stringify v = print indented 0 v ""

unfoldable pub stringify_compact : Json → String
unfolding print
stringify_compact v = print compact 0 v ""

stringify_test :
    stringify
      (object (member "a\"" (array (element (number 12) (element null no_elements))) no_members))
    ≡ "{\n  \"a\\\"\": [\n    12,\n    null\n  ]\n}"
unfolding stringify decimal
stringify_test = refl

compact_test :
    stringify_compact
      (object (member "a" (array (element (number 12) (element null no_elements))) no_members))
    ≡ "{\"a\":[12,null]}"
unfolding stringify_compact decimal
compact_test = refl
