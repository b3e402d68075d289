-- ===== src/Json/Parser.antt =====
-- `JSON.parse`: the tokens of a text, read one by one with the arrays and objects that are open.
use ogs_swg.Prelude.{
  String, Bool, true, false, Option, none, some, List, [], ◌∷◌, ◌≡◌, refl, str_eq, if◌then◌else◌,
}
use ogs_swg.Json.{
  Json, Elements, Members, null, boolean, number, string, array, object, no_elements, element,
  no_members, member,
}
use ogs_swg.Json.Lexer.{
  Token, left_bracket, right_bracket, left_brace, right_brace, comma, colon, word, digits,
  quotation, Lexed, lex, between,
}

-- An open array or object, by what it is for given further elements or members; an object with the
-- key of the value that is being read.
pub data Frame : Type 0 where
  in_array : (Elements → Elements) → Frame
  in_object : (Members → Members) → String → Frame

-- What may come next. A key may be left out where the object has no member yet.
pub data Progress : Type 0 where
  wants_value : List Frame → Progress
  wants_first : List Frame → Progress
  after_element : (Elements → Elements) → List Frame → Progress
  wants_key : Bool → (Members → Members) → List Frame → Progress
  wants_colon : (Members → Members) → String → List Frame → Progress
  after_member : (Members → Members) → List Frame → Progress
  done : Json → Progress
  failed : Progress

-- A value has been read.
abbrev pub plug : Json → List Frame → Progress
plug v [] = done v
plug v (in_array f ∷ fs) = after_element (λ vs. f (element v vs)) fs
plug v (in_object f key ∷ fs) = after_member (λ ms. f (member key v ms)) fs

abbrev pub plug_word : String → List Frame → Progress
plug_word w fs =
    if str_eq w "null"
    then plug null fs
    else if str_eq w "true"
    then plug (boolean true) fs
    else if str_eq w "false"
    then plug (boolean false) fs
    else failed

abbrev pub open_value : Token → List Frame → Progress
open_value left_bracket fs = wants_first fs
open_value left_brace fs = wants_key true (λ ms. ms) fs
open_value (word w) fs = plug_word w fs
open_value (digits n) fs = plug (number n) fs
open_value (quotation s) fs = plug (string s) fs
open_value _ fs = failed

abbrev pub advance : Progress → Token → Progress
advance (wants_value fs) t = open_value t fs
advance (wants_first fs) right_bracket = plug (array no_elements) fs
advance (wants_first fs) t = open_value t (in_array (λ vs. vs) ∷ fs)
advance (after_element f fs) comma = wants_value (in_array f ∷ fs)
advance (after_element f fs) right_bracket = plug (array (f no_elements)) fs
advance (wants_key true f fs) right_brace = plug (object (f no_members)) fs
advance (wants_key first f fs) (quotation key) = wants_colon f key fs
advance (wants_colon f key fs) colon = wants_value (in_object f key ∷ fs)
advance (after_member f fs) comma = wants_key false f fs
advance (after_member f fs) right_brace = plug (object (f no_members)) fs
advance _ _ = failed

abbrev pub read : Progress → List Token → Progress
read p [] = p
read p (t ∷ ts) = read (advance p t) ts

abbrev pub result : Progress → Option Json
result (done v) = some v
result _ = none

abbrev pub parse_lexed : Option Lexed → Option Json
parse_lexed none = none
parse_lexed (some l) = result (read (wants_value []) l.tokens)

-- `JSON.parse(text)`; `none` where it throws.
unfoldable pub parse : String → Option Json
unfolding lex
parse s = parse_lexed (lex between s)

parse_test :
    parse "{\"a\": [1, {}], \"b\":null}"
    ≡ some (
        object (
          member "a"
            (array (element (number 1) (element (object no_members) no_elements)))
            (member "b" null no_members)))
unfolding parse
parse_test = refl

trailing_test : parse "[1,]" ≡ none
unfolding parse
trailing_test = refl
