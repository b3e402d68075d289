-- ===== src/Json/Laws.antt =====
-- What `JSON.parse` reads of a text of `JSON.stringify`: the lexer finds the tokens of the value,
-- and the parser puts them together to the value.
pub mod Texts
use Prim.Native.String
use ogs_swg.Prelude.{
  ℕ, zero, suc, String, Bool, true, false, Option, none, some, List, [], ◌∷◌, ◌≡◌, refl, sym, ap,
  ◌∙◌,
}
use ogs_swg.Json.{
  Json, Elements, Members, null, boolean, number, string, array, object, no_elements, element,
  no_members, member, onto, indent, quote, Layout, indented, compact, line, colon_text, print,
  print_elements, print_members, stringify, stringify_compact,
}
use ogs_swg.Json.Lexer.{
  Token, left_bracket, right_bracket, left_brace, right_brace, comma, colon, word, digits,
  quotation, lex, between, push_token, in_word, emit, next,
}
use ogs_swg.Json.Parser.{
  Frame, in_array, in_object, wants_value, wants_first, after_element, wants_key, after_member,
  plug, read, parse, parse_lexed, result,
}
use Texts.{lexed, lex-quote, lex-decimal, end_word, IsDelimited}

-- The tokens of a value, and what follows them.
unfoldable mutual
  tokens : Json → List Token → List Token
  tokens null ts = word "null" ∷ ts
  tokens (boolean true) ts = word "true" ∷ ts
  tokens (boolean false) ts = word "false" ∷ ts
  tokens (number n) ts = digits n ∷ ts
  tokens (string s) ts = quotation s ∷ ts
  tokens (array no_elements) ts = left_bracket ∷ right_bracket ∷ ts
  tokens (array (element v vs)) ts = left_bracket ∷ tokens v (tokens_elements vs ts)
  tokens (object no_members) ts = left_brace ∷ right_brace ∷ ts
  tokens (object (member key v ms)) ts =
      left_brace ∷ quotation key ∷ colon ∷ tokens v (tokens_members ms ts)

  tokens_elements : Elements → List Token → List Token
  tokens_elements no_elements ts = right_bracket ∷ ts
  tokens_elements (element v vs) ts = comma ∷ tokens v (tokens_elements vs ts)

  tokens_members : Members → List Token → List Token
  tokens_members no_members ts = right_brace ∷ ts
  tokens_members (member key v ms) ts =
      comma ∷ quotation key ∷ colon ∷ tokens v (tokens_members ms ts)

lex-indent : (d : ℕ) (k : String) → lex between (indent d k) ≡ lex between k
unfolding lex emit next
lex-indent zero k = refl
lex-indent (suc d) k = lex-indent d k

lex-line : (l : Layout) (d : ℕ) (k : String) → lex between (line l d k) ≡ lex between k
unfolding lex emit next
lex-line indented d k = lex-indent d k
lex-line compact d k = refl

lex-colon_text :
    (l : Layout) (k : String) → lex between (colon_text l k) ≡ push_token colon (lex between k)
unfolding lex emit next
lex-colon_text indented k = refl
lex-colon_text compact k = refl

-- The first token of a value does not close an array.
read-first :
    (v : Json) (fs : List Frame) (ts : List Token)
    → read (wants_first fs) (tokens v ts)
      ≡ read (wants_value (in_array (λ vs. vs) ∷ fs)) (tokens v ts)
unfolding tokens
read-first null fs ts = refl
read-first (boolean true) fs ts = refl
read-first (boolean false) fs ts = refl
read-first (number n) fs ts = refl
read-first (string s) fs ts = refl
read-first (array no_elements) fs ts = refl
read-first (array (element v vs)) fs ts = refl
read-first (object no_members) fs ts = refl
read-first (object (member key v ms)) fs ts = refl

mutual
  unfolding tokens

  read-tokens :
      (v : Json) (fs : List Frame) (ts : List Token)
      → read (wants_value fs) (tokens v ts) ≡ read (plug v fs) ts
  read-tokens null fs ts = refl
  read-tokens (boolean true) fs ts = refl
  read-tokens (boolean false) fs ts = refl
  read-tokens (number n) fs ts = refl
  read-tokens (string s) fs ts = refl
  read-tokens (array no_elements) fs ts = refl
  read-tokens (array (element v vs)) fs ts =
      read-first v fs (tokens_elements vs ts)
      ∙ read-tokens v (in_array (λ ws. ws) ∷ fs) (tokens_elements vs ts)
      ∙ read-tokens_elements vs (λ ws. element v ws) fs ts
  read-tokens (object no_members) fs ts = refl
  read-tokens (object (member key v ms)) fs ts =
      read-tokens v (in_object (λ ns. ns) key ∷ fs) (tokens_members ms ts)
      ∙ read-tokens_members ms (λ ns. member key v ns) fs ts

  read-tokens_elements :
      (vs : Elements) (f : Elements → Elements) (fs : List Frame) (ts : List Token)
      → read (after_element f fs) (tokens_elements vs ts) ≡ read (plug (array (f vs)) fs) ts
  read-tokens_elements no_elements f fs ts = refl
  read-tokens_elements (element v vs) f fs ts =
      read-tokens v (in_array f ∷ fs) (tokens_elements vs ts)
      ∙ read-tokens_elements vs (λ ws. f (element v ws)) fs ts

  read-tokens_members :
      (ms : Members) (f : Members → Members) (fs : List Frame) (ts : List Token)
      → read (after_member f fs) (tokens_members ms ts) ≡ read (plug (object (f ms)) fs) ts
  read-tokens_members no_members f fs ts = refl
  read-tokens_members (member key v ms) f fs ts =
      read-tokens v (in_object f key ∷ fs) (tokens_members ms ts)
      ∙ read-tokens_members ms (λ ns. f (member key v ns)) fs ts

IsDelimited-print_elements :
    (l : Layout) (d : ℕ) (vs : Elements) (k : String) → IsDelimited (print_elements l d vs k)
unfolding print
IsDelimited-print_elements indented d no_elements k = (refl, refl)
IsDelimited-print_elements compact d no_elements k = (refl, refl)
IsDelimited-print_elements l d (element v vs) k = (refl, refl)

IsDelimited-print_members :
    (l : Layout) (d : ℕ) (ms : Members) (k : String) → IsDelimited (print_members l d ms k)
unfolding print
IsDelimited-print_members indented d no_members k = (refl, refl)
IsDelimited-print_members compact d no_members k = (refl, refl)
IsDelimited-print_members l d (member key v ms) k = (refl, refl)

mutual
  unfolding print tokens lex emit next

  lex-print :
      (l : Layout) (d : ℕ) (v : Json) (k : String) {ts : List Token}
      → IsDelimited k
      → lex between k ≡ lexed ts
      → lex between (print l d v k) ≡ lexed (tokens v ts)
  lex-print l d null k e h = rw (end_word k e, h) refl
  lex-print l d (boolean true) k e h = rw (end_word k e, h) refl
  lex-print l d (boolean false) k e h = rw (end_word k e, h) refl
  lex-print l d (number n) k e h = lex-decimal n k e h
  lex-print l d (string s) k e h = lex-quote s k h
  lex-print l d (array no_elements) k e h = rw h refl
  lex-print l d (array (element v vs)) k e h = ap (push_token left_bracket) (
      lex-line l (suc d) (print l (suc d) v (print_elements l d vs k))
      ∙ lex-print l (suc d) v (print_elements l d vs k) (IsDelimited-print_elements l d vs k)
          (lex-print_elements l d vs k h))
  lex-print l d (object no_members) k e h = rw h refl
  lex-print l d (object (member key v ms)) k e h = ap (push_token left_brace) (
      lex-line l (suc d) (quote key (colon_text l (print l (suc d) v (print_members l d ms k))))
      ∙ lex-quote key (colon_text l (print l (suc d) v (print_members l d ms k))) (
          lex-colon_text l (print l (suc d) v (print_members l d ms k))
          ∙ ap (push_token colon) (
              lex-print l (suc d) v (print_members l d ms k) (IsDelimited-print_members l d ms k)
                (lex-print_members l d ms k h))))

  lex-print_elements :
      (l : Layout) (d : ℕ) (vs : Elements) (k : String) {ts : List Token}
      → lex between k ≡ lexed ts
      → lex between (print_elements l d vs k) ≡ lexed (tokens_elements vs ts)
  lex-print_elements l d no_elements k h =
      lex-line l d (String.◌∷◌ "]" k) ∙ ap (push_token right_bracket) h
  lex-print_elements l d (element v vs) k h = ap (push_token comma) (
      lex-line l (suc d) (print l (suc d) v (print_elements l d vs k))
      ∙ lex-print l (suc d) v (print_elements l d vs k) (IsDelimited-print_elements l d vs k)
          (lex-print_elements l d vs k h))

  lex-print_members :
      (l : Layout) (d : ℕ) (ms : Members) (k : String) {ts : List Token}
      → lex between k ≡ lexed ts
      → lex between (print_members l d ms k) ≡ lexed (tokens_members ms ts)
  lex-print_members l d no_members k h =
      lex-line l d (String.◌∷◌ "}" k) ∙ ap (push_token right_brace) h
  lex-print_members l d (member key v ms) k h = ap (push_token comma) (
      lex-line l (suc d) (quote key (colon_text l (print l (suc d) v (print_members l d ms k))))
      ∙ lex-quote key (colon_text l (print l (suc d) v (print_members l d ms k))) (
          lex-colon_text l (print l (suc d) v (print_members l d ms k))
          ∙ ap (push_token colon) (
              lex-print l (suc d) v (print_members l d ms k) (IsDelimited-print_members l d ms k)
                (lex-print_members l d ms k h))))

parse-print : (l : Layout) (v : Json) → parse (print l 0 v "") ≡ some v
unfolding parse
parse-print l v = ap parse_lexed (lex-print l 0 v "" tt refl) ∙ ap result (read-tokens v [] [])

-- Parsing what was printed gives the value back.
pub parse-stringify : (v : Json) → parse (stringify v) ≡ some v
unfolding stringify
parse-stringify = parse-print indented

pub parse-stringify_compact : (v : Json) → parse (stringify_compact v) ≡ some v
unfolding stringify_compact
parse-stringify_compact = parse-print compact
