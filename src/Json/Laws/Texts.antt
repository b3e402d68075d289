-- ===== src/Json/Laws/Texts.antt =====
-- What the lexer of `JSON.parse` reads of a printed string and of a printed number.
use Prim.Native.Nat.{compare, Ordering}
use text.Mathlib.TextEquality.{Char-path}
use ogs_swg.Prelude.{
  ℕ, zero, suc, ◌/◌, ◌%◌, ◌<◌, ◌≡◌, refl, ap, ◌∙◌, String, Char, code, Bool, true, false, Option,
  some, List, ◌∷◌, ltb, ◌==◌, not, Bool-cases, inl, inr, arith, if◌then◌else◌, table, table-row,
}
use ogs_swg.Json.{low_hex, print_char, print_rest, quote, onto}
use ogs_swg.Json.Lexer.{
  between, quoted, hex_value, char_of, scalar, push_char, push_char?, push_token, emit, next, lex,
  quotation, Lexed, Token, is_digit, is_letter, in_word, in_number, digits,
}
use ogs_swg.Encoding.Decimal.{decimal, digit, digits_onto, code-digit}

same : (c d : Char) → (code c == code d) ≡ true → d ≡ c
same c d h = Char-path d c (ground arith)

hex_table : table (λ n. hex_value (code (low_hex n)) == n) 16 ≡ true
unfolding low_hex hex_value table
hex_table = refl

hex_value-low_hex : (n : ℕ) → n < 16 → hex_value (code (low_hex n)) ≡ n
hex_value-low_hex n h =
    ground (arith, table-row (λ k. hex_value (code (low_hex k)) == k) 16 n h hex_table)

scalar-lt :
    (c : Char) (o : Ordering) (h : compare (code c) 55296 ≡ o)
    → o ≡ Ordering.lt
    → scalar (code c) o h ≡ some c
scalar-lt c Ordering.lt h _ = ap some (Char-path _ c refl)
scalar-lt c Ordering.eq h k = cc
scalar-lt c Ordering.gt h k = cc

char_of-code : (c : Char) (n : ℕ) → n ≡ code c → code c < 55296 → char_of n ≡ some c
unfolding char_of
char_of-code c n e h = ap char_of e ∙ scalar-lt c _ refl (ground arith)

not_equal : (m n : ℕ) → m < n → (m == n) ≡ false
not_equal m n h = ground arith

not_zero : (n : ℕ) → 0 < n → (n == 0) ≡ false
not_zero n h = ground arith

module _ (c : Char) (k : String) where
  abbrev Reads : String → Type 0
  Reads s = lex quoted s ≡ push_char c (lex quoted k)

  plain_lem :
      (code c == 34) ≡ false
      → (code c == 92) ≡ false
      → ltb (code c) 32 ≡ false
      → Reads (String.◌∷◌ c k)
  unfolding lex emit next
  plain_lem h1 h2 h3 = rw (h1, h2, h3)

  control_lem :
      ltb (code c) 32 ≡ true
      → Reads
          (onto "\\u00" (String.◌∷◌ (low_hex (code c / 16)) (String.◌∷◌ (low_hex (code c % 16)) k)))
  unfolding lex emit next char_of
  control_lem h =
      let below : code c < 32 = ground arith in
      rw
        (
          hex_value-low_hex (code c / 16) (omega arith),
          hex_value-low_hex (code c % 16) (omega arith),
          not_equal (code c / 16) 16 (omega arith),
          not_equal (code c % 16) 16 (omega arith),
        )
        (ap (λ o. push_char? o (lex quoted k)) (char_of-code c _ (omega arith) (omega arith)))

  choose :
      (b : Bool) (s t : String)
      → (b ≡ true → Reads s)
      → (b ≡ false → Reads t)
      → Reads (if b then s else t)
  choose true s t h _ = h refl
  choose false s t _ h = h refl

  meant :
      (d : Char)
      → (code c == code d) ≡ true
      → push_char d (lex quoted k) ≡ push_char c (lex quoted k)
  meant d h = ap (λ e. push_char e (lex quoted k)) (same c d h)

  lex-print_char : Reads (print_char c k)
  unfolding print_char lex emit next
  lex-print_char = choose _ _ _ (meant "\"") λ h34. choose _ _ _ (meant "\\") λ h92.
      choose _ _ _ (meant "\u{8}") λ _. choose _ _ _ (meant "\t") λ _.
        choose _ _ _ (meant "\n") λ _.
          choose _ _ _ (meant "\u{c}")
            λ _. choose _ _ _ (meant "\r") λ _. choose _ _ _ (control_lem) λ h. plain_lem h34 h92 h

abbrev pub lexed : List Token → Option Lexed
lexed ts = some (record { pending = ""; tokens = ts })

lex-print_rest :
    (s k : String) {ts : List Token}
    → lex between k ≡ lexed ts
    → lex quoted (print_rest s k) ≡ some (record { pending = s; tokens = ts })
unfolding print_rest lex emit next
lex-print_rest String.[] k h = rw h refl
lex-print_rest (String.◌∷◌ c s) k h =
    lex-print_char c (print_rest s k) ∙ ap (push_char c) (lex-print_rest s k h)

pub lex-quote :
    (s k : String) {ts : List Token}
    → lex between k ≡ lexed ts
    → lex between (quote s k) ≡ lexed (quotation s ∷ ts)
unfolding quote lex emit next
lex-quote s k h = rw (lex-print_rest s k h) refl

-- A text that no number and no word goes on into.
abbrev pub IsDelimited : String → Type 0
IsDelimited String.[] = Unit
IsDelimited (String.◌∷◌ c s) = (is_digit (code c) ≡ false) × (is_letter (code c) ≡ false)

pub end_word : (k : String) → IsDelimited k → lex in_word k ≡ lex between k
unfolding lex emit next
end_word String.[] d = refl
end_word (String.◌∷◌ c s) (_, d) = rw d refl

end_number :
    (n : ℕ) (k : String)
    → IsDelimited k
    → lex (in_number n) k ≡ push_token (digits n) (lex between k)
unfolding lex emit next
end_number n String.[] d = refl
end_number n (String.◌∷◌ c s) (d, _) = rw d refl

digits_read : table (λ n. is_digit (code (digit n))) 10 ≡ true
unfolding digit table
digits_read = refl

is_digit-digit : (n : ℕ) → n < 10 → is_digit (code (digit n)) ≡ true
is_digit-digit n h = table-row (λ k. is_digit (code (digit k))) 10 n h digits_read

no_quotes : table (λ n. not (code (digit n) == 34)) 10 ≡ true
unfolding digit table
no_quotes = refl

is_quote-digit : (n : ℕ) → n < 10 → (code (digit n) == 34) ≡ false
is_quote-digit n h = ground (arith, table-row (λ k. not (code (digit k) == 34)) 10 n h no_quotes)

lex-digits_onto :
    (f n : ℕ) (acc k : String)
    → n < f
    → lex between (onto (digits_onto f n acc) k) ≡ lex (in_number n) (onto acc k)
unfolding digits_onto lex emit next
lex-digits_onto zero n acc k h = absurd (omega arith)
lex-digits_onto (suc f) n acc k h = elim (Bool-cases (ltb n 10)) [
  | inl small ↦
      let below : n < 10 = ground arith in
      rw (small, is_digit-digit n below, is_quote-digit n below)
        (ap (λ m. lex (in_number m) (onto acc k)) (code-digit n below))
  | inr large ↦ rw large (
      lex-digits_onto f (n / 10) (String.◌∷◌ (digit (n % 10)) acc) k (ground arith)
      ∙ rw (is_digit-digit (n % 10) (omega arith), not_zero (n / 10) (ground arith))
          (ap (λ m. lex (in_number m) (onto acc k))
            (omega (arith, code-digit (n % 10) (omega arith)))))
]

pub lex-decimal :
    (n : ℕ) (k : String) {ts : List Token}
    → IsDelimited k
    → lex between k ≡ lexed ts
    → lex between (onto (decimal n) k) ≡ lexed (digits n ∷ ts)
unfolding decimal
lex-decimal n k d h =
    lex-digits_onto (suc n) n "" k (omega arith) ∙ end_number n k d ∙ ap (push_token (digits n)) h
