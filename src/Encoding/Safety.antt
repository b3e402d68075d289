-- ===== src/Encoding/Safety.antt =====
-- The characters that an encoded text can hold.
use ogs_swg.Prelude.{
  ℕ, ◌/◌, ◌%◌, String, code, List, [], ◌∷◌, Bool, true, ◌≡◌, refl, ◌||◌, ◌==◌, arith, table,
  table-row, Bool-cases, inl, inr,
}
use ogs_swg.Encoding.Injective.{AreBytes, utf8-AreBytes, code-lt}
use ogs_swg.Encoding.{
  is_unreserved, is_form_safe, hex_digit, percent, utf8, encode_uri_component, form_encode,
}

-- A test holds of every character.
abbrev pub AllChars : (ℕ → Bool) → String → Type 0
AllChars p String.[] = Unit
AllChars p (String.◌∷◌ c s) = (p (code c) ≡ true) × AllChars p s

-- The characters of an encoded part of a path or a query: neither `/` nor `?`, `#`, `&`, `=`.
abbrev pub is_url_safe : ℕ → Bool
is_url_safe c = is_unreserved c || c == 37

-- Those of a form: neither `&` nor `=` nor `#`.
abbrev pub is_form_char : ℕ → Bool
is_form_char c = is_form_safe c || c == 37 || c == 43

hex_table : table (λ n. is_url_safe (code (hex_digit n))) 16 ≡ true
unfolding hex_digit table
hex_table = refl

form_table : table (λ n. is_form_char (code (hex_digit n))) 16 ≡ true
unfolding hex_digit table
form_table = refl

module _ (p : ℕ → Bool) (hex : table (λ n. p (code (hex_digit n))) 16 ≡ true)
    (escape : p 37 ≡ true) where
  AllChars-percent :
      (bs : List ℕ) (s : String) → AreBytes bs → AllChars p s → AllChars p (percent bs s)
  unfolding percent
  AllChars-percent [] s h k = k
  AllChars-percent (b ∷ bs) s (h, hs) k = (
    escape,
    (
      table-row (λ n. p (code (hex_digit n))) 16 (b / 16) (omega arith) hex,
      (
        table-row (λ n. p (code (hex_digit n))) 16 (b % 16) (omega arith) hex,
        AllChars-percent bs s hs k,
      ),
    ),
  )

-- An encoded text has no character that could end its part of a URL: only unreserved characters
-- and `%`.
pub encode_uri_component-AllChars : (s : String) → AllChars is_url_safe (encode_uri_component s)
unfolding encode_uri_component
encode_uri_component-AllChars String.[] = tt
encode_uri_component-AllChars (String.◌∷◌ c s) = elim (Bool-cases (is_unreserved (code c))) [
  | inl safe ↦ rw safe (ground arith, encode_uri_component-AllChars s)
  | inr unsafe ↦ rw unsafe (
      AllChars-percent is_url_safe hex_table refl (utf8 (code c)) (encode_uri_component s)
        (utf8-AreBytes (code c) (code-lt c)) (encode_uri_component-AllChars s))
]

-- Nor has a key or a value of a form.
pub form_encode-AllChars : (s : String) → AllChars is_form_char (form_encode s)
unfolding form_encode
form_encode-AllChars String.[] = tt
form_encode-AllChars (String.◌∷◌ c s) = elim (Bool-cases (code c == 32)) [
  | inl space ↦ rw space (refl, form_encode-AllChars s)
  | inr other ↦ elim (Bool-cases (is_form_safe (code c))) [
    | inl safe ↦ rw (other, safe) (ground arith, form_encode-AllChars s)
    | inr unsafe ↦
        rw (other, unsafe)
          (AllChars-percent is_form_char form_table refl (utf8 (code c)) (form_encode s)
            (utf8-AreBytes (code c) (code-lt c)) (form_encode-AllChars s))
  ]
]
