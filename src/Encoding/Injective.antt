-- ===== src/Encoding/Injective.antt =====
-- `encodeURIComponent` read back.
use Prim.Native.Char.{char}
use text.Mathlib.TextEquality.{Char-path}
use ogs_swg.Prelude.{
  ℕ, ◌+◌, ◌-◌, ◌*◌, ◌/◌, ◌%◌, ◌<◌, String, Char, code, List, [], ◌∷◌, ◌++◌, true, false, ◌≡◌, refl,
  sym, ap, ◌∙◌, ltb, ◌==◌, if◌then◌else◌, arith, table, table-row, Bool-cases, inl, inr, All,
}
use ogs_swg.Encoding.{is_unreserved, hex_digit, utf8, percent, encode_uri_component}

-- Reading a text byte by byte: outside an escape, behind `%`, and behind its first digit.
data Mode : Type 0 where
  plain first : Mode
  second : ℕ → Mode

abbrev hex_value : ℕ → ℕ
hex_value c = if ltb c 65 then c - 48 else c - 55

bytes_of : Mode → String → List ℕ
bytes_of m String.[] = []
bytes_of plain (String.◌∷◌ c s) =
    let escape = bytes_of first s in
    let next = code c ∷ bytes_of plain s in if code c == 37 then escape else next
bytes_of first (String.◌∷◌ c s) = bytes_of (second (hex_value (code c))) s
bytes_of (second h) (String.◌∷◌ c s) = (h * 16 + hex_value (code c)) ∷ bytes_of plain s

hex_table : table (λ n. hex_value (code (hex_digit n)) == n) 16 ≡ true
unfolding hex_digit table
hex_table = refl

hex_value-hex_digit : (n : ℕ) → n < 16 → hex_value (code (hex_digit n)) ≡ n
hex_value-hex_digit n h =
    ground (arith, table-row (λ k. hex_value (code (hex_digit k)) == k) 16 n h hex_table)

abbrev pub AreBytes : List ℕ → Type 0
AreBytes = All (λ b. b < 256)

bytes_of-percent :
    (bs : List ℕ) (s : String)
    → AreBytes bs
    → bytes_of plain (percent bs s) ≡ bs ++ bytes_of plain s
unfolding percent bytes_of
bytes_of-percent [] s h = refl
bytes_of-percent (b ∷ bs) s (h, hs) =
    let low : hex_value (code (hex_digit (b % 16))) ≡ b % 16 =
      hex_value-hex_digit (b % 16) (omega arith) in
    let high : hex_value (code (hex_digit (b / 16))) ≡ b / 16 =
      hex_value-hex_digit (b / 16) (omega arith) in
    rw (low, high) (cc (bytes_of-percent bs s hs, byte))
  where
    byte : b / 16 * 16 + b % 16 ≡ b
    byte = omega arith

pub code-lt : (c : Char) → code c < 1114112
code-lt (char n p) = ground arith

pub utf8-AreBytes : (n : ℕ) → n < 1114112 → AreBytes (utf8 n)
unfolding utf8
utf8-AreBytes n h = ground arith

all_bytes : String → List ℕ
all_bytes String.[] = []
all_bytes (String.◌∷◌ c s) = utf8 (code c) ++ all_bytes s

unreserved-ne-percent : (n : ℕ) → is_unreserved n ≡ true → (n == 37) ≡ false
unreserved-ne-percent n h = ground arith

unreserved-lt : (n : ℕ) → is_unreserved n ≡ true → n < 128
unreserved-lt n h = ground arith

utf8-ascii : (n : ℕ) → n < 128 → utf8 n ≡ n ∷ []
unfolding utf8
utf8-ascii n h = ground arith

bytes_of-encode : (s : String) → bytes_of plain (encode_uri_component s) ≡ all_bytes s
unfolding encode_uri_component bytes_of all_bytes
bytes_of-encode String.[] = refl
bytes_of-encode (String.◌∷◌ c s) = elim (Bool-cases (is_unreserved (code c))) [
  | inl safe ↦
      rw
        (
          safe,
          unreserved-ne-percent (code c) safe,
          utf8-ascii (code c) (unreserved-lt (code c) safe),
        )
        (ap (code c ∷◌) (bytes_of-encode s))
  | inr unsafe ↦ rw unsafe (
      bytes_of-percent (utf8 (code c)) (encode_uri_component s) (utf8-AreBytes (code c) (code-lt c))
      ∙ ap (utf8 (code c) ++◌) (bytes_of-encode s))
]

utf8_inj : (m n : ℕ) (xs ys : List ℕ) → utf8 m ++ xs ≡ utf8 n ++ ys → (m ≡ n) × (xs ≡ ys)
unfolding utf8
utf8_inj m n xs ys h = ground arith

utf8-ne-nil : (n : ℕ) (xs : List ℕ) → utf8 n ++ xs ≡ [] → ⊥
unfolding utf8
utf8-ne-nil n xs h = ground arith

all_bytes_inj : (s t : String) → all_bytes s ≡ all_bytes t → s ≡ t
unfolding all_bytes
all_bytes_inj String.[] String.[] h = refl
all_bytes_inj String.[] (String.◌∷◌ d t) h = absurd (utf8-ne-nil (code d) (all_bytes t) (sym h))
all_bytes_inj (String.◌∷◌ c s) String.[] h = absurd (utf8-ne-nil (code c) (all_bytes s) h)
all_bytes_inj (String.◌∷◌ c s) (String.◌∷◌ d t) h =
    let (head, tail) = utf8_inj (code c) (code d) (all_bytes s) (all_bytes t) h in
    cc (Char-path c d head, all_bytes_inj s t tail)

-- Two texts with one encoding are the same text.
pub encode_uri_component_inj :
    (s t : String) → encode_uri_component s ≡ encode_uri_component t → s ≡ t
encode_uri_component_inj s t h =
    all_bytes_inj s t (sym (bytes_of-encode s) ∙ ap (bytes_of plain) h ∙ bytes_of-encode t)
