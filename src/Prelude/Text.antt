-- ===== src/Prelude/Text.antt =====
-- Texts: truthiness, concatenation, the parts of `String.prototype` that the source uses.
use Prim.Native.Nat.{ℕ, ◌-◌}
use Prim.Native.Char.{Char, code}
use Prim.Native.String
use Prim.Native.String.{String, char_at}
use mathlib.Core.Path.{◌≡◌, refl, ap, ◌∙◌}
use native.Mathlib.Omega.{arith}
use text.Mathlib.TextEquality.{eq_iff}
use mathlib.Core.Logic.{inl, inr}
use mathlib.Core.Bool.{Bool, false, not, ◌&&◌, ◌||◌}
use mathlib.Core.Option.{Option, none, some}
use mathlib.Core.List.{List, [], ◌∷◌}
use text.Mathlib.Text
use ogs_swg.Prelude.Tests.{Bool-cases, ◌==◌, leb, if◌then◌else◌}

abbrev pub str_eq : String → String → Bool
str_eq s t = Text.◌==◌ s t

-- `!!s`: a text is falsy exactly when it is empty.
abbrev pub truthy : String → Bool
truthy s = not (str_eq s "")

-- `s || d`
abbrev pub or_text : String → String → String
or_text s d = if truthy s then s else d

-- `s || d` for a text that may be `undefined`.
abbrev pub or_default : Option String → String → String
or_default none d = d
or_default (some s) d = or_text s d

-- A template literal: its pieces joined.
abbrev pub concat : List String → String
concat [] = ""
concat (s ∷ ss) = String.◌++◌ s (concat ss)

-- ECMAScript white space and line terminators.
abbrev pub is_space : ℕ → Bool
is_space c =
    (leb 9 c && leb c 13)
    || c == 32
    || c == 160
    || c == 5760
    || (leb 8192 c && leb c 8202)
    || c == 8232
    || c == 8233
    || c == 8239
    || c == 8287
    || c == 12288
    || c == 65279

pub trim_start : String → String
trim_start String.[] = ""
trim_start (String.◌∷◌ c s) =
    let rest = trim_start s in if is_space (code c) then rest else String.◌∷◌ c s

pub trim_end : String → String
trim_end String.[] = ""
trim_end (String.◌∷◌ c s) =
    let rest = trim_end s in if is_space (code c) && str_eq rest "" then "" else String.◌∷◌ c rest

unfoldable pub trim : String → String
unfolding trim_start trim_end
trim s = trim_start (trim_end s)

trim_start-trim_start : (s : String) → trim_start (trim_start s) ≡ trim_start s
unfolding trim_start
trim_start-trim_start String.[] = refl
trim_start-trim_start (String.◌∷◌ c s) = ground (arith, trim_start-trim_start s)

-- How the two functions go on at a character that is no white space, or that stays.
trim_start_char :
    (c : Char) (s : String)
    → is_space (code c) ≡ false
    → trim_start (String.◌∷◌ c s) ≡ String.◌∷◌ c s
unfolding trim_start
trim_start_char c s h = rw h refl

trim_end_char :
    (c : Char) (s : String)
    → (is_space (code c) && str_eq (trim_end s) "") ≡ false
    → trim_end (String.◌∷◌ c s) ≡ String.◌∷◌ c (trim_end s)
unfolding trim_end
trim_end_char c s h = rw h refl

trim_end-trim_end : (s : String) → trim_end (trim_end s) ≡ trim_end s
unfolding trim_end
trim_end-trim_end String.[] = refl
trim_end-trim_end (String.◌∷◌ c s) =
    elim (Bool-cases (is_space (code c) && str_eq (trim_end s) "")) [
      | inl dropped ↦ rw dropped refl
      | inr kept ↦ rw kept (
          trim_end_char c (trim_end s) (rw (trim_end-trim_end s) kept)
          ∙ ap (String.◌∷◌ c) (trim_end-trim_end s))
    ]

trim_end-trim_start : (s : String) → trim_end (trim_start s) ≡ trim_start (trim_end s)
unfolding trim_start trim_end
trim_end-trim_start String.[] = refl
trim_end-trim_start (String.◌∷◌ c s) = elim (Bool-cases (is_space (code c))) [
  | inr solid ↦ rw solid (rw solid refl)
  | inl blank ↦ elim (Bool-cases (str_eq (trim_end s) "")) [
    | inl empty ↦
        rw (blank, empty) (trim_end-trim_start s ∙ ap trim_start ((eq_iff (trim_end s) "").0 empty))
    | inr rest ↦ rw (blank, rest) (rw blank (trim_end-trim_start s))
  ]
]

pub trim-trim : (s : String) → trim (trim s) ≡ trim s
unfolding trim
trim-trim s =
    ap trim_start (trim_end-trim_start (trim_end s))
    ∙ trim_start-trim_start (trim_end (trim_end s))
    ∙ ap trim_start (trim_end-trim_end s)

trim_test : trim "  a b " ≡ "a b"
unfolding trim
trim_test = refl

-- `toLowerCase` on the letters of ASCII; other characters stay. It stands where the source compares the
-- result with names in ASCII only, of which no other character becomes a letter; for other texts
-- `toLowerCase` is an argument.
abbrev lower_char : Char → Char
lower_char c =
    if leb 65 (code c) && leb (code c) 90
    then char_at "abcdefghijklmnopqrstuvwxyz" (code c - 65)
    else c

unfoldable pub to_lower : String → String
to_lower String.[] = ""
to_lower (String.◌∷◌ c s) = String.◌∷◌ (lower_char c) (to_lower s)

to_lower_test : to_lower "VLess-1" ≡ "vless-1"
unfolding to_lower
to_lower_test = refl
