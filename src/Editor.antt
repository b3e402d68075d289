-- ===== src/Editor.antt =====
-- frontend/src/components/RawConfig.tsx: the search in the text of a configuration, and the lines that
-- differ from the saved text. frontend/src/components/SingboxConfigEditor.tsx has the same search.
-- A position counts characters, where the source counts 16-bit units.
pub mod Laws
mod Tests
use Prim.Native.String
use ogs_swg.Prelude.{
  ℕ, zero, suc, ◌+◌, ◌-◌, ◌≡◌, refl, String, List, [], ◌∷◌, Option, none, some, Bool, true, false,
  not, ◌&&◌, ◌==◌, code, str_eq, truthy, if◌then◌else◌,
}

abbrev pub starts_with : String → String → Bool
starts_with String.[] s = true
starts_with (String.◌∷◌ c term) String.[] = false
starts_with (String.◌∷◌ c term) (String.◌∷◌ d s) = code c == code d && starts_with term s

abbrev pub text_length : String → ℕ
text_length String.[] = 0
text_length (String.◌∷◌ c s) = suc (text_length s)

-- `haystack.indexOf(term, from)` for a term that is not empty: its text is given from a position on,
-- with the distance to `from` that is left.
abbrev pub index_on : String → String → ℕ → ℕ → Option ℕ
index_on term String.[] from at = none
index_on term (String.◌∷◌ c s) from at =
    let later = index_on term s (from - 1) (suc at) in
    if from == 0 && starts_with term (String.◌∷◌ c s) then some at else later

unfoldable pub index_of : String → String → ℕ → Option ℕ
index_of term haystack from = index_on term haystack from 0

-- `haystack.lastIndexOf(term, from)`: the last occurrence that begins at `from` or before.
abbrev pub last_index_on : String → String → ℕ → ℕ → Option ℕ
last_index_on term String.[] from at = none
last_index_on term (String.◌∷◌ c s) from at =
    let here = if starts_with term (String.◌∷◌ c s) then some at else none in
    let later = last_index_on term s (from - 1) (suc at) in
    if from == 0 then here else elim later [ none ↦ here | some n ↦ some n ]

unfoldable pub last_index_of : String → String → ℕ → Option ℕ
last_index_of term haystack from = last_index_on term haystack from 0

pub data Direction : Type 0 where
  next prev : Direction

-- The selection in the field of the text, and the position that the search goes on from.
pub record Cursor : Type 0 where
  pub search_cursor : ℕ
  pub selection_start : ℕ
  pub selection_end : ℕ

abbrev pub or_else : Option ℕ → Option ℕ → Option ℕ
or_else none b = b
or_else (some a) b = some a

-- `x || y` for numbers.
abbrev pub or_number : ℕ → ℕ → ℕ
or_number x y = if x == 0 then y else x

-- The position found: from the cursor on, and then in the whole text.
unfoldable pub find_index : Direction → String → String → Cursor → Option ℕ
unfolding index_of last_index_of
find_index next term haystack k =
    or_else (index_of term haystack (or_number k.search_cursor k.selection_end))
      (index_of term haystack 0)
find_index prev term haystack k =
    or_else
      (last_index_of term haystack (
        if k.search_cursor == 0
        then k.selection_start - 1
        else k.search_cursor - text_length term - 1))
      (last_index_of term haystack (text_length haystack))

abbrev pub cursor_after : Direction → ℕ → ℕ → ℕ
cursor_after next at size = at + size
cursor_after prev at size = at

-- `performFind`: an occurrence is selected, and the cursor set to its end or its beginning.
unfoldable pub perform_find : Direction → String → String → Cursor → Cursor
unfolding find_index
perform_find direction term haystack k =
    if not (truthy term) then k else elim (find_index direction term haystack k) [
      | none ↦ k
      | some at ↦ record {
        search_cursor = cursor_after direction at (text_length term);
        selection_start = at;
        selection_end = at + text_length term;
      }
    ]

-- `split('\n')`
abbrev pub split_first : String → String × List String
split_first String.[] = ("", [])
split_first (String.◌∷◌ c s) =
    let (line, lines) = split_first s in
    if code c == 10 then ("", line ∷ lines) else (String.◌∷◌ c line, lines)

abbrev pub split_lines : String → List String
split_lines s = let (line, lines) = split_first s in line ∷ lines

pub record DiffRow : Type 0 where
  pub line : ℕ
  pub original : String
  pub current : String

abbrev pub row_if : ℕ → String → String → List DiffRow → List DiffRow
row_if n o c rows =
    if str_eq o c then rows else record { line = n; original = o; current = c } ∷ rows

-- The rows from a line on; a line that one text lacks counts as empty.
abbrev pub diff_from : ℕ → List String → List String → List DiffRow
diff_from n [] [] = []
diff_from n [] (c ∷ cs) = row_if n "" c (diff_from (suc n) [] cs)
diff_from n (o ∷ os) [] = row_if n o "" (diff_from (suc n) os [])
diff_from n (o ∷ os) (c ∷ cs) = row_if n o c (diff_from (suc n) os cs)

-- `diffLines`
unfoldable pub diff_lines : String → String → List DiffRow
diff_lines original current = diff_from 1 (split_lines original) (split_lines current)

find_test :
    perform_find next "ab" "ab-ab"
      (record { search_cursor = 2; selection_start = 0; selection_end = 2 })
    ≡ record { search_cursor = 5; selection_start = 3; selection_end = 5 }
unfolding perform_find
find_test = refl

diff_test :
    diff_lines "a\nb\nc" "a\nx"
    ≡ record { line = 2; original = "b"; current = "x" }
      ∷ record { line = 3; original = "c"; current = "" }
      ∷ []
unfolding diff_lines
diff_test = refl
