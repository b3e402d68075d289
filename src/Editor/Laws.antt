-- ===== src/Editor/Laws.antt =====
-- frontend/src/components/RawConfig.tsx: what the search finds, and which lines are shown as different.
use ogs_swg.Prelude.{
  ℕ, zero, suc, ◌+◌, ◌-◌, ◌<◌, ◌≤◌, String, List, [], ◌∷◌, Option, none, some, Bool, true, false,
  not, ◌&&◌, ◌≡◌, refl, arith, ◌==◌, truthy, if◌then◌else◌, Bool-cases, Option-cases, inl, inr,
  str_eq, any, ltb, ◌⊎◌,
}
use ogs_swg.Editor.{
  starts_with, text_length, index_on, index_of, last_index_on, last_index_of, Direction, next, prev,
  Cursor, find_index, cursor_after, perform_find, or_else, or_number, diff_from, diff_lines,
  split_lines, DiffRow,
}

-- The term is at a position of the text.
abbrev pub occurs_at : String → String → ℕ → Bool
occurs_at term String.[] at = false
occurs_at term (String.◌∷◌ c s) zero = starts_with term (String.◌∷◌ c s)
occurs_at term (String.◌∷◌ c s) (suc at) = occurs_at term s at

index_on_sound :
    (term s : String) (from at i : ℕ)
    → index_on term s from at ≡ some i
    → (k : ℕ) × (i ≡ at + k) × (occurs_at term s k ≡ true)
index_on_sound term String.[] from at i h = cc
index_on_sound term (String.◌∷◌ c s) from at i h =
    elim (Bool-cases (from == 0 && starts_with term (String.◌∷◌ c s))) [
      | inl here ↦ (0, ground arith, ground arith)
      | inr elsewhere ↦
          let (k, e, o) = index_on_sound term s (from - 1) (suc at) i (ground arith) in
          (suc k, omega (arith, e), o)
    ]

index_on_complete :
    (term s : String) (from at k : ℕ)
    → index_on term s from at ≡ none
    → from ≤ k
    → occurs_at term s k ≡ false
index_on_complete term String.[] from at k h le = refl
index_on_complete term (String.◌∷◌ c s) from at zero h le = ground arith
index_on_complete term (String.◌∷◌ c s) from at (suc k) h le =
    index_on_complete term s (from - 1) (suc at) k (ground arith) (omega arith)

last_index_on_sound :
    (term s : String) (from at i : ℕ)
    → last_index_on term s from at ≡ some i
    → (k : ℕ) × (i ≡ at + k) × (occurs_at term s k ≡ true)
last_index_on_sound term String.[] from at i h = cc
last_index_on_sound term (String.◌∷◌ c s) from at i h =
    elim (Option-cases (last_index_on term s (from - 1) (suc at))) [
      | inl nothing ↦ (0, ground arith, ground arith)
      | inr (n, found) ↦ elim (Bool-cases (from == 0)) [
        | inl first ↦ (0, ground arith, ground arith)
        | inr after ↦
            let (k, e, o) = last_index_on_sound term s (from - 1) (suc at) n found in
            (suc k, ground (arith, e), o)
      ]
    ]

last_index_on_complete :
    (term s : String) (from at k : ℕ)
    → last_index_on term s from at ≡ none
    → k ≤ from
    → occurs_at term s k ≡ false
last_index_on_complete term String.[] from at k h le = refl
last_index_on_complete term (String.◌∷◌ c s) from at zero h le = ground arith
last_index_on_complete term (String.◌∷◌ c s) from at (suc k) h le =
    last_index_on_complete term s (from - 1) (suc at) k (ground arith) (omega arith)

occurs_at_beyond : (term s : String) (k : ℕ) → text_length s ≤ k → occurs_at term s k ≡ false
occurs_at_beyond term String.[] k le = refl
occurs_at_beyond term (String.◌∷◌ c s) zero le = absurd (omega arith)
occurs_at_beyond term (String.◌∷◌ c s) (suc k) le = occurs_at_beyond term s k (omega arith)

-- Either both searches find nothing, or one of them gives the position.
or_else-cases :
    (a b : Option ℕ)
    → (((a ≡ none) × (b ≡ none)) × (or_else a b ≡ none))
      ⊎ ((i : ℕ) × ((a ≡ some i) ⊎ (b ≡ some i)) × (or_else a b ≡ some i))
or_else-cases none none = inl ((refl, refl), refl)
or_else-cases none (some i) = inr (i, inr refl, refl)
or_else-cases (some i) b = inr (i, inl refl, refl)

index_of_sound :
    (term s : String) (from i : ℕ) → index_of term s from ≡ some i → occurs_at term s i ≡ true
unfolding index_of
index_of_sound term s from i h =
    let (k, e, o) = index_on_sound term s from 0 i h in
    let same : i ≡ k = omega (arith, e) in rw same o

last_index_of_sound :
    (term s : String) (from i : ℕ) → last_index_of term s from ≡ some i → occurs_at term s i ≡ true
unfolding last_index_of
last_index_of_sound term s from i h =
    let (k, e, o) = last_index_on_sound term s from 0 i h in
    let same : i ≡ k = omega (arith, e) in rw same o

index_of_complete :
    (term s : String) (i : ℕ) → index_of term s 0 ≡ none → occurs_at term s i ≡ false
unfolding index_of
index_of_complete term s i h = index_on_complete term s 0 0 i h (omega arith)

last_index_of_complete :
    (term s : String) (i : ℕ)
    → last_index_of term s (text_length s) ≡ none
    → occurs_at term s i ≡ false
unfolding last_index_of
last_index_of_complete term s i h = elim (Bool-cases (ltb i (text_length s))) [
  | inl inside ↦ last_index_on_complete term s (text_length s) 0 i h (ground arith)
  | inr beyond ↦ occurs_at_beyond term s i (ground arith)
]

-- What the search finds, in either direction.
abbrev pub Found : Direction → String → String → Cursor → Type 0
Found direction term haystack k =
    ((find_index direction term haystack k ≡ none) × ((i : ℕ) → occurs_at term haystack i ≡ false))
    ⊎ ((i : ℕ) × (find_index direction term haystack k ≡ some i)
        × (occurs_at term haystack i ≡ true))

find_index-Found :
    (direction : Direction) (term haystack : String) (k : Cursor) → Found direction term haystack k
unfolding find_index
find_index-Found next term haystack k =
    elim (or_else-cases (index_of term haystack (or_number k.search_cursor k.selection_end))
      (index_of term haystack 0)) [
        | inl ((_, none_at_all), e) ↦ inl (e, λ i. index_of_complete term haystack i none_at_all)
        | inr (i, inl a, e) ↦ inr (i, e, index_of_sound term haystack _ i a)
        | inr (i, inr b, e) ↦ inr (i, e, index_of_sound term haystack _ i b)
      ]
find_index-Found prev term haystack k =
    elim (or_else-cases
      (last_index_of term haystack (
        if k.search_cursor == 0
        then k.selection_start - 1
        else k.search_cursor - text_length term - 1))
      (last_index_of term haystack (text_length haystack))) [
        | inl ((_, none_at_all), e) ↦
            inl (e, λ i. last_index_of_complete term haystack i none_at_all)
        | inr (i, inl a, e) ↦ inr (i, e, last_index_of_sound term haystack _ i a)
        | inr (i, inr b, e) ↦ inr (i, e, last_index_of_sound term haystack _ i b)
      ]

-- A search for a text that is not empty, in either direction and from any cursor, selects an
-- occurrence of it and moves the cursor to the end or the beginning of that; it changes nothing
-- exactly where the text does not occur.
pub perform_find-finds :
    (direction : Direction) (term haystack : String) (k : Cursor)
    → truthy term ≡ true
    → ((perform_find direction term haystack k ≡ k) × ((i : ℕ) → occurs_at term haystack i ≡ false))
      ⊎ ((i : ℕ) × (occurs_at term haystack i ≡ true)
          × (perform_find direction term haystack k ≡ record {
            search_cursor = cursor_after direction i (text_length term);
            selection_start = i;
            selection_end = i + text_length term;
          }))
unfolding perform_find
perform_find-finds direction term haystack k full =
    elim (find_index-Found direction term haystack k) [
      | inl (e, nowhere) ↦ inl (rw (full, e) refl, nowhere)
      | inr (i, e, o) ↦ inr (i, o, rw (full, e) refl)
    ]

-- Line `i` of a text, counted from 0, and the empty text where it has none.
abbrev pub line_at : List String → ℕ → String
line_at [] i = ""
line_at (l ∷ ls) zero = l
line_at (l ∷ ls) (suc i) = line_at ls i

abbrev pub has_row : ℕ → List DiffRow → Bool
has_row n rows = any (λ (r : DiffRow). r.line == n) rows

diff_from_earlier : (n m : ℕ) (os cs : List String) → m < n → has_row m (diff_from n os cs) ≡ false
diff_from_earlier n m [] [] lt = refl
diff_from_earlier n m [] (c ∷ cs) lt = ground (arith, diff_from_earlier (suc n) m [] cs)
diff_from_earlier n m (o ∷ os) [] lt = ground (arith, diff_from_earlier (suc n) m os [])
diff_from_earlier n m (o ∷ os) (c ∷ cs) lt = ground (arith, diff_from_earlier (suc n) m os cs)

diff_from_row :
    (n i : ℕ) (os cs : List String)
    → has_row (n + i) (diff_from n os cs) ≡ not (str_eq (line_at os i) (line_at cs i))
diff_from_row n i [] [] = refl
diff_from_row n zero [] (c ∷ cs) = ground (arith, diff_from_earlier (suc n) n [] cs)
diff_from_row n (suc i) [] (c ∷ cs) = ground (arith, diff_from_row (suc n) i [] cs)
diff_from_row n zero (o ∷ os) [] = ground (arith, diff_from_earlier (suc n) n os [])
diff_from_row n (suc i) (o ∷ os) [] = ground (arith, diff_from_row (suc n) i os [])
diff_from_row n zero (o ∷ os) (c ∷ cs) = ground (arith, diff_from_earlier (suc n) n os cs)
diff_from_row n (suc i) (o ∷ os) (c ∷ cs) = ground (arith, diff_from_row (suc n) i os cs)

-- Counted from 1, a line is shown as different exactly if the two texts differ in it, where a text that
-- has no such line counts as empty there.
pub diff_lines-row :
    (original current : String) (i : ℕ)
    → has_row (1 + i) (diff_lines original current)
      ≡ not (str_eq (line_at (split_lines original) i) (line_at (split_lines current) i))
unfolding diff_lines
diff_lines-row original current i = diff_from_row 1 i (split_lines original) (split_lines current)
