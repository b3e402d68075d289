-- ===== src/Editor/Tests.antt =====
-- Examples for the text of a configuration (frontend/src/components/RawConfig.tsx).
use ogs_swg.Prelude.{ℕ, ◌+◌, ◌≡◌, ◌⊎◌, true, false, refl}
use ogs_swg.Editor.{Cursor, next, perform_find, diff_lines}
use ogs_swg.Editor.Laws.{occurs_at, perform_find-finds, has_row, diff_lines-row}

abbrev cursor : Cursor
cursor = record { search_cursor = 2; selection_start = 0; selection_end = 2 }

perform_find-finds_example :
    ((perform_find next "ab" "ab-ab" cursor ≡ cursor)
      × ((i : ℕ) → occurs_at "ab" "ab-ab" i ≡ false))
    ⊎ ((i : ℕ) × (occurs_at "ab" "ab-ab" i ≡ true)
        × (perform_find next "ab" "ab-ab" cursor
            ≡ record { search_cursor = i + 2; selection_start = i; selection_end = i + 2 }))
perform_find-finds_example = perform_find-finds next "ab" "ab-ab" cursor refl

diff_lines-row_example : has_row 2 (diff_lines "a\nb" "a\nc") ≡ true
diff_lines-row_example = diff_lines-row "a\nb" "a\nc" 1
