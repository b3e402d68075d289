-- ===== src/Users/Save/Guard.antt =====
-- frontend/src/components/UserManagement.tsx: the two checks of the form. The button `Save` is enabled by
-- `inboundValid`; `handleSaveUser` checks its rows again.
use ogs_swg.Prelude.{
  suc, List, [], ◌∷◌, true, false, not, ◌≡◌, refl, ap, arith, any, truthy, length, ltb,
}
use ogs_swg.Users.{Page, Row, UserType}
use ogs_swg.Users.Rows.{inbound_valid, has_empty_inbound, filled_tags, has_repeat}
use ogs_swg.Users.Save.{normalize, tags, rows_ok}

tags-normalize :
    (t : UserType) (rows : List Row)
    → has_empty_inbound rows ≡ false
    → tags (normalize t rows) ≡ filled_tags rows
tags-normalize t [] h = refl
tags-normalize t (r ∷ rows) h = ground (arith, tags-normalize t rows)

any-normalize :
    (t : UserType) (rows : List Row)
    → any (λ (r : Row). not (truthy r.tag)) (normalize t rows) ≡ has_empty_inbound rows
any-normalize t [] = refl
any-normalize t (r ∷ rows) = ground (arith, any-normalize t rows)

length-normalize : (t : UserType) (rows : List Row) → length (normalize t rows) ≡ length rows
length-normalize t [] = refl
length-normalize t (r ∷ rows) = ap suc (length-normalize t rows)

rows_ok-normalize :
    (t : UserType) (rows : List Row)
    → ltb 0 (length rows) ≡ true
    → has_empty_inbound rows ≡ false
    → has_repeat (filled_tags rows) ≡ false
    → rows_ok (normalize t rows) ≡ true
unfolding rows_ok
rows_ok-normalize t rows pos full once =
    rw (length-normalize t rows, any-normalize t rows, full, tags-normalize t rows full, once)
      (ground arith)

-- Whenever the form lets the user save, `handleSaveUser` accepts the rows: none is empty, and no
-- inbound is there twice.
pub inbound_valid-rows_ok :
    (p : Page) → inbound_valid p ≡ true → rows_ok (normalize p.user_type p.inbound_rows) ≡ true
unfolding inbound_valid
inbound_valid-rows_ok p h =
    rows_ok-normalize p.user_type p.inbound_rows (ground arith) (ground arith) (ground arith)
