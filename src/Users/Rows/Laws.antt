-- ===== src/Users/Rows/Laws.antt =====
-- frontend/src/components/UserManagement.tsx: the rows of inbounds in the form.
use ogs_swg.Prelude.{
  ℕ, ◌<◌, String, [], ◌∷◌, arith, length, length-append, length-modify_at, le-length-remove_at,
}
use ogs_swg.Users.{Page, UserType}
use ogs_swg.Users.Rows.{
  change_user_type, set_row_tag, set_row_flow, remove_row, add_row, default_flow,
}

-- What the user can do with the rows.
pub data Edit : Type 0 where
  choose_type : UserType → Edit
  choose_tag choose_flow : ℕ → String → Edit
  remove : ℕ → Edit
  add : Edit

abbrev pub apply : Edit → Page → Page
apply (choose_type t) p = change_user_type t p
apply (choose_tag i v) p = set_row_tag i v p
apply (choose_flow i v) p = set_row_flow i v p
apply (remove i) p = remove_row i p
apply add p = add_row p

-- A form that has a row has one after every edit of its rows.
pub apply-row :
    (e : Edit) (p : Page) → 0 < length p.inbound_rows → 0 < length (apply e p).inbound_rows
unfolding change_user_type set_row_tag set_row_flow remove_row add_row
apply-row (choose_type t) p h = omega arith
apply-row (choose_tag i v) p h =
    omega (arith, length-modify_at i (λ r. record r { tag = v }) p.inbound_rows)
apply-row (choose_flow i v) p h =
    omega (arith, length-modify_at i (λ r. record r { flow = v }) p.inbound_rows)
apply-row (remove i) p h = ground (arith, le-length-remove_at i p.inbound_rows)
apply-row add p h = omega (
  arith,
  length-append p.inbound_rows (record { tag = ""; flow = default_flow p.user_type } ∷ []),
)
