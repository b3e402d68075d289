-- ===== src/Users/Rows.antt =====
-- frontend/src/components/UserManagement.tsx: the rows of inbounds in the form, and when the form
-- may be saved.
pub mod Laws
use ogs_swg.Prelude.{
  ℕ, zero, suc, String, List, [], ◌∷◌, ◌++◌, map, Option, none, some, Bool, true, false, not, ◌&&◌,
  ◌||◌, ◌==◌, ltb, length, filter, any, str_eq, truthy, trim, if◌then◌else◌, set_of, modify_at,
  remove_at,
}
use ogs_swg.Wire.{Inbound}
use ogs_swg.Users.{
  Page, Row, UserType, vless, is_vless, type_name, supported_user_types, inbound_type,
  get_inbound_type, get_first_inbound_tag_for_type,
}

abbrev pub default_flow : UserType → String
default_flow t = if is_vless t then "xtls-rprx-vision" else ""

-- The one row that a form of this type starts with.
abbrev pub first_row : List Inbound → UserType → List Row
first_row inbounds t =
    record { tag = get_first_inbound_tag_for_type inbounds t; flow = default_flow t } ∷ []

-- The selection of another user type.
unfoldable pub change_user_type : UserType → Page → Page
change_user_type t p = record p { user_type = t; inbound_rows = first_row p.inbounds t }

unfoldable pub set_row_tag : ℕ → String → Page → Page
set_row_tag i value p = record p {
  inbound_rows = modify_at i (λ r. record r { tag = value }) p.inbound_rows;
}

unfoldable pub set_row_flow : ℕ → String → Page → Page
set_row_flow i value p = record p {
  inbound_rows = modify_at i (λ r. record r { flow = value }) p.inbound_rows;
}

unfoldable pub remove_row : ℕ → Page → Page
remove_row i p =
    if length p.inbound_rows == 1 then p else record p { inbound_rows = remove_at i p.inbound_rows }

unfoldable pub add_row : Page → Page
add_row p = record p {
  inbound_rows = p.inbound_rows ++ record { tag = ""; flow = default_flow p.user_type } ∷ [];
}

-- What the form shows of its rows, and whether `Save` is enabled.
abbrev pub filled_tags : List Row → List String
filled_tags rows = filter truthy (map (λ (r : Row). trim r.tag) rows)

abbrev pub has_empty_inbound : List Row → Bool
has_empty_inbound rows = any (λ r. not (truthy (trim r.tag))) rows

abbrev pub has_repeat : List String → Bool
has_repeat tags = not (length (set_of tags) == length tags)

-- `type && type !== userType`
abbrev pub mismatch : List Inbound → UserType → Row → Bool
mismatch inbounds t r = elim (get_inbound_type inbounds r.tag) [
  | none ↦ false
  | some type ↦ truthy type && not (str_eq type (type_name t))
]

abbrev pub has_type_inbounds : List Inbound → UserType → Bool
has_type_inbounds inbounds t = any (λ inb. str_eq (inbound_type inb) (type_name t)) inbounds

unfoldable pub inbound_valid : Page → Bool
unfolding get_inbound_type
inbound_valid p =
    ltb 0 (length p.inbound_rows)
    && not (has_empty_inbound p.inbound_rows)
    && not (has_repeat (filled_tags p.inbound_rows))
    && not (any (mismatch p.inbounds p.user_type) p.inbound_rows)
    && any (λ t. str_eq (type_name t) (type_name p.user_type)) supported_user_types
    && has_type_inbounds p.inbounds p.user_type
