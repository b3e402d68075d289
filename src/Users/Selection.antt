-- ===== src/Users/Selection.antt =====
-- frontend/src/components/UserManagement.tsx: the selection of users.
pub mod Laws
use ogs_swg.Prelude.{
  String, List, [], map, Bool, ◌&&◌, ◌==◌, ltb, length, if◌then◌else◌, has, add, delete, set_of,
}
use ogs_swg.Wire.{UserStatus}
use ogs_swg.Users.{Page}

abbrev pub names : List UserStatus → List String
names us = map (λ (u : UserStatus). u.name) us

-- `e.target.checked` is the argument.
unfoldable pub handle_select_all : Bool → Page → Page
handle_select_all checked p = record p {
  selected_users = if checked then set_of (names p.users) else [];
}

unfoldable pub handle_select_user : String → Page → Page
handle_select_user name p = record p {
  selected_users =
      if has p.selected_users name then delete p.selected_users name else add p.selected_users name;
}

-- Whether the checkbox for all users is checked.
unfoldable pub all_selected : Page → Bool
all_selected p = ltb 0 (length p.users) && length p.selected_users == length p.users
