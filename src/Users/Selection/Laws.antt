-- ===== src/Users/Selection/Laws.antt =====
-- frontend/src/components/UserManagement.tsx: the selection of users as a set of names.
use ogs_swg.Prelude.{
  String, List, [], true, not, ◌&&◌, ◌≡◌, arith, str_eq, eq_iff, has, set_of, filter, has-add,
  has-delete, has-set_of, has-add_all, has-filter, HasNoRepeat, HasNoRepeat-add_all, set_of-fresh,
  length, ltb, if◌then◌else◌, length-map, ◌∙◌, ap,
}
use ogs_swg.Wire.{UserStatus}
use ogs_swg.Users.{Page, receive_users}
use ogs_swg.Users.Selection.{names, handle_select_all, handle_select_user, all_selected}

-- Clicking the box of one user changes the selection of that user and of no other.
pub handle_select_user-has :
    (name other : String) (p : Page)
    → has (handle_select_user name p).selected_users other
      ≡ (if str_eq name other then not (has p.selected_users name) else has p.selected_users other)
unfolding handle_select_user
handle_select_user-has name other p = ground (
  arith,
  has-delete p.selected_users name other,
  has-add p.selected_users name other,
  eq_iff name other,
)

-- After the list was fetched, the selection holds exactly the names selected before that the
-- server still lists, each once.
pub receive_users-selected :
    (found : List UserStatus) (p : Page) (name : String)
    → (has (receive_users found p).selected_users name
        ≡ (has (names found) name && has p.selected_users name))
      × HasNoRepeat (receive_users found p).selected_users
receive_users-selected found p name = (
  has-add_all [] (filter (has (set_of (names found))) p.selected_users) name
      ∙ has-filter (has (set_of (names found))) p.selected_users name
      ∙ ap (◌&& has p.selected_users name) (has-set_of (names found) name),
  HasNoRepeat-add_all [] (filter (has (set_of (names found))) p.selected_users) tt,
)

-- Selecting all of a list of distinct names checks the box for all, exactly if there is a user.
pub all_selected-handle_select_all :
    (p : Page)
    → HasNoRepeat (names p.users)
    → all_selected (handle_select_all true p) ≡ ltb 0 (length p.users)
unfolding all_selected handle_select_all
all_selected-handle_select_all p h =
    rw (set_of-fresh (names p.users) h, length-map (λ (u : UserStatus). u.name) p.users)
      (ground arith)
