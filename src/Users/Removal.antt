-- ===== src/Users/Removal.antt =====
-- frontend/src/components/UserManagement.tsx: deleting the selected users, one user, and a user's
-- inbounds.
pub mod Laws
pub mod Inbounds
use ogs_swg.Prelude.{
  ℕ, ◌+◌, String, List, [], ◌∷◌, Option, none, some, Bool, true, false, ltb, ◌==◌, length, filter,
  find, str_eq, if◌then◌else◌, concat, has, add, delete, set_of,
}
use ogs_swg.Wire.{UserStatus}
use ogs_swg.Runtime.{
  M, ◌>>=◌, ◌>>◌, skip, return, update, notify, error, success, show_exception, try_catch, for_each,
}
use ogs_swg.Encoding.Decimal.{decimal}
use ogs_swg.Api.Users.{delete_user, remove_user_from_inbound}
use ogs_swg.Users.{Page, closed, delete_confirm, select_inbounds, modal_data, fetch_users}

-- `handleDeleteSelected`
abbrev pub handle_delete_selected : Page → Page
handle_delete_selected p = record p { modal = delete_confirm }

-- The inbound tags of a user, `[]` for `undefined`.
abbrev pub tags_of : UserStatus → List String
tags_of u = elim u.inbound_tags [ none ↦ [] | some tags ↦ tags ]

-- The user of this name is in more than one inbound.
unfoldable pub in_many_inbounds : List UserStatus → String → Bool
in_many_inbounds users name = elim (find (λ u. str_eq u.name name) users) [
  | none ↦ false
  | some u ↦ ltb 1 (length (tags_of u))
]

-- One round of the loop over the selected users: 1 for a failure.
unfoldable pub attempt_delete : String → M Page ℕ
unfolding delete_user
attempt_delete name = try_catch (delete_user name >> return 0) (λ err. return 1)

-- The loop over the selected users; its result is the number of failures.
unfoldable pub delete_each : List String → M Page ℕ
unfolding attempt_delete
delete_each [] = return 0
delete_each (name ∷ rest) = do
  failed ← attempt_delete name
  later ← delete_each rest
  return (failed + later)

abbrev pub report_deleted : ℕ → ℕ → M Page (Unit {0})
report_deleted failed size =
    if ltb 0 failed
    then notify (error (concat ("Failed to delete " ∷ decimal failed ∷ " users." ∷ [])))
    else notify (success (concat ("Deleted " ∷ decimal size ∷ " users successfully." ∷ [])))

abbrev pub close_modal : M Page (Unit {0})
close_modal = update (λ p. record p { modal = closed })

-- What `confirmDeleteSelected` does when no selected user is in more than one inbound.
unfoldable pub delete_selected : List String → M Page (Unit {0})
unfolding delete_each fetch_users
delete_selected selected = do
  close_modal
  failed ← delete_each selected
  report_deleted failed (length selected)
  update (λ p. record p { selected_users = [] })
  fetch_users

unfoldable pub confirm_delete_selected : Page → M Page (Unit {0})
confirm_delete_selected s = elim (filter (in_many_inbounds s.users) s.selected_users) [
  | [] ↦ delete_selected s.selected_users
  | name ∷ _ ↦ do
    close_modal
    notify (
        error (
          concat
            ("User \"" ∷ name ∷ "\" exists in multiple inbounds. Please delete manually." ∷ [])))
]

-- The `try` block of `handleRemoveFromSelectedInbounds`.
unfoldable pub remove_from_inbounds : UserStatus → List String → M Page (Unit {0})
unfolding delete_user remove_user_from_inbound for_each fetch_users
remove_from_inbounds user inbounds_to_remove = do
  (if length inbounds_to_remove == length (tags_of user)
      then (do delete_user user.name; notify (success "User deleted successfully"))
      else (do
        for_each inbounds_to_remove (λ tag. remove_user_from_inbound user.name tag)
        notify (
            success (
              concat (
                "User removed from " ∷ decimal (length inbounds_to_remove) ∷ " inbound(s)" ∷ [])))))
  fetch_users

unfoldable pub handle_remove_from_selected_inbounds : Page → M Page (Unit {0})
unfolding remove_from_inbounds
handle_remove_from_selected_inbounds s = elim (modal_data s.modal) [
  | none ↦ skip
  | some user ↦ do
    update (λ p. record p { modal = closed; selected_inbounds_to_remove = [] })
    try_catch (remove_from_inbounds user s.selected_inbounds_to_remove)
        (λ err. notify (error (concat ("Failed to remove user: " ∷ show_exception err ∷ []))))
]

-- A checkbox of the dialog of inbounds; whether it is now checked is the first argument.
unfoldable pub toggle_inbound_to_remove : Bool → String → Page → Page
toggle_inbound_to_remove checked tag p = record p {
  selected_inbounds_to_remove =
      if checked
      then add p.selected_inbounds_to_remove tag
      else delete p.selected_inbounds_to_remove tag;
}

-- `onClose` of that dialog.
abbrev pub cancel_remove : Page → Page
cancel_remove p = record p { modal = closed; selected_inbounds_to_remove = [] }

-- The button `Delete User` in a row of the table; the answer of `confirm` is an argument.
unfoldable pub click_delete : Bool → UserStatus → M Page (Unit {0})
unfolding delete_user fetch_users
click_delete confirmed user =
    if ltb 1 (length (tags_of user))
    then update (λ p. record p {
      selected_inbounds_to_remove = set_of (tags_of user);
      modal = select_inbounds user;
    })
    else if confirmed
    then try_catch (do delete_user user.name; notify (success "User deleted"); fetch_users)
        (λ err. notify (error (concat ("Failed to delete: " ∷ show_exception err ∷ []))))
    else skip

-- The same button on a card, which the page shows on small screens.
unfoldable pub click_delete_card : Bool → UserStatus → M Page (Unit {0})
unfolding delete_user fetch_users
click_delete_card confirmed user =
    if confirmed
    then try_catch (do delete_user user.name; notify (success "User deleted"); fetch_users)
        (λ err. notify (error (show_exception err)))
    else skip
