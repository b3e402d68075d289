-- ===== src/Settings/Account.antt =====
-- frontend/src/components/Settings.tsx: the change of the password and of the user name.
use ogs_swg.Prelude.{
  ℕ, ◌+◌, String, code, true, [], ◌∷◌, not, ◌||◌, ltb, str_eq, truthy, concat, if◌then◌else◌,
}
use ogs_swg.Runtime.{M, ◌>>◌, ok, update, notify, success, error, try_catch, show_exception}
use ogs_swg.Session.{logout}
use ogs_swg.Api.Users.{update_password, update_username}
use ogs_swg.Settings.{Page, no_password, no_username}

-- `text.length` counts units of 16 bits.
abbrev pub units : ℕ → ℕ
units c = if ltb c 0x10000 then 1 else 2

unfoldable pub utf16_length : String → ℕ
utf16_length String.[] = 0
utf16_length (String.◌∷◌ c s) = units (code c) + utf16_length s

abbrev pub toast : String → M Page (Unit {0})
toast message = notify (error message)

-- `handleChangePassword`
unfoldable pub handle_change_password : Page → M Page (Unit {0})
unfolding utf16_length update_password
handle_change_password s =
    let d = s.password_data in
    if not (truthy d.current) || not (truthy d.new) || not (truthy d.confirm)
    then toast "All fields are required"
    else if not (str_eq d.new d.confirm)
    then toast "New passwords do not match"
    else if ltb (utf16_length d.new) 8
    then toast "New password must be at least 8 characters"
    else try_catch
        (do
          update_password d.current d.new
          notify (success "Password updated successfully")
          update (λ p. record p { password_data = no_password }))
        (λ err. toast (concat ("Failed to update password: " ∷ show_exception err ∷ [])))

-- `logout()` of the session.
abbrev pub log_out : M Page (Unit {0})
log_out server w = (ok tt, record w { session = logout w.session })

-- `handleChangeUsername`
unfoldable pub handle_change_username : Page → M Page (Unit {0})
unfolding update_username logout
handle_change_username s =
    let d = s.username_data in
    if not (truthy d.password) || not (truthy d.new_username)
    then toast "All fields are required"
    else try_catch
        (do
          update_username d.password d.new_username
          notify (success "Username updated successfully. Please login again.")
          update (λ p. record p { username_data = no_username })
          log_out
          update (λ p. record p { at_login = true }))
        (λ err. toast (concat ("Failed to update username: " ∷ show_exception err ∷ [])))
