-- ===== src/Settings/Laws/Username.antt =====
-- frontend/src/components/Settings.tsx: the session after a change of the user name.
use ogs_swg.Prelude.{
  true, false, none, some, [], ◌∷◌, ◌≡◌, refl, ◌⊎◌, inl, inr, not, ◌||◌, ◌&&◌, arith, truthy,
  Bool-cases, concat,
}
use ogs_swg.Wire.{put, fields, Request, Reply}
use ogs_swg.Runtime.{World, Server, ok, Session, success, error, Notice, show_exception}
use ogs_swg.Session.{logout, protected_route, to_login}
use ogs_swg.Api.{json_type}
use ogs_swg.Api.Accepted.{request}
use ogs_swg.Api.Settled.{Ending, call-Ending, verdict, accepted, denied, refused}
use ogs_swg.Api.Users.{update_username}
use ogs_swg.Settings.{Page, no_username}
use ogs_swg.Settings.Account.{handle_change_username}

-- The request of a new user name.
abbrev pub username_request : World Page → Request
username_request w = request w.session put "/api/auth/username" json_type (
    fields (
      ("current_password", some w.ui.username_data.password)
      ∷ ("new_username", some w.ui.username_data.new_username)
      ∷ []))

username_put :
    (server : Server) (w : World Page)
    → Ending
        (update_username w.ui.username_data.password w.ui.username_data.new_username)
        server
        w
        (username_request w)
unfolding update_username
username_put server w =
    call-Ending server w put "/api/auth/username" json_type
      (fields (
        ("current_password", some w.ui.username_data.password)
        ∷ ("new_username", some w.ui.username_data.new_username)
        ∷ []))
      "Failed to update username"

-- The storage has no token, and the guard of the protected pages leads to the login.
abbrev pub IsOut : Session → Type 0
IsOut s = (s.stored ≡ none) × (protected_route s ≡ to_login)

-- How the change ends once it is sent, by the answer.
abbrev pub Renamed : World Page → World Page → Reply → Type 0
Renamed w w₁ answer =
    ((verdict answer ≡ accepted)
      × (w₁.ui.at_login ≡ true)
      × IsOut w₁.session
      × (w₁.ui.username_data ≡ no_username))
    ⊎ (((verdict answer ≡ denied)
          × (w₁.ui.at_login ≡ false)
          × IsOut w₁.session
          × (w₁.ui.username_data ≡ w.ui.username_data))
        ⊎ ((verdict answer ≡ refused)
            × (w₁.ui.at_login ≡ false)
            × (w₁.session ≡ w.session)
            × (w₁.ui.username_data ≡ w.ui.username_data)))

-- The change of a user name on a page that has not been left returns and shows one message. With a
-- field empty nothing is sent, and the page, its fields and the session stay. Otherwise the request
-- is sent once. If it is accepted, the page is left for the login with its fields cleared; if it is
-- answered with status 401, the fields stay. In both cases no token is left in the storage, and the
-- guard leads to the login. After every other answer, or none, the page, its fields and the session
-- stay.
pub handle_change_username-ends :
    (server : Server) (w : World Page)
    → w.ui.at_login ≡ false
    → let r = handle_change_username w.ui server w in
      let d = w.ui.username_data in
      (r.0 ≡ ok tt)
      × ((n : Notice) × (r.1.notices ≡ n ∷ w.notices))
      × (((truthy d.password && truthy d.new_username ≡ false)
            × (r.1.sent ≡ w.sent)
            × (r.1.session ≡ w.session)
            × (r.1.ui ≡ w.ui))
          ⊎ ((truthy d.password && truthy d.new_username ≡ true)
              × (r.1.sent ≡ username_request w ∷ w.sent)
              × Renamed w r.1 (server (username_request w ∷ w.sent))))
unfolding handle_change_username logout protected_route
handle_change_username-ends server w stays =
    let d = w.ui.username_data in
    elim (Bool-cases (not (truthy d.password) || not (truthy d.new_username))) [
      | inl empty ↦
          rw empty
            (refl, (error "All fields are required", refl), inl (ground arith, refl, refl, refl))
      | inr filled ↦ elim (username_put server w) [
        | inl (good, done) ↦
            rw (filled, done)
              (
                refl,
                (success "Username updated successfully. Please login again.", refl),
                inr (ground arith, refl, inl (good, refl, (refl, refl), refl)),
              )
        | inr (inl (code, done)) ↦
            rw (filled, done)
              (
                refl,
                (error "Failed to update username: Error: Unauthorized", refl),
                inr (ground arith, refl, inr (inl (code, stays, (refl, refl), refl))),
              )
        | inr (inr (e, bad, done)) ↦
            rw (filled, done)
              (
                refl,
                (error (concat ("Failed to update username: " ∷ show_exception e ∷ [])), refl),
                inr (ground arith, refl, inr (inr (bad, stays, refl, refl))),
              )
      ]
    ]
