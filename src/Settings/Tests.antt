-- ===== src/Settings/Tests.antt =====
-- Examples for frontend/src/components/Settings.tsx.
use ogs_swg.Prelude.{◌≤◌, true, false, none, some, [], ◌∷◌, ◌≡◌, refl, ◌⊎◌, truthy}
use ogs_swg.Runtime.{World, ok, Notice}
use ogs_swg.Api.Fixtures.{world, accepting}
use ogs_swg.Settings.{Page, start, wireguard}
use ogs_swg.Settings.Prefs.{save_prefs, load_prefs}
use ogs_swg.Settings.Account.{utf16_length, handle_change_password}
use ogs_swg.Settings.Laws.{load_prefs-save_prefs, handle_change_password-guard, password_request}
use ogs_swg.Settings.Account.{handle_change_username}
use ogs_swg.Settings.Laws.Username.{handle_change_username-ends, username_request, Renamed}
use ogs_swg.Settings.Inputs.{choose_history_limit, choose_range, history_effect}
use ogs_swg.Settings.Laws.Reload.{history_effect-save_prefs}

abbrev chosen : Page
chosen = record (start none) {
  dashboard_prefs = record { default_service = wireguard; refresh_ms = 500; default_range = "" };
}

abbrev next_visit : Page
next_visit = start (save_prefs chosen).stored_prefs

load_prefs-save_prefs_example :
    ((load_prefs next_visit).dashboard_prefs ≡ (save_prefs chosen).dashboard_prefs)
    × (1000 ≤ (load_prefs next_visit).dashboard_prefs.refresh_ms)
    × (truthy (load_prefs next_visit).dashboard_prefs.default_range ≡ true)
load_prefs-save_prefs_example = load_prefs-save_prefs chosen next_visit refl

prefs_test :
    (save_prefs chosen).dashboard_prefs
    ≡ record { default_service = wireguard; refresh_ms = 1000; default_range = "24h" }
unfolding save_prefs
prefs_test = refl

abbrev typed : World Page
typed = world (record (start none) {
  password_data = record { current = "old"; new = "longenough"; confirm = "longenough" };
})

handle_change_password-guard_example :
    let r = handle_change_password typed.ui accepting typed in
    let d = typed.ui.password_data in
    (r.0 ≡ ok tt)
    × ((n : Notice) × (r.1.notices ≡ n ∷ []))
    × (((r.1.sent ≡ []) × (r.1.ui.password_data ≡ d))
        ⊎ ((d.new ≡ d.confirm)
            × (8 ≤ utf16_length d.new)
            × (truthy d.current ≡ true)
            × (r.1.sent ≡ password_request typed ∷ [])))
handle_change_password-guard_example = handle_change_password-guard accepting typed

abbrev renaming : World Page
renaming =
    world (record (start none) {
      username_data = record { password = "secret"; new_username = "root" };
    })

handle_change_username-ends_example :
    let r = handle_change_username renaming.ui accepting renaming in
    (r.0 ≡ ok tt)
    × ((n : Notice) × (r.1.notices ≡ n ∷ []))
    × (((true ≡ false)
          × (r.1.sent ≡ [])
          × (r.1.session ≡ renaming.session)
          × (r.1.ui ≡ renaming.ui))
        ⊎ ((true ≡ true)
            × (r.1.sent ≡ username_request renaming ∷ [])
            × Renamed renaming r.1 (accepting (username_request renaming ∷ []))))
handle_change_username-ends_example = handle_change_username-ends accepting renaming refl

left_test : (handle_change_username renaming.ui accepting renaming).1.ui.at_login ≡ true
unfolding handle_change_username
left_test = refl

-- Another range is chosen, and then the length of the history.
abbrev rechosen : World Page
rechosen = world (choose_range "7d" next_visit)

history_effect-save_prefs_example :
    let w₁ : World Page = record rechosen { ui = choose_history_limit 20 rechosen.ui } in
    let w₂ : World Page = record rechosen { ui = choose_range "30d" rechosen.ui } in
    let r = history_effect (some 5) true w₁.ui accepting w₁ in
    (r.0 ≡ ok tt)
    × (r.1.ui.dashboard_prefs ≡ (save_prefs chosen).dashboard_prefs)
    × (history_effect (some 5) true w₂.ui accepting w₂ ≡ (ok tt, w₂))
history_effect-save_prefs_example =
    history_effect-save_prefs accepting true chosen rechosen 20 "30d" refl
