-- ===== src/Raw/Tests.antt =====
-- Examples for frontend/src/components/RawConfig.tsx.
use ogs_swg.Prelude.{true, false, [], ◌∷◌, ◌≡◌, ◌⊎◌, concat}
use ogs_swg.Runtime.{World, Exception, ok, alert, show_exception}
use ogs_swg.Api.Fixtures.{world, accepting}
use ogs_swg.Raw.{Page, start, raw_wireguard, handle_save, tab_diff}
use ogs_swg.Raw.Laws.{save_request, saved_page, is_unreadable, IsFailure, handle_save-ends}
use ogs_swg.Api.Settled.{verdict, accepted}

abbrev edited : World Page
edited = world (record start {
  active_tab = raw_wireguard;
  wg_config = "[Interface]\nMTU = 1420";
  original_wg_config = "[Interface]";
})

handle_save-ends_example :
    let r = handle_save edited.ui accepting edited in
    let answer = accepting (save_request raw_wireguard edited ∷ []) in
    (r.0 ≡ ok tt)
    × (((is_unreadable raw_wireguard edited.ui ≡ true)
          × (r.1.sent ≡ [])
          × (r.1.ui ≡ edited.ui)
          × (e : Exception) × (r.1.notices
              ≡ alert (concat ("Failed to save: " ∷ show_exception e ∷ [])) ∷ []))
        ⊎ ((is_unreadable raw_wireguard edited.ui ≡ false)
            × (r.1.sent ≡ save_request raw_wireguard edited ∷ [])
            × (((verdict answer ≡ accepted)
                  × (r.1.ui ≡ saved_page raw_wireguard edited.ui)
                  × (tab_diff r.1.ui ≡ [])
                  × (r.1.notices ≡ alert "Config saved successfully!" ∷ []))
                ⊎ (IsFailure (verdict answer)
                    × (r.1.ui ≡ edited.ui)
                    × (e : Exception) × (r.1.notices
                        ≡ alert (concat ("Failed to save: " ∷ show_exception e ∷ [])) ∷ [])))))
handle_save-ends_example = handle_save-ends accepting edited
