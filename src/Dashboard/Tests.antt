-- ===== src/Dashboard/Tests.antt =====
-- Examples for frontend/src/components/Dashboard.tsx.
use ogs_swg.Prelude.{ℕ, ◌+◌, false, none, some, [], ◌∷◌, ◌≡◌, refl, arith}
use ogs_swg.Wire.{get, no_body}
use ogs_swg.Runtime.{World, ok}
use ogs_swg.Api.Accepted.{request}
use ogs_swg.Api.Fixtures.{world, accepting, signed_in}
use ogs_swg.Settings
use ogs_swg.Settings.{singbox, wireguard}
use ogs_swg.Settings.Prefs.{save_prefs}
use ogs_swg.Dashboard.{Page, start, open_page, range_seconds, fetch_data}
use ogs_swg.Dashboard.Laws.{open_page-save_prefs, fetch_data-range, dashboard_url}

abbrev chosen : Settings.Page
chosen = record (Settings.start none) {
  dashboard_prefs = record {
    default_service = wireguard;
    refresh_ms = 30000;
    default_range = "1w";
  };
}

abbrev page : Page
page = start 1700000000 1699920000

open_page-save_prefs_example :
    let prefs = (save_prefs chosen).dashboard_prefs in
    let opened = open_page (save_prefs chosen).stored_prefs page in
    (opened.time_range ≡ prefs.default_range)
    × (opened.refresh_interval ≡ prefs.refresh_ms)
    × (opened.chart_mode
        ≡ elim prefs.default_service [ singbox ↦ page.chart_mode | wireguard ↦ wireguard ])
open_page-save_prefs_example = open_page-save_prefs chosen page

abbrev opened : World Page
opened = world page

fetch_data-range_example :
    let r = fetch_data 1700000000 opened.ui accepting opened in
    (r.0 ≡ ok tt)
    × (r.1.ui.loading ≡ false)
    × (first : ℕ) × (first + range_seconds "24h" ≡ 1700000000)
    × (r.1.ui.chart_domain ≡ some (first, 1700000000))
    × (r.1.sent ≡ request signed_in get (dashboard_url "24h" (first, 1700000000)) none no_body ∷ [])
fetch_data-range_example = fetch_data-range accepting 1700000000 opened (omega arith) refl
