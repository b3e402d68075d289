-- ===== src/Dashboard/Laws.antt =====
-- frontend/src/components/Dashboard.tsx: what it takes over from the preferences that
-- frontend/src/components/Settings.tsx saves, and the range that it asks for.
use ogs_swg.Prelude.{
  ℕ, ◌+◌, ◌-◌, ◌*◌, ◌≤◌, String, true, false, none, some, [], ◌∷◌, ◌++◌, ◌≡◌, refl, ap, inl, inr,
  arith, str_eq, truthy, or_text, concat,
}
use ogs_swg.Wire.{get, no_body}
use ogs_swg.Runtime.{World, Server, ok}
use ogs_swg.Encoding.{query}
use ogs_swg.Encoding.Decimal.{decimal}
use ogs_swg.Json.{Json, stringify_compact}
use ogs_swg.Json.Laws.{parse-stringify_compact}
use ogs_swg.Api.{text_param}
use ogs_swg.Api.Accepted.{request}
use ogs_swg.Api.Settled.{Settled, Settled-bind, call-Settled, IsPure-parse, Outcome-cases}
use ogs_swg.Api.Stats.{get_dashboard_data, as_dashboard}
use ogs_swg.Settings
use ogs_swg.Settings.{Service, singbox, wireguard, DashboardPrefs}
use ogs_swg.Settings.Prefs.{normalized, prefs_json, save_prefs, or_number}
use ogs_swg.Settings.Laws.{
  stored_refresh-max, truthy-parse, stored_service-service_name, truthy-or_text,
}
use ogs_swg.Dashboard.{
  Page, open_page, receive_prefs, load_dashboard_prefs, range_seconds, compute_range_seconds,
  domain, fetch_data, day,
}

load_dashboard_prefs-saved : (v : Json) → load_dashboard_prefs (some (stringify_compact v)) ≡ v
unfolding load_dashboard_prefs
load_dashboard_prefs-saved v =
    let parses = parse-stringify_compact v in rw (truthy-parse _ v parses, parses) refl

or_text-default :
    (s d : String) → truthy d ≡ true → (e : String) → or_text (or_text s d) e ≡ or_text s d
or_text-default s d h e = rw (truthy-or_text s d h) refl

-- After the preferences of the dashboard were saved on the settings page, the dashboard that is
-- opened has their time range and their refresh interval, and shows WireGuard if they say so, and
-- what it showed before otherwise.
pub open_page-save_prefs :
    (s : Settings.Page) (p : Page)
    → let prefs = (save_prefs s).dashboard_prefs in
      let opened = open_page (save_prefs s).stored_prefs p in
      (opened.time_range ≡ prefs.default_range)
      × (opened.refresh_interval ≡ prefs.refresh_ms)
      × (opened.chart_mode
          ≡ elim prefs.default_service [ singbox ↦ p.chart_mode | wireguard ↦ wireguard ])
unfolding open_page save_prefs receive_prefs normalized prefs_json
open_page-save_prefs s p =
    rw (load_dashboard_prefs-saved (prefs_json (normalized s.dashboard_prefs))) (
      or_text-default s.dashboard_prefs.default_range "24h" refl p.time_range,
      stored_refresh-max (or_number s.dashboard_prefs.refresh_ms 10000) p.refresh_interval,
      ap (λ c. elim c [ singbox ↦ p.chart_mode | wireguard ↦ wireguard ])
          (stored_service-service_name s.dashboard_prefs.default_service),
    )

range_seconds-le : (range : String) → range_seconds range ≤ 30 * day
unfolding range_seconds
range_seconds-le range = ground arith

abbrev pub dashboard_url : String → ℕ × ℕ → String
dashboard_url range d = concat (
    "/api/dashboard?"
    ∷ query (
        ("range", range) ∷ text_param "start" (some (decimal d.0))
        ++ text_param "end" (some (decimal d.1)))
    ∷ [])

data_get :
    (server : Server) (w : World Page) (range : String) (d : ℕ × ℕ)
    → Settled
        (get_dashboard_data range (some (decimal d.0)) (some (decimal d.1)))
        server
        w
        (request w.session get (dashboard_url range d) none no_body)
unfolding get_dashboard_data
data_get server w range d =
    Settled-bind server w _ _ _ (IsPure-parse (λ res. as_dashboard res.json)) (
      call-Settled server w get (dashboard_url range d) none no_body
        "Failed to fetch dashboard data")

domain-named :
    (now : ℕ) (p : Page)
    → str_eq p.time_range "custom" ≡ false
    → domain now p ≡ (now - range_seconds p.time_range, now)
unfolding domain compute_range_seconds
domain-named now p named = rw named refl

-- From thirty days after 1970 on, and for a range that is not the custom one, `fetchData` returns
-- and does not wait any longer, whatever the server answers. It has asked once, for the range and
-- the bounds that the charts have then: they end now, and lie as far apart as the range is long.
pub fetch_data-range :
    (server : Server) (now : ℕ) (w : World Page)
    → 30 * day ≤ now
    → str_eq w.ui.time_range "custom" ≡ false
    → let r = fetch_data now w.ui server w in
      (r.0 ≡ ok tt)
      × (r.1.ui.loading ≡ false)
      × (first : ℕ) × (first + range_seconds w.ui.time_range ≡ now)
      × (r.1.ui.chart_domain ≡ some (first, now))
      × (r.1.sent
          ≡ request w.session get (dashboard_url w.ui.time_range (first, now)) none no_body
            ∷ w.sent)
unfolding fetch_data
fetch_data-range server now w late named =
    let range = w.ui.time_range in
    let bounds : ℕ × ℕ = (now - range_seconds range, now) in
    let same : domain now w.ui ≡ bounds = domain-named now w.ui named in
    let loading : World Page = record w {
      ui = record w.ui { loading = true; chart_domain = some bounds };
    } in
    let s = data_get server loading range bounds in
    let apart : now - range_seconds range + range_seconds range ≡ now =
      omega (arith, range_seconds-le range) in
    elim (Outcome-cases s.outcome) [
      | inl (pending, accepted) ↦
          rw (same, s.result, accepted) (refl, refl, now - range_seconds range, apart, refl, refl)
      | inr (e, failed) ↦
          rw (same, s.result, failed) (refl, refl, now - range_seconds range, apart, refl, refl)
    ]
