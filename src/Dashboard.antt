-- ===== src/Dashboard.antt =====
-- frontend/src/components/Dashboard.tsx: the preferences it starts with, the time range, the
-- refresh and the applying of changes.
-- Times are seconds since 1970; the two dates of a custom range are given by the second that they
-- begin at. Of the server's data the model keeps the flag of pending changes; the charts are left
-- out. A round of the timer is a call of `fetch_data`.
pub mod Laws
mod Tests
use ogs_swg.Prelude.{
  ℕ, ◌+◌, ◌-◌, ◌*◌, String, Bool, true, false, Option, none, some, str_eq, truthy, or_text,
  if◌then◌else◌,
}
use ogs_swg.Runtime.{M, ◌>>=◌, ◌>>◌, skip, update, notify, alert, try_catch}
use ogs_swg.Encoding.Decimal.{decimal}
use ogs_swg.Json.{Json, object, no_members}
use ogs_swg.Json.Parser.{parse}
use ogs_swg.Json.Access.{field}
use ogs_swg.Api.Stats.{get_dashboard_data}
use ogs_swg.Api.Singbox.{apply_singbox_changes}
use ogs_swg.Settings.{Service, singbox, wireguard, holds}
use ogs_swg.Settings.Prefs.{stored_service, stored_refresh, stored_range}

pub record Page : Type 0 where
  pub loading : Bool
  pub last_updated : ℕ
  pub time_range : String
  pub chart_mode : Service
  pub refresh_interval : ℕ
  pub chart_domain : Option (ℕ × ℕ)
  pub singbox_pending_changes : Bool
  pub custom_start : ℕ
  pub custom_end : ℕ

-- The page at a time, with the second that this day begins at.
abbrev pub start : ℕ → ℕ → Page
start now today = record {
  loading = true;
  last_updated = now;
  time_range = "24h";
  chart_mode = singbox;
  refresh_interval = 10000;
  chart_domain = none;
  singbox_pending_changes = false;
  custom_start = today;
  custom_end = today;
}

-- `loadDashboardPrefs`: what the storage holds, or an empty object.
abbrev json_or_empty : Option Json → Json
json_or_empty none = object no_members
json_or_empty (some v) = v

unfoldable pub load_dashboard_prefs : Option String → Json
load_dashboard_prefs none = object no_members
load_dashboard_prefs (some raw) =
    if truthy raw then json_or_empty (parse raw) else object no_members

-- The effect that runs when the page is opened. The service stays where another one is not asked
-- for; a page that is opened shows sing-box. A stored `null`, which is never written, would throw.
unfoldable pub receive_prefs : Json → Page → Page
receive_prefs prefs p = record p {
  chart_mode = elim (stored_service (field "defaultService" prefs)) [
    | singbox ↦ p.chart_mode
    | wireguard ↦ wireguard
  ];
  time_range = stored_range p.time_range (field "defaultRange" prefs);
  refresh_interval = stored_refresh p.refresh_interval (field "refreshMs" prefs);
}

unfoldable pub open_page : Option String → Page → Page
unfolding load_dashboard_prefs receive_prefs
open_page stored p = receive_prefs (load_dashboard_prefs stored) p

abbrev pub day : ℕ
day = 24 * 60 * 60

-- The length of a named range; another name means a day.
unfoldable pub range_seconds : String → ℕ
range_seconds range =
    if str_eq range "30m"
    then 30 * 60
    else if str_eq range "1h"
    then 60 * 60
    else if str_eq range "6h"
    then 6 * 60 * 60
    else if str_eq range "24h"
    then day
    else if str_eq range "1w"
    then 7 * day
    else if str_eq range "1m"
    then 30 * day
    else day

-- `computeRangeSeconds`
unfoldable pub compute_range_seconds : ℕ → String → ℕ × ℕ
unfolding range_seconds
compute_range_seconds now range = (now - range_seconds range, now)

-- The bounds that `fetchData` asks for.
unfoldable pub domain : ℕ → Page → ℕ × ℕ
unfolding compute_range_seconds
domain now s =
    if str_eq s.time_range "custom"
    then (s.custom_start, s.custom_end + day)
    else compute_range_seconds now s.time_range

-- `fetchData`, at a time.
unfoldable pub fetch_data : ℕ → Page → M Page (Unit {0})
unfolding domain get_dashboard_data
fetch_data now s = do
  update (λ p. record p { loading = true })
  try_catch
      (do
        update (λ p. record p { chart_domain = some (domain now s) })
        pending ←
            get_dashboard_data s.time_range (some (decimal (domain now s).0))
              (some (decimal (domain now s).1))
        update (λ p. record p { singbox_pending_changes = holds pending; last_updated = now }))
      (λ err. skip)
  update (λ p. record p { loading = false })

-- `handleApplySingboxChanges`
unfoldable pub handle_apply_singbox_changes : ℕ → Page → M Page (Unit {0})
unfolding apply_singbox_changes fetch_data
handle_apply_singbox_changes now s =
    try_catch
      (do
        apply_singbox_changes
        update (λ p. record p { singbox_pending_changes = false })
        fetch_data now s)
      (λ err. notify (alert "Failed to apply changes. Please try again."))
