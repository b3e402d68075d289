-- ===== src/Settings/Prefs.antt =====
-- frontend/src/components/Settings.tsx: the preferences of the dashboard and their storage; and how
-- frontend/src/components/Dashboard.tsx reads them.
-- A member of another kind than the one that is written counts as left out.
use ogs_swg.Prelude.{
  ℕ, ◌*◌, String, Option, none, some, leb, ltb, ◌==◌, str_eq, truthy, or_text, if◌then◌else◌,
}
use ogs_swg.Runtime.{M, ◌>>◌, update, notify, success}
use ogs_swg.Json.{Json, null, number, string, object, member, no_members, stringify_compact}
use ogs_swg.Json.Parser.{parse}
use ogs_swg.Json.Access.{field}
use ogs_swg.Settings.{Page, Service, singbox, wireguard, DashboardPrefs}

abbrev pub service_name : Service → String
service_name singbox = "singbox"
service_name wireguard = "wireguard"

-- `Math.max(a, b)`
abbrev pub max : ℕ → ℕ → ℕ
max a b = if ltb a b then b else a

-- `handleSave` of `DashboardTab`: what is kept; `Number(x) || 10000`.
abbrev pub or_number : ℕ → ℕ → ℕ
or_number x y = if x == 0 then y else x

unfoldable pub normalized : DashboardPrefs → DashboardPrefs
normalized d = record {
  default_service = d.default_service;
  refresh_ms = max 1000 (or_number d.refresh_ms 10000);
  default_range = or_text d.default_range "24h";
}

unfoldable pub prefs_json : DashboardPrefs → Json
prefs_json d = object (
    member "defaultService" (string (service_name d.default_service)) (
      member "refreshMs" (number d.refresh_ms)
        (member "defaultRange" (string d.default_range) no_members)))

unfoldable pub save_prefs : Page → Page
unfolding normalized prefs_json
save_prefs p = record p {
  dashboard_prefs = normalized p.dashboard_prefs;
  stored_prefs = some (stringify_compact (prefs_json (normalized p.dashboard_prefs)));
}

unfoldable pub handle_save_prefs : M Page (Unit {0})
unfolding save_prefs
handle_save_prefs = update save_prefs >> notify (success "Dashboard preferences saved")

-- The change of the number of seconds; 0 stands for a field that is no number.
unfoldable pub set_refresh_seconds : ℕ → DashboardPrefs → DashboardPrefs
set_refresh_seconds seconds d = record d { refresh_ms = max 1000 (or_number seconds 10 * 1000) }

-- The members of the stored preferences.
abbrev pub stored_service : Option Json → Service
stored_service (some (string s)) = if str_eq s "wireguard" then wireguard else singbox
stored_service _ = singbox

abbrev pub stored_refresh : ℕ → Option Json → ℕ
stored_refresh old (some (number n)) = if leb 1000 n then n else old
stored_refresh old _ = old

abbrev pub stored_range : String → Option Json → String
stored_range old (some (string s)) = or_text s old
stored_range old _ = old

-- What the effect of the page keeps of the stored text; `null` throws, and the page stays.
unfoldable pub parsed_prefs : Option Json → DashboardPrefs → DashboardPrefs
parsed_prefs none d = d
parsed_prefs (some null) d = d
parsed_prefs (some v) d = record {
  default_service = stored_service (field "defaultService" v);
  refresh_ms = stored_refresh 10000 (field "refreshMs" v);
  default_range = stored_range "24h" (field "defaultRange" v);
}

abbrev pub load_stored : Option String → DashboardPrefs → DashboardPrefs
load_stored none d = d
load_stored (some t) d = if truthy t then parsed_prefs (parse t) d else d

unfoldable pub load_prefs : Page → Page
unfolding parsed_prefs
load_prefs p = record p { dashboard_prefs = load_stored p.stored_prefs p.dashboard_prefs }
