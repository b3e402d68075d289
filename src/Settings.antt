-- ===== src/Settings.antt =====
-- frontend/src/components/Settings.tsx: the state of the page and how it is loaded.
-- The size of the database is kept in bytes, where the page shows megabytes. The token of the
-- session and the stored preferences stand in the browser's storage.
pub mod Prefs
pub mod Account
pub mod Controls
pub mod Inputs
pub mod Laws
mod Tests
use ogs_swg.Prelude.{
  ℕ, String, Bool, true, false, Option, none, some, List, [], ◌==◌, if◌then◌else◌,
}
use ogs_swg.Wire.{FeatureFlags, SystemStatus}
use ogs_swg.Runtime.{M, ◌>>=◌, ◌>>◌, skip, update, try_catch}
use ogs_swg.Json.{Json, array}
use ogs_swg.Json.Access.{items}
use ogs_swg.Api.Decoded.{answered_json}
use ogs_swg.Api.Services.{get_features, get_public_ip, get_sampler_history}
use ogs_swg.Api.Stats.{get_system_status}

pub data Service : Type 0 where
  singbox wireguard : Service

pub record DashboardPrefs : Type 0 where
  pub default_service : Service
  pub refresh_ms : ℕ
  pub default_range : String

pub record PasswordData : Type 0 where
  pub current : String
  pub new : String
  pub confirm : String

pub record UsernameData : Type 0 where
  pub password : String
  pub new_username : String

-- `at_login` says that the page was left by `navigate('/login')`. The guard of the protected pages
-- (`protected_route` in Session.antt) leaves it too, when the session has lost its token.
pub record Page : Type 0 where
  pub loading : Bool
  pub sampler_running : Bool
  pub db_rows : ℕ
  pub db_bytes : ℕ
  pub sampler_history : List Json
  pub features : FeatureFlags
  pub history_limit : ℕ
  pub singbox_runs : Bool
  pub wireguard_runs : Bool
  pub password_data : PasswordData
  pub username_data : UsernameData
  pub public_ip : String
  pub dashboard_prefs : DashboardPrefs
  pub stored_prefs : Option String
  pub at_login : Bool

abbrev pub start_features : FeatureFlags
start_features = record {
  enable_singbox = true;
  enable_wireguard = true;
  retention_enabled = some false;
  retention_days = some 90;
  sampler_interval_sec = some 120;
  sampler_paused = some false;
  active_threshold_bytes = some 1024;
  wg_sampler_interval_sec = some 60;
  wg_retention_days = some 30;
  aggregation_enabled = some false;
  aggregation_days = some 7;
  log_source = none;
  access_log_path = none;
  systemctl_available = none;
  journalctl_available = none;
}

abbrev pub start_prefs : DashboardPrefs
start_prefs = record { default_service = singbox; refresh_ms = 10000; default_range = "24h" }

abbrev pub no_password : PasswordData
no_password = record { current = ""; new = ""; confirm = "" }

abbrev pub no_username : UsernameData
no_username = record { password = ""; new_username = "" }

abbrev pub start : Option String → Page
start stored = record {
  loading = false;
  sampler_running = false;
  db_rows = 0;
  db_bytes = 0;
  sampler_history = [];
  features = start_features;
  history_limit = 5;
  singbox_runs = false;
  wireguard_runs = false;
  password_data = no_password;
  username_data = no_username;
  public_ip = "";
  dashboard_prefs = start_prefs;
  stored_prefs = stored;
  at_login = false;
}

-- `loadFeatures`
unfoldable pub load_features : M Page (Unit {0})
unfolding get_features
load_features =
    try_catch (do f ← get_features; update (λ p. record p { features = f })) (λ err. skip)

-- `x ?? 0` and `!!x`
abbrev pub or_zero : Option ℕ → ℕ
or_zero none = 0
or_zero (some n) = n

abbrev pub holds : Option Bool → Bool
holds none = false
holds (some b) = b

-- The settings that the status tells too replace those of the page.
abbrev pub receive_paused : Option Bool → FeatureFlags → FeatureFlags
receive_paused none f = f
receive_paused (some b) f = record f { sampler_paused = some b }

abbrev pub receive_interval : Option ℕ → FeatureFlags → FeatureFlags
receive_interval none f = f
receive_interval (some n) f = if n == 0 then f else record f { wg_sampler_interval_sec = some n }

unfoldable pub receive_status : SystemStatus → Page → Page
receive_status st p = record p {
  db_rows = or_zero st.samples_count;
  db_bytes = or_zero st.db_size_bytes;
  features =
      receive_interval st.wg_sample_interval_sec (receive_paused st.sampler_paused p.features);
  singbox_runs = holds st.singbox;
  wireguard_runs = holds st.wireguard;
}

-- `loadDbStats`
unfoldable pub load_db_stats : M Page (Unit {0})
unfolding get_system_status receive_status
load_db_stats = try_catch (do st ← get_system_status; update (receive_status st)) (λ err. skip)

abbrev pub array_or_empty : Json → List Json
array_or_empty (array vs) = items vs
array_or_empty _ = []

-- `loadSamplerHistory`
unfoldable pub load_sampler_history : ℕ → M Page (Unit {0})
unfolding get_sampler_history
load_sampler_history limit =
    try_catch
      (do
        answer ← get_sampler_history (some limit)
        h ← answered_json answer
        update (λ p. record p { sampler_history = array_or_empty h }))
      (λ err. update (λ p. record p { sampler_history = [] }))

-- `loadAll`: the first three run at once, so the order in which the features and the status arrive
-- is open; they are taken here in that order.
unfoldable pub load_all : Bool → Page → M Page (Unit {0})
unfolding load_features load_db_stats load_sampler_history get_public_ip
load_all features_first s = do
  update (λ p. record p { loading = true })
  (if features_first then load_features >> load_db_stats else load_db_stats >> load_features)
  load_sampler_history s.history_limit
  try_catch (do ip ← get_public_ip; update (λ p. record p { public_ip = ip })) (λ err. skip)
  update (λ p. record p { loading = false })
