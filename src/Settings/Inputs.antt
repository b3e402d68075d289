-- ===== src/Settings/Inputs.antt =====
-- frontend/src/components/Settings.tsx: the inputs of single fields, and the effect of one of them.
-- An input for a number hands on the number that its text stands for, where it is one.
use ogs_swg.Prelude.{ℕ, String, Bool, true, Option, none, some, not, ◌==◌, if◌then◌else◌}
use ogs_swg.Wire.{FeatureFlags}
use ogs_swg.Settings.{Page, Service, DashboardPrefs, PasswordData, UsernameData, load_all}
use ogs_swg.Settings.Prefs.{load_prefs}
use ogs_swg.Runtime.{M, ◌>>◌, update, skip}

abbrev pub with_prefs : (DashboardPrefs → DashboardPrefs) → Page → Page
with_prefs f p = record p { dashboard_prefs = f p.dashboard_prefs }

abbrev pub choose_service : Service → Page → Page
choose_service s p = with_prefs (λ d. record d { default_service = s }) p

abbrev pub choose_range : String → Page → Page
choose_range s p = with_prefs (λ d. record d { default_range = s }) p

abbrev pub with_features : (FeatureFlags → FeatureFlags) → Page → Page
with_features f p = record p { features = f p.features }

abbrev pub toggle_singbox : Bool → Page → Page
toggle_singbox b p = with_features (λ f. record f { enable_singbox = b }) p

abbrev pub toggle_wireguard : Bool → Page → Page
toggle_wireguard b p = with_features (λ f. record f { enable_wireguard = b }) p

abbrev pub toggle_retention : Bool → Page → Page
toggle_retention b p = with_features (λ f. record f { retention_enabled = some b }) p

abbrev pub toggle_aggregation : Bool → Page → Page
toggle_aggregation b p = with_features (λ f. record f { aggregation_enabled = some b }) p

abbrev pub enter_retention_days : ℕ → Page → Page
enter_retention_days n p = with_features (λ f. record f { retention_days = some n }) p

abbrev pub enter_wg_retention_days : ℕ → Page → Page
enter_wg_retention_days n p = with_features (λ f. record f { wg_retention_days = some n }) p

abbrev pub enter_interval : ℕ → Page → Page
enter_interval n p = with_features (λ f. record f { sampler_interval_sec = some n }) p

abbrev pub enter_wg_interval : ℕ → Page → Page
enter_wg_interval n p = with_features (λ f. record f { wg_sampler_interval_sec = some n }) p

abbrev pub enter_aggregation_days : ℕ → Page → Page
enter_aggregation_days n p = with_features (λ f. record f { aggregation_days = some n }) p

abbrev pub enter_threshold : ℕ → Page → Page
enter_threshold n p = with_features (λ f. record f { active_threshold_bytes = some n }) p

abbrev pub enter_public_ip : String → Page → Page
enter_public_ip s p = record p { public_ip = s }

abbrev pub choose_history_limit : ℕ → Page → Page
choose_history_limit n p = record p { history_limit = n }

abbrev pub with_password : (PasswordData → PasswordData) → Page → Page
with_password f p = record p { password_data = f p.password_data }

abbrev pub enter_current : String → Page → Page
enter_current s p = with_password (λ d. record d { current = s }) p

abbrev pub enter_new : String → Page → Page
enter_new s p = with_password (λ d. record d { new = s }) p

abbrev pub enter_confirm : String → Page → Page
enter_confirm s p = with_password (λ d. record d { confirm = s }) p

abbrev pub with_username : (UsernameData → UsernameData) → Page → Page
with_username f p = record p { username_data = f p.username_data }

abbrev pub enter_password : String → Page → Page
enter_password s p = with_username (λ d. record d { password = s }) p

abbrev pub enter_username : String → Page → Page
enter_username s p = with_username (λ d. record d { new_username = s }) p

-- The effect of loading, after a rendering: it runs where its one dependency, the length of the
-- history, is not the one that it last ran with, and before its first run there is none. Its calls
-- begin with the stored preferences read already.
abbrev pub is_changed : Option ℕ → ℕ → Bool
is_changed none limit = true
is_changed (some last) limit = not (last == limit)

unfoldable pub history_effect : Option ℕ → Bool → Page → M Page (Unit {0})
unfolding load_all load_prefs
history_effect last features_first s =
    if is_changed last s.history_limit then update load_prefs >> load_all features_first s else skip
