-- ===== src/Users/Inputs.antt =====
-- frontend/src/components/UserManagement.tsx: the inputs of the forms for one user and for several,
-- the filter and the buttons that open a dialog.
-- An input for a number hands on the number that its text stands for, and one for a quota the bytes:
-- `none` is a text that stands for none, and the texts of the quotas' inputs are kept beside them. A
-- reset day is taken where it is a number.
use ogs_swg.Prelude.{ℕ, String, Bool, Option, none, some}
use ogs_swg.Prelude.Int.{ℤ}
use ogs_swg.Wire.{UserStatus, CreateUserRequest}
use ogs_swg.Users.{Page, BulkConfig, BulkMode, bulk, usage, qr, closed}
use ogs_swg.Users.Uuid.{replace_xy, uuid_template}

-- The form of one user.
abbrev pub with_user : (CreateUserRequest → CreateUserRequest) → Page → Page
with_user f p = record p { new_user = f p.new_user }

abbrev pub enter_name : String → Page → Page
enter_name s p = with_user (λ u. record u { name = s }) p

abbrev pub enter_uuid : String → Page → Page
enter_uuid s p = with_user (λ u. record u { uuid = s }) p

abbrev pub choose_security : String → Page → Page
choose_security s p = with_user (λ u. record u { vmess_security = some s }) p

-- `Number(text) || 0`
abbrev pub number_or_zero : Option ℕ → ℕ
number_or_zero none = 0
number_or_zero (some n) = n

abbrev pub enter_alter_id : Option ℕ → Page → Page
enter_alter_id n p = with_user (λ u. record u { vmess_alter_id = some (number_or_zero n) }) p

abbrev pub toggle_enabled : Bool → Page → Page
toggle_enabled b p = with_user (λ u. record u { enabled = some b }) p

abbrev pub choose_period : String → Page → Page
choose_period s p = with_user (λ u. record u { quota_period = s }) p

abbrev pub enter_quota : String → ℕ → Page → Page
enter_quota s bytes p =
    with_user (λ u. record u { quota_limit = bytes }) (record p { quota_input = s })

abbrev pub enter_reset_day : ℕ → Page → Page
enter_reset_day n p = with_user (λ u. record u { reset_day = n }) p

-- The button for a random identifier, in a browser without `crypto.randomUUID`.
abbrev pub generate_uuid : (ℕ → ℕ) → Page → Page
generate_uuid draws p = enter_uuid (replace_xy draws 0 uuid_template) p

-- The form of several users.
abbrev pub with_bulk : (BulkConfig → BulkConfig) → Page → Page
with_bulk f p = record p { bulk_config = f p.bulk_config }

abbrev pub choose_bulk_inbound : String → Page → Page
choose_bulk_inbound s p = with_bulk (λ c. record c { inbound_tag = s }) p

abbrev pub enter_prefix : String → Page → Page
enter_prefix s p = with_bulk (λ c. record c { prefix = s }) p

abbrev pub enter_suffix : String → Page → Page
enter_suffix s p = with_bulk (λ c. record c { suffix = s }) p

abbrev pub enter_count : Option ℤ → Page → Page
enter_count n p = with_bulk (λ c. record c { count = n }) p

abbrev pub enter_start_index : Option ℤ → Page → Page
enter_start_index n p = with_bulk (λ c. record c { start_index = n }) p

abbrev pub choose_mode : BulkMode → Page → Page
choose_mode m p = with_bulk (λ c. record c { mode = m }) p

abbrev pub choose_bulk_flow : String → Page → Page
choose_bulk_flow s p = with_bulk (λ c. record c { flow = s }) p

abbrev pub enter_bulk_quota : ℕ → Page → Page
enter_bulk_quota bytes p = with_bulk (λ c. record c { quota_limit = bytes }) p

abbrev pub enter_bulk_reset_day : ℕ → Page → Page
enter_bulk_reset_day n p = with_bulk (λ c. record c { reset_day = n }) p

-- The page around the forms.
abbrev pub choose_filter : String → Page → Page
choose_filter s p = record p { filter_inbound = s }

abbrev pub click_bulk : Page → Page
click_bulk p = record p { modal = bulk }

abbrev pub click_usage : Page → Page
click_usage p = record p { modal = usage }

abbrev pub click_qr : UserStatus → Page → Page
click_qr u p = record p { modal = qr u }

abbrev pub choose_qr_inbound : String → Page → Page
choose_qr_inbound tag p = record p { selected_qr_inbound = tag }

abbrev pub close_dialog : Page → Page
close_dialog p = record p { modal = closed }
