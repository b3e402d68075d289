-- ===== src/Users.antt =====
-- frontend/src/components/UserManagement.tsx: the state of the page and the helpers that its
-- handlers share. A handler takes the state that it was made with, which is what the closure of a
-- React component holds, and then acts on the current one. `fetchUsers` and the other calls that
-- the source does not await run to their end where they are made.
pub mod Fetch
pub mod Selection
pub mod Removal
pub mod Rows
pub mod Save
pub mod Edit
pub mod Bulk
pub mod Links
pub mod Status
pub mod Sort
pub mod Quota
pub mod Uuid
pub mod Usage
pub mod Inputs
mod Tests
use ogs_swg.Prelude.{
  ℕ, ◌+◌, ◌*◌, ◌/◌, ◌%◌, ltb, ◌≡◌, refl, String, List, [], ◌∷◌, ◌++◌, map, Option, none, some, Bool,
  false, true, concat, str_eq, truthy, or_default, to_lower, if◌then◌else◌, find, has, set_of,
  add_all, filter,
}
use ogs_swg.Prelude.Int.{ℤ, pos}
use ogs_swg.Wire.{UserStatus, CreateUserRequest, Inbound}
use ogs_swg.Runtime.{
  M, ◌>>=◌, ◌>>◌, skip, update, notify, error, Notice, Exception, show_exception, try_catch,
}
use ogs_swg.Encoding.Decimal.{decimal}
use ogs_swg.Api.Users
use ogs_swg.Api.Singbox

-- The type of a user is that of its inbounds, so another text than the three supported ones can
-- come in by a cast.
pub data UserType : Type 0 where
  vless vmess trojan : UserType
  other_type : String → UserType

abbrev pub type_name : UserType → String
type_name vless = "vless"
type_name vmess = "vmess"
type_name trojan = "trojan"
type_name (other_type s) = s

abbrev pub user_type_of : String → UserType
user_type_of s =
    if str_eq s "vless"
    then vless
    else if str_eq s "vmess"
    then vmess
    else if str_eq s "trojan"
    then trojan
    else other_type s

abbrev pub is_vless : UserType → Bool
is_vless vless = true
is_vless _ = false

abbrev pub is_vmess : UserType → Bool
is_vmess vmess = true
is_vmess _ = false

abbrev pub supported_user_types : List UserType
supported_user_types = vless ∷ vmess ∷ trojan ∷ []

-- `modalState`: the open dialog, with its data where it has some.
pub data Modal : Type 0 where
  closed create bulk usage delete_confirm : Modal
  qr select_inbounds : UserStatus → Modal

abbrev pub modal_data : Modal → Option UserStatus
modal_data (qr u) = some u
modal_data (select_inbounds u) = some u
modal_data _ = none

pub record Row : Type 0 where
  pub tag : String
  pub flow : String

pub data SortKey : Type 0 where
  by_user by_quota by_usage by_status by_last_seen : SortKey

pub data SortDir : Type 0 where
  asc desc : SortDir

pub data BulkMode : Type 0 where
  sequential random : BulkMode

-- The count and the first index are what `parseInt` made of a field's text: `none` is `NaN`, as for an
-- empty text. A number stands for itself, so both are to stay below 2 ^ 53.
pub record BulkConfig : Type 0 where
  pub prefix : String
  pub count : Option ℤ
  pub start_index : Option ℤ
  pub mode : BulkMode
  pub suffix : String
  pub flow : String
  pub quota_limit : ℕ
  pub quota_period : String
  pub reset_day : ℕ
  pub inbound_tag : String

-- The state that the modelled handlers read and write.
pub record Page : Type 0 where
  pub users : List UserStatus
  pub selected_users : List String
  pub inbounds : List Inbound
  pub user_type : UserType
  pub singbox_pending_changes : Bool
  pub modal : Modal
  pub selected_inbounds_to_remove : List String
  pub is_editing : Bool
  pub sort_key : SortKey
  pub sort_dir : SortDir
  pub original_name : String
  pub filter_inbound : String
  pub new_user : CreateUserRequest
  pub quota_input : String
  pub copied : Bool
  pub inbound_rows : List Row
  pub original_inbound_tags : List String
  pub bulk_config : BulkConfig
  pub selected_qr_inbound : String
  pub qr_link : String
  pub qr_loading : Bool
  pub qr_error : String
  pub qr_link_cache : List (String × Option String)

-- `useState`'s first values.
abbrev pub empty_user : CreateUserRequest
empty_user = record {
  name = "";
  original_name = none;
  uuid = "";
  flow = "xtls-rprx-vision";
  vmess_security = some "auto";
  vmess_alter_id = some 0;
  quota_limit = 0;
  quota_period = "monthly";
  reset_day = 1;
  enabled = none;
  inbound_tag = some "";
}

abbrev pub start_bulk : BulkConfig
start_bulk = record {
  prefix = "user";
  count = some (pos 1);
  start_index = some (pos 1);
  mode = sequential;
  suffix = "";
  flow = "xtls-rprx-vision";
  quota_limit = 0;
  quota_period = "monthly";
  reset_day = 1;
  inbound_tag = "";
}

abbrev pub start : Page
start = record {
  users = [];
  selected_users = [];
  inbounds = [];
  user_type = vless;
  singbox_pending_changes = false;
  modal = closed;
  selected_inbounds_to_remove = [];
  is_editing = false;
  sort_key = by_user;
  sort_dir = asc;
  original_name = "";
  filter_inbound = "";
  new_user = empty_user;
  quota_input = "";
  copied = false;
  inbound_rows = [];
  original_inbound_tags = [];
  bulk_config = start_bulk;
  selected_qr_inbound = "";
  qr_link = "";
  qr_loading = false;
  qr_error = "";
  qr_link_cache = [];
}

-- `String(inb.type || '').toLowerCase()`
abbrev pub inbound_type : Inbound → String
inbound_type inb = to_lower (or_default inb.type "")

-- A lookup in the `Map` made from the inbounds: the last inbound of a tag counts.
unfoldable pub get_inbound_type : List Inbound → String → Option String
get_inbound_type [] tag = none
get_inbound_type (inb ∷ rest) tag =
    let later = get_inbound_type rest tag in
    elim later [
      | some t ↦ some t
      | none ↦ if str_eq inb.tag tag then some (inbound_type inb) else none
    ]

unfoldable pub get_first_inbound_tag_for_type : List Inbound → UserType → String
get_first_inbound_tag_for_type inbounds type =
    elim (find (λ inb. str_eq (inbound_type inb) (type_name type)) inbounds) [
      | none ↦ ""
      | some inb ↦ inb.tag
    ]

abbrev first_supported : List Inbound → List UserType → UserType
first_supported inbounds [] = vless
first_supported inbounds (t ∷ ts) =
    if truthy (get_first_inbound_tag_for_type inbounds t) then t else first_supported inbounds ts

unfoldable pub get_default_user_type : List Inbound → UserType
unfolding get_first_inbound_tag_for_type
get_default_user_type inbounds = first_supported inbounds supported_user_types

-- `fetchUsers`: the list, and the selection without the users that are gone.
abbrev pub receive_users : List UserStatus → Page → Page
receive_users found p = record p {
  users = found;
  selected_users = add_all [] (
      filter (λ name. has (set_of (map (λ (u : UserStatus). u.name) found)) name) p.selected_users);
}

unfoldable pub fetch_users : M Page (Unit {0})
unfolding Users.get_users
fetch_users =
    try_catch (do found ← Users.get_users; update (receive_users found))
      (λ err. notify (error (concat ("Failed to fetch users: " ∷ show_exception err ∷ []))))

unfoldable pub fetch_inbounds : M Page (Unit {0})
unfolding Singbox.get_singbox_inbounds
fetch_inbounds =
    try_catch (do found ← Singbox.get_singbox_inbounds; update (λ p. record p { inbounds = found }))
      (λ err. notify (error (concat ("Failed to fetch inbounds: " ∷ show_exception err ∷ []))))
