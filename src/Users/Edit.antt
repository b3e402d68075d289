-- ===== src/Users/Edit.antt =====
-- frontend/src/components/UserManagement.tsx: opening the form for a new user and for an old one.
pub mod Laws
use ogs_swg.Prelude.{
  ℕ, String, List, [], ◌∷◌, map, Option, none, some, Bool, true, false, ◌==◌, find, str_eq, truthy,
  or_default, if◌then◌else◌,
}
use ogs_swg.Wire.{UserStatus, UserInbound, CreateUserRequest, Inbound}
use ogs_swg.Runtime.{M, ◌>>=◌, ◌>>◌, skip, update, try_catch}
use ogs_swg.Api.Users.{get_user_inbounds}
use ogs_swg.Users.{
  Page, Row, UserType, vless, vmess, is_vless, is_vmess, create, user_type_of, get_inbound_type,
  get_first_inbound_tag_for_type, get_default_user_type, empty_user,
}
use ogs_swg.Users.Quota.{bytes_to_gb_string}
use ogs_swg.Users.Removal.{tags_of}
use ogs_swg.Users.Rows.{first_row}

-- The button `Create User`.
unfoldable pub click_create : Page → Page → Page
click_create s p =
    let next : UserType = get_default_user_type s.inbounds in
    record p {
      is_editing = false;
      user_type = next;
      inbound_rows = first_row s.inbounds next;
      original_inbound_tags = [];
      new_user = record empty_user {
        enabled = some true;
        inbound_tag =
            some (get_first_inbound_tag_for_type s.inbounds (get_default_user_type s.inbounds));
      };
      quota_input = "";
      modal = create;
    }

-- The first of the tags' types that is known and not empty.
unfoldable pub first_type : List Inbound → List String → Option String
first_type inbounds [] = none
first_type inbounds (tag ∷ rest) =
    let later = first_type inbounds rest in
    elim (get_inbound_type inbounds tag) [
      | none ↦ later
      | some t ↦ if truthy t then some t else later
    ]

-- `nextType`
unfoldable pub detected_type : List Inbound → List String → UserType
detected_type inbounds tags = elim (first_type inbounds tags) [
  | none ↦ get_default_user_type inbounds
  | some t ↦ user_type_of t
]

abbrev pub first_of_tags : List String → String
first_of_tags [] = ""
first_of_tags (t ∷ _) = t

-- The rows of the form: one for each inbound of the user, or the first inbound of the type.
abbrev pub rows_for : List Inbound → UserType → List String → List Row
rows_for inbounds t [] = first_row inbounds t
rows_for inbounds t tags = map (λ tag. record { tag = tag; flow = "" }) tags

abbrev pub edited_user : UserStatus → CreateUserRequest
edited_user u = record {
  name = u.name;
  original_name = none;
  uuid = or_default u.uuid "";
  flow = or_default u.flow "";
  vmess_security = some (or_default u.vmess_security "auto");
  vmess_alter_id = some (elim u.vmess_alter_id [ none ↦ 0 | some n ↦ n ]);
  quota_limit = u.quota_limit;
  quota_period = u.quota_period;
  reset_day = u.reset_day;
  enabled = u.enabled;
  inbound_tag = some (first_of_tags (tags_of u));
}

-- What `handleEditClick` sets before its call.
unfoldable pub open_editor : List Inbound → UserStatus → Page → Page
open_editor inbounds u p =
    let next : UserType = detected_type inbounds (tags_of u) in
    record p {
      user_type = next;
      new_user = edited_user u;
      original_inbound_tags = tags_of u;
      inbound_rows = rows_for inbounds next (tags_of u);
      quota_input = bytes_to_gb_string u.quota_limit;
      original_name = u.name;
      is_editing = true;
      modal = create;
    }

-- The flow of a row, from the inbounds that the server lists for the user.
abbrev pub fill_flow : List UserInbound → Row → Row
fill_flow list row = elim (find (λ (i : UserInbound). str_eq i.tag row.tag) list) [
  | none ↦ row
  | some i ↦ record row { flow = or_default i.credentials.flow "" }
]

-- The settings of VMess, from the first of them.
abbrev pub fill_vmess : UserInbound → CreateUserRequest → CreateUserRequest
fill_vmess first u = record u {
  vmess_security =
      some (or_default first.credentials.vmess_security (or_default u.vmess_security "auto"));
  vmess_alter_id = some (elim first.credentials.vmess_alter_id [
    | none ↦ elim u.vmess_alter_id [ none ↦ 0 | some n ↦ n ]
    | some k ↦ if k == 0 then elim u.vmess_alter_id [ none ↦ 0 | some n ↦ n ] else k
  ]);
}

unfoldable pub receive_inbounds : UserType → List UserInbound → Page → Page
receive_inbounds next [] p = p
receive_inbounds next (first ∷ rest) p = record p {
  inbound_rows =
      if is_vless next then map (fill_flow (first ∷ rest)) p.inbound_rows else p.inbound_rows;
  new_user = if is_vmess next then fill_vmess first p.new_user else p.new_user;
}

unfoldable pub handle_edit_click : Page → UserStatus → M Page (Unit {0})
handle_edit_click s u = do
  update (open_editor s.inbounds u)
  try_catch
      (do
        list ← get_user_inbounds u.name
        update (receive_inbounds (detected_type s.inbounds (tags_of u)) list))
      (λ err. skip)
