-- ===== src/Users/Save.antt =====
-- frontend/src/components/UserManagement.tsx, `handleSaveUser`: the form of a new or an edited user
-- is sent to the server. What `uuidv4()` returns is an argument.
pub mod Guard
pub mod Plan
pub mod Laws
use ogs_swg.Prelude.{
  ℕ, String, List, [], ◌∷◌, map, Option, none, some, Bool, true, false, not, ◌&&◌, ◌||◌, ◌==◌, ltb,
  length, any, str_eq, truthy, or_text, or_default, trim, if◌then◌else◌, concat, has, set_of,
}
use ogs_swg.Wire.{UserStatus, CreateUserRequest, Credentials, Inbound}
use ogs_swg.Runtime.{
  M, ◌>>=◌, ◌>>◌, skip, update, notify, error, success, show_exception, try_catch, for_each,
}
use ogs_swg.Api.Users.{create_user, update_user, remove_user_from_inbound, update_user_inbound}
use ogs_swg.Users.{
  Page, Row, UserType, is_vless, is_vmess, closed, modal_data, empty_user, fetch_users,
  get_first_inbound_tag_for_type, get_default_user_type,
}
use ogs_swg.Users.Removal.{tags_of}
use ogs_swg.Users.Rows.{has_repeat}

abbrev pub normalize : UserType → List Row → List Row
normalize t rows =
    map (λ (r : Row). record { tag = trim r.tag; flow = if is_vless t then r.flow else "" }) rows

abbrev pub tags : List Row → List String
tags rows = map (λ (r : Row). r.tag) rows

-- The rows can be sent.
unfoldable pub rows_ok : List Row → Bool
rows_ok rows =
    not (length rows == 0 || any (λ r. not (truthy r.tag)) rows || has_repeat (tags rows))

abbrev pub vmess_security : Page → String
vmess_security s = if is_vmess s.user_type then or_default s.new_user.vmess_security "" else ""

-- `newUser.vmess_alter_id || 0`
abbrev pub vmess_alter_id : Page → ℕ
vmess_alter_id s =
    if is_vmess s.user_type then elim s.new_user.vmess_alter_id [ none ↦ 0 | some n ↦ n ] else 0

abbrev pub name_changed : Page → Bool
name_changed s = truthy s.original_name && not (str_eq s.original_name s.new_user.name)

-- `newUser.enabled !== false`
abbrev pub not_disabled : Page → Bool
not_disabled s = elim s.new_user.enabled [ none ↦ true | some b ↦ b ]

abbrev first_tag : List Row → Option String
first_tag [] = none
first_tag (r ∷ _) = some r.tag

abbrev first_flow : List Row → String
first_flow [] = ""
first_flow (r ∷ _) = r.flow

-- What `updateUser` gets.
unfoldable pub update_payload : String → Page → List Row → CreateUserRequest
update_payload fresh s rows = record s.new_user {
  original_name = some (or_text s.original_name s.new_user.name);
  uuid = or_text s.new_user.uuid fresh;
  inbound_tag = first_tag rows;
  flow = if is_vless s.user_type && name_changed s && length rows == 1 then first_flow rows else "";
  vmess_security = some (vmess_security s);
  vmess_alter_id = some (vmess_alter_id s);
}

abbrev pub row_flow : Page → Row → String
row_flow s r = if is_vless s.user_type then r.flow else ""

-- What `updateUserInbound` gets for a row.
abbrev pub row_credentials : String → Page → Row → Credentials
row_credentials uuid s r = record {
  uuid = uuid;
  flow = some (row_flow s r);
  vmess_security = some (vmess_security s);
  vmess_alter_id = some (vmess_alter_id s);
}

-- What `createUser` gets for a row.
abbrev pub row_user : String → Page → Row → CreateUserRequest
row_user uuid s r = record s.new_user {
  uuid = uuid;
  inbound_tag = some r.tag;
  flow = row_flow s r;
  vmess_security = some (vmess_security s);
  vmess_alter_id = some (vmess_alter_id s);
}

-- `originalTags`
abbrev pub original_tags : Page → List String
original_tags s =
    if length s.original_inbound_tags == 0
    then elim (modal_data s.modal) [ none ↦ [] | some u ↦ tags_of u ]
    else s.original_inbound_tags

-- One round of the first loop, and one of the second.
unfoldable pub drop_tag : Page → List String → String → M Page (Unit {0})
unfolding remove_user_from_inbound
drop_tag s desired tag =
    if has desired tag then skip else remove_user_from_inbound s.new_user.name tag

unfoldable pub put_row : String → Page → List String → Row → M Page (Unit {0})
unfolding update_user_inbound create_user
put_row uuid s originals row =
    if has originals row.tag
    then update_user_inbound s.new_user.name row.tag (row_credentials uuid s row)
    else create_user (row_user uuid s row)

-- The two loops over the inbounds.
unfoldable pub sync_inbounds : String → Page → List Row → M Page (Unit {0})
sync_inbounds uuid s rows = do
  for_each (original_tags s) (drop_tag s (tags rows))
  for_each rows (put_row uuid s (original_tags s))

-- The branch of an edited user behind its guard.
unfoldable pub save_edited : String → Page → List Row → M Page (Unit {0})
save_edited fresh s rows = do
  update_user (update_payload fresh s rows)
  (if not_disabled s && not (name_changed s)
      then sync_inbounds (or_text s.new_user.uuid fresh) s rows
      else skip)
  notify (success "User updated successfully")

-- The branch of a new user.
unfoldable pub save_new : String → Page → List Row → M Page (Unit {0})
save_new fresh s rows = do
  for_each rows (λ row. create_user (row_user (or_text s.new_user.uuid fresh) s row))
  notify (success "User created successfully")

-- The form is closed and emptied.
abbrev pub reset_form : Page → Page → Page
reset_form s p = record p {
  modal = closed;
  new_user = record empty_user {
    inbound_tag =
        some (get_first_inbound_tag_for_type s.inbounds (get_default_user_type s.inbounds));
  };
  quota_input = "";
  original_name = "";
  is_editing = false;
  inbound_rows = [];
  original_inbound_tags = [];
}

unfoldable pub finish_save : Page → M Page (Unit {0})
finish_save s = do update (reset_form s); fetch_users

unfoldable pub handle_save_user : String → Page → M Page (Unit {0})
handle_save_user fresh s =
    let rows : List Row = normalize s.user_type s.inbound_rows in
    if not (rows_ok rows)
    then notify (error "Please fix inbound entries before saving")
    else if s.is_editing && name_changed s && ltb 1 (length rows)
    then notify (error "Renaming users with multiple inbounds is not supported yet")
    else try_catch
        (do
          (if s.is_editing then save_edited fresh s rows else save_new fresh s rows)
          finish_save s)
        (λ err. notify (error (concat ("Failed to save user: " ∷ show_exception err ∷ []))))
