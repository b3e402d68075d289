-- ===== src/Api/Users.antt =====
-- frontend/src/api.ts: the calls about users, their inbounds and the administrator's account.
use ogs_swg.Prelude.{String, List, [], ◌∷◌, Option, none, some, concat, if◌then◌else◌}
use ogs_swg.Wire.{
  UserStatus, CreateUserRequest, Credentials, UserInbound, get, post, put, delete, no_body, user,
  users, credentials, fields, Payload, user_list, user_inbounds, link,
}
use ogs_swg.Runtime.{M, ◌>>=◌, ◌>>◌, skip, throw_error}
use ogs_swg.Encoding.{encode_uri_component}
use ogs_swg.Api.{send, call, is_ok, parse, json_type}

abbrev as_users : Payload → Option (List UserStatus)
as_users (user_list l) = some l
as_users _ = none

abbrev as_user_inbounds : Payload → Option (List UserInbound)
as_user_inbounds (user_inbounds l) = some l
as_user_inbounds _ = none

abbrev as_link : Payload → Option (Option String)
as_link (link l) = some l
as_link _ = none

-- The address of one inbound of one user.
abbrev pub user_inbound_url : String → String → String
user_inbound_url name tag =
    concat
      ("/api/users/" ∷ encode_uri_component name ∷ "/inbounds/" ∷ encode_uri_component tag ∷ [])

module _ {S : Type 0} where
  -- This call does not go through `handleResponse`.
  unfoldable pub get_users : M S (List UserStatus)
  unfolding send
  get_users = do
    res ← send get "/api/users" none no_body
    if is_ok res then parse (as_users res.json) else throw_error "Failed to fetch users"

  unfoldable pub update_password : String → String → M S (Unit {0})
  unfolding call
  update_password current new =
      call put "/api/auth/password" json_type
        (fields (("current_password", some current) ∷ ("new_password", some new) ∷ []))
        "Failed to update password"
      >> skip

  unfoldable pub update_username : String → String → M S (Unit {0})
  unfolding call
  update_username current new =
      call put "/api/auth/username" json_type
        (fields (("current_password", some current) ∷ ("new_username", some new) ∷ []))
        "Failed to update username"
      >> skip

  unfoldable pub create_user : CreateUserRequest → M S (Unit {0})
  unfolding call
  create_user u = call post "/api/users" json_type (user u) "Failed to create user" >> skip

  unfoldable pub update_user : CreateUserRequest → M S (Unit {0})
  unfolding call
  update_user u = call put "/api/users" json_type (user u) "Failed to update user" >> skip

  unfoldable pub delete_user : String → M S (Unit {0})
  unfolding call
  delete_user name =
      call delete (concat ("/api/users?name=" ∷ encode_uri_component name ∷ [])) none no_body
        "Failed to delete user"
      >> skip

  unfoldable pub get_user_inbounds : String → M S (List UserInbound)
  unfolding call
  get_user_inbounds name = do
    res ←
        call get (concat ("/api/users/" ∷ encode_uri_component name ∷ "/inbounds" ∷ [])) none
          no_body "Failed to fetch user inbounds"
    parse (as_user_inbounds res.json)

  unfoldable pub remove_user_from_inbound : String → String → M S (Unit {0})
  unfolding call
  remove_user_from_inbound name tag =
      call delete (user_inbound_url name tag) none no_body "Failed to remove user from inbound"
      >> skip

  unfoldable pub update_user_inbound : String → String → Credentials → M S (Unit {0})
  unfolding call
  update_user_inbound name tag payload =
      call put (user_inbound_url name tag) json_type (credentials payload)
        "Failed to update user inbound"
      >> skip

  unfoldable pub get_user_link : String → String → M S (Option String)
  unfolding call
  get_user_link name tag = do
    res ←
        call get
          (concat (
            "/api/users/"
            ∷ encode_uri_component name
            ∷ "/link?inbound="
            ∷ encode_uri_component tag
            ∷ []))
          none no_body "Failed to fetch link"
    parse (as_link res.json)

  unfoldable pub get_user_vless_link : String → String → M S (Option String)
  unfolding call
  get_user_vless_link name tag = do
    res ←
        call get
          (concat (
            "/api/users/"
            ∷ encode_uri_component name
            ∷ "/vless?inbound="
            ∷ encode_uri_component tag
            ∷ []))
          none no_body "Failed to fetch VLESS link"
    parse (as_link res.json)

  unfoldable pub bulk_create_users : List CreateUserRequest → M S (Unit {0})
  unfolding call
  bulk_create_users us =
      call post "/api/users/bulk" json_type (users us) "Failed to bulk create users" >> skip
