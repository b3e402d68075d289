-- ===== src/Api/Singbox.antt =====
-- frontend/src/api.ts: the calls about the configuration of sing-box, its backups and tools.
use ogs_swg.Prelude.{String, List, [], ◌∷◌, Option, none, some, concat}
use ogs_swg.Wire.{
  Inbound, get, post, put, delete, no_body, value, text, fields, Payload, inbound_list,
}
use ogs_swg.Runtime.{M, ◌>>=◌, ◌>>◌, skip, return}
use ogs_swg.Encoding.{encode_uri_component}
use ogs_swg.Api.{call, parse, any_json, json_type, text_type}

abbrev as_inbounds : Payload → Option (List Inbound)
as_inbounds (inbound_list l) = some l
as_inbounds _ = none

abbrev pub inbound_url : String → String
inbound_url tag = concat ("/api/singbox/inbound?tag=" ∷ encode_uri_component tag ∷ [])

module _ {S : Type 0} where
  unfoldable pub get_singbox_config : M S String
  unfolding call
  get_singbox_config = do
    res ← call get "/api/singbox/config" none no_body "Failed to fetch Sing-box config"
    return res.text

  unfoldable pub update_singbox_config : String → M S (Unit {0})
  unfolding call
  update_singbox_config c =
      call put "/api/singbox/config" text_type (text c) "Failed to update Sing-box config" >> skip

  unfoldable pub get_singbox_inbounds : M S (List Inbound)
  unfolding call
  get_singbox_inbounds = do
    res ← call get "/api/singbox/inbounds" none no_body "Failed to fetch Sing-box inbounds"
    parse (as_inbounds res.json)

  unfoldable pub add_singbox_inbound : String → M S (Unit {0})
  unfolding call
  add_singbox_inbound inbound =
      call post "/api/singbox/inbound" json_type (value inbound) "Failed to add Sing-box inbound"
      >> skip

  unfoldable pub update_singbox_inbound : String → String → M S (Unit {0})
  unfolding call
  update_singbox_inbound tag inbound =
      call put (inbound_url tag) json_type (value inbound) "Failed to update Sing-box inbound"
      >> skip

  unfoldable pub delete_singbox_inbound : String → M S (Unit {0})
  unfolding call
  delete_singbox_inbound tag =
      call delete (inbound_url tag) none no_body "Failed to delete Sing-box inbound" >> skip

  unfoldable pub update_config : String → M S (Unit {0})
  unfolding call
  update_config c = call put "/api/config" text_type (text c) "Failed to update config" >> skip

  unfoldable pub get_backup_meta : M S Payload
  unfolding call
  get_backup_meta = do
    res ← call get "/api/config/backup/meta" none no_body "Failed to load backup metadata"
    parse (any_json res.json)

  unfoldable pub backup_config : M S (Unit {0})
  unfolding call
  backup_config = call post "/api/config/backup" none no_body "Failed to backup config" >> skip

  unfoldable pub restore_config : M S Payload
  unfolding call
  restore_config = do
    res ← call post "/api/config/restore" none no_body "Failed to restore config"
    parse (any_json res.json)

  unfoldable pub generate_reality_keys : M S Payload
  unfolding call
  generate_reality_keys = do
    res ← call get "/api/tools/reality-keys" none no_body "Failed to generate Reality keys"
    parse (any_json res.json)

  unfoldable pub generate_self_signed_cert : Option String → Option String → M S Payload
  unfolding call
  generate_self_signed_cert tag common_name = do
    res ←
        call post "/api/tools/self-signed-cert" json_type
          (fields (("tag", tag) ∷ ("common_name", common_name) ∷ []))
          "Failed to generate self-signed certificate"
    parse (any_json res.json)

  unfoldable pub apply_singbox_changes : M S Payload
  unfolding call
  apply_singbox_changes = do
    res ← call post "/api/singbox/apply" json_type no_body "Failed to apply Sing-box changes"
    parse (any_json res.json)
