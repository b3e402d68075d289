-- ===== src/Api/Wireguard.antt =====
-- frontend/src/api.ts: the calls about WireGuard.
use ogs_swg.Prelude.{ℕ, String, List, [], ◌∷◌, ◌++◌, Option, none, some, concat}
use ogs_swg.Wire.{
  WireGuardPeer, WireGuardInterface, get, post, put, delete, no_body, fields, peer, interface, text,
  Payload, peer_list, one_peer, an_interface, config, not_json,
}
use ogs_swg.Runtime.{M, ◌>>=◌, ◌>>◌, skip, return}
use ogs_swg.Encoding.{query, encode_uri_component}
use ogs_swg.Encoding.Decimal.{decimal}
use ogs_swg.Api.{call, parse, any_json, text_param, number_param, json_type, text_type}

-- A body of type `any[]`, which is not checked: `none` where it is no array.
abbrev as_peers : Payload → Option (Option (List WireGuardPeer))
as_peers (peer_list l) = some (some l)
as_peers not_json = none
as_peers _ = some none

abbrev as_peer : Payload → Option WireGuardPeer
as_peer (one_peer p) = some p
as_peer _ = none

abbrev as_interface : Payload → Option (Option WireGuardInterface)
as_interface (an_interface i) = some i
as_interface _ = none

abbrev as_config : Payload → Option String
as_config (config c) = some c
as_config _ = none

module _ {S : Type 0} where
  unfoldable pub get_wireguard_peers : M S (Option (List WireGuardPeer))
  unfolding call
  get_wireguard_peers = do
    res ← call get "/api/wireguard/peers" none no_body "Failed to fetch peers"
    parse (as_peers res.json)

  unfoldable pub create_wireguard_peer : String → String → Option String → M S WireGuardPeer
  unfolding call
  create_wireguard_peer alias ip endpoint = do
    res ←
        call post "/api/wireguard/peers" json_type
          (fields (("alias", some alias) ∷ ("ip", some ip) ∷ ("endpoint", endpoint) ∷ []))
          "Failed to create peer"
    parse (as_peer res.json)

  unfoldable pub delete_wireguard_peer : String → M S (Unit {0})
  unfolding call
  delete_wireguard_peer public_key =
      call delete
        (concat ("/api/wireguard/peers?public_key=" ∷ encode_uri_component public_key ∷ [])) none
        no_body "Failed to delete peer"
      >> skip

  unfoldable pub restore_wireguard_peer : List (String × Option String) → M S (Unit {0})
  unfolding call
  restore_wireguard_peer p =
      call post "/api/wireguard/peers/restore" json_type (fields p) "Failed to restore peer" >> skip

  unfoldable pub get_wireguard_interface : M S (Option WireGuardInterface)
  unfolding call
  get_wireguard_interface = do
    res ← call get "/api/wireguard/interface" none no_body "Failed to fetch interface config"
    parse (as_interface res.json)

  unfoldable pub update_wireguard_interface : WireGuardInterface → M S (Unit {0})
  unfolding call
  update_wireguard_interface i =
      call put "/api/wireguard/interface" json_type (interface i) "Failed to update interface"
      >> skip

  unfoldable pub update_wireguard_peer : String → WireGuardPeer → M S (Unit {0})
  unfolding call
  update_wireguard_peer public_key p =
      call put (concat ("/api/wireguard/peer?public_key=" ∷ encode_uri_component public_key ∷ []))
        json_type (peer p) "Failed to update peer"
      >> skip

  unfoldable pub get_wireguard_peer_config : String → Option String → M S String
  unfolding call
  get_wireguard_peer_config public_key private_key = do
    res ←
        call get
          (concat (
            "/api/wireguard/peer/config?"
            ∷ query (("public_key", public_key) ∷ text_param "private_key" private_key)
            ∷ []))
          none no_body "Failed to fetch peer config"
    parse (as_config res.json)

  unfoldable pub get_wireguard_traffic : String → M S Payload
  unfolding call
  get_wireguard_traffic range = do
    res ←
        call get (concat ("/api/wireguard/traffic?" ∷ query (("range", range) ∷ []) ∷ [])) none
          no_body "Failed to fetch WireGuard traffic"
    parse (any_json res.json)

  unfoldable pub get_wireguard_traffic_range : ℕ → ℕ → M S Payload
  unfolding call
  get_wireguard_traffic_range start end = do
    res ←
        call get
          (concat (
            "/api/wireguard/traffic?"
            ∷ query (("start", decimal start) ∷ ("end", decimal end) ∷ [])
            ∷ []))
          none no_body "Failed to fetch WireGuard traffic"
    parse (any_json res.json)

  unfoldable pub get_wireguard_traffic_series :
      Option String → Option String → Option ℕ → Option ℕ → Option ℕ → M S Payload
  unfolding call
  get_wireguard_traffic_series range peer_key limit start end = do
    res ←
        call get
          (concat (
            "/api/wireguard/traffic/series?"
            ∷ query (
                text_param "range" range
                ++ (text_param "peer" peer_key
                    ++ (number_param "limit" limit
                        ++ (number_param "start" start ++ number_param "end" end))))
            ∷ []))
          none no_body "Failed to fetch WireGuard traffic series"
    parse (any_json res.json)

  unfoldable pub get_wireguard_config : M S String
  unfolding call
  get_wireguard_config = do
    res ← call get "/api/wireguard/config" none no_body "Failed to fetch WireGuard config"
    return res.text

  unfoldable pub backup_wireguard_config : M S (Unit {0})
  unfolding call
  backup_wireguard_config =
      call post "/api/wireguard/config/backup" none no_body "Failed to backup WireGuard config"
      >> skip

  unfoldable pub restore_wireguard_config : M S String
  unfolding call
  restore_wireguard_config = do
    res ←
        call post "/api/wireguard/config/restore" none no_body "Failed to restore WireGuard config"
    return res.text

  unfoldable pub update_wireguard_config : String → M S (Unit {0})
  unfolding call
  update_wireguard_config c =
      call put "/api/wireguard/config" text_type (text c) "Failed to update WireGuard config"
      >> skip
