-- ===== src/Api/Endpoint.antt =====
-- Every call of the client (frontend/src/api.ts, the object `api`) as one value, to state what all
-- calls have in common.
use ogs_swg.Prelude.{ℕ, String, List, Option}
use ogs_swg.Wire.{CreateUserRequest, Credentials, WireGuardPeer, WireGuardInterface, FeatureFlags}
use ogs_swg.Runtime.{M, ◌>>◌, skip}
use ogs_swg.Api.Users
use ogs_swg.Api.Logs
use ogs_swg.Api.Wireguard
use ogs_swg.Api.Services
use ogs_swg.Api.Singbox
use ogs_swg.Api.Stats

pub data Endpoint : Type 0 where
  get_users : Endpoint
  update_password : String → String → Endpoint
  update_username : String → String → Endpoint
  create_user : CreateUserRequest → Endpoint
  update_user : CreateUserRequest → Endpoint
  delete_user : String → Endpoint
  get_user_inbounds : String → Endpoint
  remove_user_from_inbound : String → String → Endpoint
  update_user_inbound : String → String → Credentials → Endpoint
  get_user_link : String → String → Endpoint
  get_user_vless_link : String → String → Endpoint
  bulk_create_users : List CreateUserRequest → Endpoint
  get_report : Option String → Option String → Endpoint
  get_report_summary : Option String → Option String → Option ℕ → Endpoint
  get_config : Endpoint
  get_logs : Option String → Option ℕ → Endpoint
  search_logs : String → Option ℕ → Option ℕ → Endpoint
  get_wireguard_peers : Endpoint
  create_wireguard_peer : String → String → Option String → Endpoint
  delete_wireguard_peer : String → Endpoint
  restore_wireguard_peer : List (String × Option String) → Endpoint
  get_wireguard_interface : Endpoint
  update_wireguard_interface : WireGuardInterface → Endpoint
  update_wireguard_peer : String → WireGuardPeer → Endpoint
  get_wireguard_peer_config : String → Option String → Endpoint
  get_wireguard_traffic : String → Endpoint
  get_wireguard_traffic_range : ℕ → ℕ → Endpoint
  get_wireguard_traffic_series :
      Option String → Option String → Option ℕ → Option ℕ → Option ℕ → Endpoint
  get_wireguard_config : Endpoint
  backup_wireguard_config : Endpoint
  restore_wireguard_config : Endpoint
  update_wireguard_config : String → Endpoint
  pause_sampler : Endpoint
  resume_sampler : Endpoint
  restart_service : String → Endpoint
  start_service : String → Endpoint
  stop_service : String → Endpoint
  get_features : Endpoint
  update_features : FeatureFlags → Endpoint
  get_public_ip : Endpoint
  update_public_ip : String → Endpoint
  run_sampler : Endpoint
  get_sampler_history : Option ℕ → Endpoint
  prune_now : Endpoint
  get_singbox_config : Endpoint
  update_singbox_config : String → Endpoint
  get_singbox_inbounds : Endpoint
  add_singbox_inbound : String → Endpoint
  update_singbox_inbound : String → String → Endpoint
  delete_singbox_inbound : String → Endpoint
  update_config : String → Endpoint
  get_backup_meta : Endpoint
  backup_config : Endpoint
  restore_config : Endpoint
  generate_reality_keys : Endpoint
  generate_self_signed_cert : Option String → Option String → Endpoint
  apply_singbox_changes : Endpoint
  get_stats : String → Option String → Option String → Endpoint
  get_system_status : Endpoint
  get_dashboard_data : String → Option String → Option String → Endpoint

-- The call, without its result.
unfoldable pub run : {S : Type 0} → Endpoint → M S (Unit {0})
unfolding Users.get_users Users.update_password Users.update_username Users.create_user
    Users.update_user Users.delete_user Users.get_user_inbounds Users.remove_user_from_inbound
    Users.update_user_inbound Users.get_user_link Users.get_user_vless_link Users.bulk_create_users
    Logs.get_report Logs.get_report_summary Logs.get_config Logs.get_logs Logs.search_logs
    Wireguard.get_wireguard_peers Wireguard.create_wireguard_peer Wireguard.delete_wireguard_peer
    Wireguard.restore_wireguard_peer Wireguard.get_wireguard_interface
    Wireguard.update_wireguard_interface Wireguard.update_wireguard_peer
    Wireguard.get_wireguard_peer_config Wireguard.get_wireguard_traffic
    Wireguard.get_wireguard_traffic_range Wireguard.get_wireguard_traffic_series
    Wireguard.get_wireguard_config Wireguard.backup_wireguard_config
    Wireguard.restore_wireguard_config Wireguard.update_wireguard_config Services.pause_sampler
    Services.resume_sampler Services.restart_service Services.start_service Services.stop_service
    Services.get_features Services.update_features Services.get_public_ip Services.update_public_ip
    Services.run_sampler Services.get_sampler_history Services.prune_now Singbox.get_singbox_config
    Singbox.update_singbox_config Singbox.get_singbox_inbounds Singbox.add_singbox_inbound
    Singbox.update_singbox_inbound Singbox.delete_singbox_inbound Singbox.update_config
    Singbox.get_backup_meta Singbox.backup_config Singbox.restore_config
    Singbox.generate_reality_keys Singbox.generate_self_signed_cert Singbox.apply_singbox_changes
    Stats.get_stats Stats.get_system_status Stats.get_dashboard_data
run get_users = Users.get_users >> skip
run (update_password a b) = Users.update_password a b >> skip
run (update_username a b) = Users.update_username a b >> skip
run (create_user a) = Users.create_user a >> skip
run (update_user a) = Users.update_user a >> skip
run (delete_user a) = Users.delete_user a >> skip
run (get_user_inbounds a) = Users.get_user_inbounds a >> skip
run (remove_user_from_inbound a b) = Users.remove_user_from_inbound a b >> skip
run (update_user_inbound a b c) = Users.update_user_inbound a b c >> skip
run (get_user_link a b) = Users.get_user_link a b >> skip
run (get_user_vless_link a b) = Users.get_user_vless_link a b >> skip
run (bulk_create_users a) = Users.bulk_create_users a >> skip
run (get_report a b) = Logs.get_report a b >> skip
run (get_report_summary a b c) = Logs.get_report_summary a b c >> skip
run get_config = Logs.get_config >> skip
run (get_logs a b) = Logs.get_logs a b >> skip
run (search_logs a b c) = Logs.search_logs a b c >> skip
run get_wireguard_peers = Wireguard.get_wireguard_peers >> skip
run (create_wireguard_peer a b c) = Wireguard.create_wireguard_peer a b c >> skip
run (delete_wireguard_peer a) = Wireguard.delete_wireguard_peer a >> skip
run (restore_wireguard_peer a) = Wireguard.restore_wireguard_peer a >> skip
run get_wireguard_interface = Wireguard.get_wireguard_interface >> skip
run (update_wireguard_interface a) = Wireguard.update_wireguard_interface a >> skip
run (update_wireguard_peer a b) = Wireguard.update_wireguard_peer a b >> skip
run (get_wireguard_peer_config a b) = Wireguard.get_wireguard_peer_config a b >> skip
run (get_wireguard_traffic a) = Wireguard.get_wireguard_traffic a >> skip
run (get_wireguard_traffic_range a b) = Wireguard.get_wireguard_traffic_range a b >> skip
run (get_wireguard_traffic_series a b c d e) =
    Wireguard.get_wireguard_traffic_series a b c d e >> skip
run get_wireguard_config = Wireguard.get_wireguard_config >> skip
run backup_wireguard_config = Wireguard.backup_wireguard_config >> skip
run restore_wireguard_config = Wireguard.restore_wireguard_config >> skip
run (update_wireguard_config a) = Wireguard.update_wireguard_config a >> skip
run pause_sampler = Services.pause_sampler >> skip
run resume_sampler = Services.resume_sampler >> skip
run (restart_service a) = Services.restart_service a >> skip
run (start_service a) = Services.start_service a >> skip
run (stop_service a) = Services.stop_service a >> skip
run get_features = Services.get_features >> skip
run (update_features a) = Services.update_features a >> skip
run get_public_ip = Services.get_public_ip >> skip
run (update_public_ip a) = Services.update_public_ip a >> skip
run run_sampler = Services.run_sampler >> skip
run (get_sampler_history a) = Services.get_sampler_history a >> skip
run prune_now = Services.prune_now >> skip
run get_singbox_config = Singbox.get_singbox_config >> skip
run (update_singbox_config a) = Singbox.update_singbox_config a >> skip
run get_singbox_inbounds = Singbox.get_singbox_inbounds >> skip
run (add_singbox_inbound a) = Singbox.add_singbox_inbound a >> skip
run (update_singbox_inbound a b) = Singbox.update_singbox_inbound a b >> skip
run (delete_singbox_inbound a) = Singbox.delete_singbox_inbound a >> skip
run (update_config a) = Singbox.update_config a >> skip
run get_backup_meta = Singbox.get_backup_meta >> skip
run backup_config = Singbox.backup_config >> skip
run restore_config = Singbox.restore_config >> skip
run generate_reality_keys = Singbox.generate_reality_keys >> skip
run (generate_self_signed_cert a b) = Singbox.generate_self_signed_cert a b >> skip
run apply_singbox_changes = Singbox.apply_singbox_changes >> skip
run (get_stats a b c) = Stats.get_stats a b c >> skip
run get_system_status = Stats.get_system_status >> skip
run (get_dashboard_data a b c) = Stats.get_dashboard_data a b c >> skip
