-- ===== src/Wire.antt =====
-- frontend/src/api.ts, the declared types: what the client sends to the server and gets from it.
-- A body that is sent as JSON is kept as the value that is handed to `JSON.stringify`.
use ogs_swg.Prelude.{ℕ, String, Bool, List, Option}

-- interface `UserStatus`; an optional field is `none` where it is `undefined`.
pub record UserStatus : Type 0 where
  pub name : String
  pub uuid : Option String
  pub flow : Option String
  pub vmess_security : Option String
  pub vmess_alter_id : Option ℕ
  pub uplink : ℕ
  pub downlink : ℕ
  pub total : ℕ
  pub quota_limit : ℕ
  pub quota_period : String
  pub reset_day : ℕ
  pub enabled : Option Bool
  pub last_seen : Option ℕ
  pub inbound_tags : Option (List String)

-- interface `CreateUserRequest`
pub record CreateUserRequest : Type 0 where
  pub name : String
  pub original_name : Option String
  pub uuid : String
  pub flow : String
  pub vmess_security : Option String
  pub vmess_alter_id : Option ℕ
  pub quota_limit : ℕ
  pub quota_period : String
  pub reset_day : ℕ
  pub enabled : Option Bool
  pub inbound_tag : Option String

-- The elements that `getUserInbounds` returns, and with their tag left out the payload of
-- `updateUserInbound`.
pub record Credentials : Type 0 where
  pub uuid : String
  pub flow : Option String
  pub vmess_security : Option String
  pub vmess_alter_id : Option ℕ

pub record UserInbound : Type 0 where
  pub tag : String
  pub credentials : Credentials

-- What the client reads of an inbound (`any` in the source): its tag and its `type`.
pub record Inbound : Type 0 where
  pub tag : String
  pub type : Option String

-- interface `WireGuardPeer` (WireGuard.tsx), less the fields that are only displayed.
pub record PeerStats : Type 0 where
  pub latest_handshake : ℕ
  pub transfer_rx : ℕ
  pub transfer_tx : ℕ
  pub endpoint : String

pub record WireGuardPeer : Type 0 where
  pub public_key : String
  pub private_key : Option String
  pub allowed_ips : String
  pub endpoint : Option String
  pub alias : Option String
  pub name : Option String
  pub preshared_key : Option String
  pub persistent_keepalive : Option ℕ
  pub stats : Option PeerStats

-- interface `WireGuardInterface`
pub record WireGuardInterface : Type 0 where
  pub address : String
  pub bind_address : Option String
  pub private_key : String
  pub listen_port : ℕ
  pub post_up : Option String
  pub post_down : Option String
  pub mtu : Option ℕ
  pub dns : Option String

-- What the pages read of the answer of `getSystemStatus`.
pub record SystemStatus : Type 0 where
  pub wireguard_pending_restart : Option Bool
  pub systemctl_available : Option Bool
  pub singbox : Option Bool
  pub wireguard : Option Bool
  pub db_size_bytes : Option ℕ
  pub samples_count : Option ℕ
  pub sampler_paused : Option Bool
  pub wg_sample_interval_sec : Option ℕ

-- interface `FeatureFlags`
pub record FeatureFlags : Type 0 where
  pub enable_singbox : Bool
  pub enable_wireguard : Bool
  pub retention_enabled : Option Bool
  pub retention_days : Option ℕ
  pub sampler_interval_sec : Option ℕ
  pub sampler_paused : Option Bool
  pub active_threshold_bytes : Option ℕ
  pub wg_sampler_interval_sec : Option ℕ
  pub wg_retention_days : Option ℕ
  pub aggregation_enabled : Option Bool
  pub aggregation_days : Option ℕ
  pub log_source : Option String
  pub access_log_path : Option String
  pub systemctl_available : Option Bool
  pub journalctl_available : Option Bool

pub data Method : Type 0 where
  get post put delete : Method

-- A request body: a JSON value of one of the shapes that the client sends, or a text.
pub data Body : Type 0 where
  no_body : Body
  user : CreateUserRequest → Body
  users : List CreateUserRequest → Body
  credentials : Credentials → Body
  fields : List (String × Option String) → Body
  peer : WireGuardPeer → Body
  interface : WireGuardInterface → Body
  features : FeatureFlags → Body
  value : String → Body
  text : String → Body

pub record Request : Type 0 where
  pub method : Method
  pub url : String
  pub headers : List (String × String)
  pub body : Body

-- A response body as `res.json()` sees it: a value of a type that api.ts declares, another JSON
-- value by its text, or no JSON.
pub data Payload : Type 0 where
  user_list : List UserStatus → Payload
  inbound_list : List Inbound → Payload
  user_inbounds : List UserInbound → Payload
  peer_list : List WireGuardPeer → Payload
  one_peer : WireGuardPeer → Payload
  an_interface : Option WireGuardInterface → Payload
  status : SystemStatus → Payload
  link : Option String → Payload
  config : String → Payload
  public_ip : Option String → Payload
  flags : FeatureFlags → Payload
  pending_changes : Option Bool → Payload
  logs : List String → Payload
  log_page : Option (List String) → Option ℕ → Option Bool → Payload
  token : Option String → Payload
  other_json : String → Payload
  not_json : Payload

pub record Response : Type 0 where
  pub status : ℕ
  pub text : String
  pub json : Payload

-- How a `fetch` settles: with a response, or rejected where none arrives.
pub data Reply : Type 0 where
  responds : Response → Reply
  unreachable : Reply
