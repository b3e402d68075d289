-- ===== src/Peers.antt =====
-- frontend/src/components/WireGuard.tsx: the state of the page of peers, the refresh of its data and
-- the dialog with a peer's configuration. `fetchData` and the other calls that the source does not
-- await run to their end where they are made, one after the other.
pub mod Edit
pub mod Removal
pub mod Key
pub mod Address
pub mod Sort
pub mod Inputs
pub mod Laws
mod Tests
use ogs_swg.Prelude.{
  String, List, [], ◌∷◌, Option, none, some, Bool, true, false, or_default, concat,
}
use ogs_swg.Wire.{WireGuardPeer, WireGuardInterface, SystemStatus}
use ogs_swg.Runtime.{M, ◌>>=◌, ◌>>◌, update, notify, error, show_exception, try_catch}
use ogs_swg.Api.Wireguard.{get_wireguard_peers, get_wireguard_interface, get_wireguard_peer_config}
use ogs_swg.Api.Stats.{get_system_status}
use ogs_swg.Peers.Key.{private_key_in}

pub data Tab : Type 0 where
  qr details : Tab

pub data SortKey : Type 0 where
  by_alias by_ip by_endpoint by_traffic by_handshake : SortKey

pub data SortDir : Type 0 where
  asc desc : SortDir

pub record Page : Type 0 where
  pub peers : List WireGuardPeer
  pub interface_config : Option WireGuardInterface
  pub show_peer_modal : Bool
  pub show_interface_modal : Bool
  pub editing_peer : Option WireGuardPeer
  pub new_name : String
  pub new_ip : String
  pub new_endpoint : String
  pub generated_tab : Tab
  pub edit_interface : Option WireGuardInterface
  pub sort_key : SortKey
  pub sort_dir : SortDir
  pub config_modal_peer : Option WireGuardPeer
  pub config_text : String
  pub config_loading : Bool
  pub config_expiry : String
  pub config_private_key : String
  pub copied_config : Bool
  pub pending_restart : Bool
  pub systemctl_available : Option Bool
  pub confirm_delete_peer : Option WireGuardPeer
  pub last_deleted_peer : Option WireGuardPeer

abbrev pub start : Page
start = record {
  peers = [];
  interface_config = none;
  show_peer_modal = false;
  show_interface_modal = false;
  editing_peer = none;
  new_name = "";
  new_ip = "";
  new_endpoint = "";
  generated_tab = qr;
  edit_interface = none;
  sort_key = by_alias;
  sort_dir = asc;
  config_modal_peer = none;
  config_text = "";
  config_loading = false;
  config_expiry = "";
  config_private_key = "";
  copied_config = false;
  pending_restart = false;
  systemctl_available = none;
  confirm_delete_peer = none;
  last_deleted_peer = none;
}

abbrev pub list_or_empty : Option (List WireGuardPeer) → List WireGuardPeer
list_or_empty none = []
list_or_empty (some l) = l

-- `!!status.wireguard_pending_restart`
abbrev pub is_pending : SystemStatus → Bool
is_pending st = elim st.wireguard_pending_restart [ none ↦ false | some b ↦ b ]

-- The three calls of `fetchData`.
unfoldable pub fetch_peers : M Page (Unit {0})
unfolding get_wireguard_peers
fetch_peers =
    try_catch
      (do found ← get_wireguard_peers; update (λ p. record p { peers = list_or_empty found }))
      (λ err. do
        update (λ p. record p { peers = [] })
        notify (error (concat ("Failed to fetch peers: " ∷ show_exception err ∷ []))))

unfoldable pub fetch_interface : M Page (Unit {0})
unfolding get_wireguard_interface
fetch_interface =
    try_catch (do cfg ← get_wireguard_interface; update (λ p. record p { interface_config = cfg }))
      (λ err. do
        update (λ p. record p { interface_config = none })
        notify (error (concat ("Failed to fetch interface: " ∷ show_exception err ∷ []))))

unfoldable pub fetch_status : M Page (Unit {0})
unfolding get_system_status
fetch_status =
    try_catch
      (do
        st ← get_system_status
        update (λ p. record p {
          pending_restart = is_pending st;
          systemctl_available = st.systemctl_available;
        }))
      (λ err. update (λ p. record p { pending_restart = false }))

unfoldable pub fetch_data : M Page (Unit {0})
unfolding fetch_peers fetch_interface fetch_status
fetch_data = do fetch_peers; fetch_interface; fetch_status

-- The private key that the dialog shows: that of the configuration if one is found there.
abbrev pub key_or : String → Option String → String
key_or old none = old
key_or old (some k) = k

-- `openConfigModal`; the time of expiry, in the form shown, is an argument.
unfoldable pub open_config_modal : String → WireGuardPeer → M Page (Unit {0})
unfolding get_wireguard_peer_config
open_config_modal expires peer = do
  update (λ p. record p {
    generated_tab = qr;
    config_modal_peer = some peer;
    config_text = "";
    config_loading = true;
    config_expiry = "";
    config_private_key = or_default peer.private_key "";
    copied_config = false;
  })
  try_catch
      (do
        config ← get_wireguard_peer_config peer.public_key none
        update (λ p. record p {
          config_text = config;
          config_expiry = expires;
          config_private_key = key_or p.config_private_key (private_key_in config);
        }))
      (λ err. update (λ p. record p { config_text = ""; config_private_key = "" }))
  update (λ p. record p { config_loading = false })

-- The two ways to close the dialog. The one at the top keeps the private key in the state.
unfoldable pub close_config : Page → Page
close_config p = record p {
  config_modal_peer = none;
  config_text = "";
  config_loading = false;
  config_expiry = "";
  copied_config = false;
  generated_tab = qr;
}

unfoldable pub close_config_footer : Page → Page
unfolding close_config
close_config_footer p = record (close_config p) { config_private_key = "" }
