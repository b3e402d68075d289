-- ===== src/Peers/Edit.antt =====
-- frontend/src/components/WireGuard.tsx: the forms for a peer and for the interface, and the restart.
use ogs_swg.Prelude.{
  String, [], ◌∷◌, none, some, true, false, truthy, trim, not, concat, if◌then◌else◌,
}
use ogs_swg.Wire.{WireGuardPeer, WireGuardInterface}
use ogs_swg.Runtime.{M, ◌>>=◌, ◌>>◌, skip, update, notify, error, alert, show_exception, try_catch}
use ogs_swg.Api.Wireguard.{create_wireguard_peer, update_wireguard_peer, update_wireguard_interface}
use ogs_swg.Api.Services.{restart_service}
use ogs_swg.Peers.{Page, qr, fetch_data, open_config_modal}

-- The button that opens the form for a new peer.
unfoldable pub click_add : Page → Page
click_add p = record p {
  editing_peer = none;
  generated_tab = qr;
  new_ip = "";
  new_endpoint = "";
  show_peer_modal = true;
}

unfoldable pub click_edit : WireGuardPeer → Page → Page
click_edit peer p = record p { editing_peer = some peer; show_peer_modal = true }

-- `handleCreatePeer`; the first argument is the time of expiry for the dialog.
unfoldable pub handle_create_peer : String → Page → M Page (Unit {0})
unfolding create_wireguard_peer open_config_modal fetch_data
handle_create_peer expires s =
    if not (truthy (trim s.new_name))
    then notify (alert "Alias is required")
    else try_catch
        (do
          peer ← create_wireguard_peer s.new_name s.new_ip (some s.new_endpoint)
          update (λ p. record p {
            new_name = "";
            new_ip = "";
            new_endpoint = "";
            generated_tab = qr;
            show_peer_modal = false;
          })
          open_config_modal expires peer
          fetch_data)
        (λ err. notify (error (concat ("Failed to create peer: " ∷ show_exception err ∷ []))))

-- What `handleUpdatePeer` sends: all but the keepalive and the private key.
abbrev pub without_secrets : WireGuardPeer → WireGuardPeer
without_secrets peer = record peer { persistent_keepalive = none; private_key = none }

unfoldable pub handle_update_peer : Page → M Page (Unit {0})
unfolding update_wireguard_peer fetch_data
handle_update_peer s = elim s.editing_peer [
  | none ↦ skip
  | some peer ↦
      try_catch
        (do
          update_wireguard_peer peer.public_key (without_secrets peer)
          update (λ p. record p { editing_peer = none; show_peer_modal = false })
          fetch_data)
        (λ err. notify (error (concat ("Failed to update peer: " ∷ show_exception err ∷ []))))
]

-- The interface that the form starts with where none is known.
abbrev pub default_interface : WireGuardInterface
default_interface = record {
  address = "";
  bind_address = none;
  private_key = "";
  listen_port = 51820;
  post_up = some "";
  post_down = some "";
  mtu = some 1420;
  dns = some "";
}

-- The button for the interface.
unfoldable pub click_interface : Page → Page → Page
click_interface s p = record p {
  edit_interface = some (elim s.interface_config [ none ↦ default_interface | some cfg ↦ cfg ]);
  show_interface_modal = true;
}

unfoldable pub handle_update_interface : Page → M Page (Unit {0})
unfolding update_wireguard_interface
handle_update_interface s = elim s.edit_interface [
  | none ↦ skip
  | some cfg ↦
      try_catch
        (do
          update_wireguard_interface cfg
          update (λ p. record p { interface_config = some cfg; show_interface_modal = false }))
        (λ err. notify (error (concat ("Failed to update interface: " ∷ show_exception err ∷ []))))
]

unfoldable pub handle_restart_wireguard : M Page (Unit {0})
unfolding restart_service fetch_data
handle_restart_wireguard =
    try_catch
      (do
        restart_service "wireguard"
        update (λ p. record p { pending_restart = false })
        fetch_data)
      (λ err. notify (alert (concat ("Failed to restart WireGuard: " ∷ show_exception err ∷ []))))
