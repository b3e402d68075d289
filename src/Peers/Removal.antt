-- ===== src/Peers/Removal.antt =====
-- frontend/src/components/WireGuard.tsx: the removal of a peer, and its restoration.
use ogs_swg.Prelude.{String, List, [], ◌∷◌, Option, none, some, find, str_eq, concat}
use ogs_swg.Wire.{WireGuardPeer}
use ogs_swg.Runtime.{M, ◌>>◌, skip, update, notify, error, success, show_exception, try_catch}
use ogs_swg.Api.Wireguard.{delete_wireguard_peer, restore_wireguard_peer}
use ogs_swg.Peers.{Page, fetch_data}

-- `handleDeletePeer`: asks for a confirmation.
unfoldable pub handle_delete_peer : String → Page → Page → Page
handle_delete_peer public_key s p = record p {
  confirm_delete_peer = find (λ q. str_eq q.public_key public_key) s.peers;
}

unfoldable pub confirm_delete : Page → M Page (Unit {0})
unfolding delete_wireguard_peer fetch_data
confirm_delete s = elim s.confirm_delete_peer [
  | none ↦ skip
  | some target ↦ do
    update (λ p. record p { confirm_delete_peer = none })
    try_catch
        (do
          delete_wireguard_peer target.public_key
          update (λ p. record p { last_deleted_peer = some target })
          notify (success "Peer deleted")
          fetch_data)
        (λ err. notify (error (concat ("Failed to delete peer: " ∷ show_exception err ∷ []))))
]

-- What is sent to restore a peer.
abbrev pub restored_fields : WireGuardPeer → List (String × Option String)
restored_fields peer =
    ("public_key", some peer.public_key)
    ∷ ("allowed_ips", some peer.allowed_ips)
    ∷ ("endpoint", peer.endpoint)
    ∷ ("alias", peer.alias)
    ∷ ("preshared_key", peer.preshared_key)
    ∷ []

unfoldable pub handle_restore_peer : Page → M Page (Unit {0})
unfolding restore_wireguard_peer fetch_data
handle_restore_peer s = elim s.last_deleted_peer [
  | none ↦ skip
  | some peer ↦
      try_catch
        (do
          restore_wireguard_peer (restored_fields peer)
          notify (success "Peer restored")
          update (λ p. record p { last_deleted_peer = none })
          fetch_data)
        (λ err. notify (error (concat ("Failed to restore peer: " ∷ show_exception err ∷ []))))
]
