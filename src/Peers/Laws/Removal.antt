-- ===== src/Peers/Laws/Removal.antt =====
-- frontend/src/components/WireGuard.tsx: the removal of a peer, and its restoration.
use ogs_swg.Prelude.{[], ◌∷◌, ◌++◌, none, some, ◌≡◌, refl, concat}
use ogs_swg.Wire.{Request, post, delete, no_body, fields, WireGuardPeer}
use ogs_swg.Runtime.{
  World, Server, Session, Outcome, ok, throws, Exception, M, catch_outcome, success,
}
use ogs_swg.Encoding.{encode_uri_component}
use ogs_swg.Api.{json_type}
use ogs_swg.Api.Accepted.{AlwaysAccepts, request, Sends, Sends-call}
use ogs_swg.Api.Wireguard.{delete_wireguard_peer, restore_wireguard_peer}
use ogs_swg.Peers.{Page, fetch_data}
use ogs_swg.Peers.Removal.{confirm_delete, handle_restore_peer, restored_fields}
use ogs_swg.Peers.Laws.{refresh, fetch_data-Refreshed}

abbrev pub delete_request : WireGuardPeer → Session → Request
delete_request peer session =
    request session delete
      (concat ("/api/wireguard/peers?public_key=" ∷ encode_uri_component peer.public_key ∷ [])) none
      no_body

abbrev pub restore_request : WireGuardPeer → Session → Request
restore_request peer session = request session post "/api/wireguard/peers/restore" json_type (
    fields (
      ("public_key", some peer.public_key)
      ∷ ("allowed_ips", some peer.allowed_ips)
      ∷ ("endpoint", peer.endpoint)
      ∷ ("alias", peer.alias)
      ∷ ("preshared_key", peer.preshared_key)
      ∷ []))

catch-ok :
    (r : Outcome (Unit {0}) × World Page) (h : Exception → M Page (Unit {0})) (server : Server)
    → r.0 ≡ ok tt
    → catch_outcome r h server ≡ r
catch-ok (ok tt, w) h server e = refl
catch-ok (throws x, w) h server e = cc

Sends-delete :
    (peer : WireGuardPeer)
    → Sends {S = Page} (delete_wireguard_peer peer.public_key) (λ s. delete_request peer s ∷ [])
unfolding delete_wireguard_peer
Sends-delete peer = Sends-call delete _ none no_body _

Sends-restore :
    (peer : WireGuardPeer)
    → Sends {S = Page}
        (restore_wireguard_peer (restored_fields peer))
        (λ s. restore_request peer s ∷ [])
unfolding restore_wireguard_peer
Sends-restore peer = Sends-call post _ json_type _ _

-- The page before the refresh that follows a removal, and a restoration.
abbrev removed : WireGuardPeer → World Page → World Page
removed target w = record w {
  ui = record w.ui { confirm_delete_peer = none; last_deleted_peer = some target };
  sent = delete_request target w.session ∷ w.sent;
  notices = success "Peer deleted" ∷ w.notices;
}

abbrev restored : WireGuardPeer → World Page → World Page
restored target w = record w {
  ui = record w.ui { last_deleted_peer = none };
  sent = restore_request target w.session ∷ w.sent;
  notices = success "Peer restored" ∷ w.notices;
}

confirm_delete-accepted :
    (server : Server) (s : Page) (w : World Page) (target : WireGuardPeer)
    → AlwaysAccepts server
    → s.confirm_delete_peer ≡ some target
    → confirm_delete s server w ≡ fetch_data server (removed target w)
unfolding confirm_delete
confirm_delete-accepted server s w target h chosen =
    rw
      (
        chosen,
        (Sends-delete target).effect server h
            (record w { ui = record w.ui { confirm_delete_peer = none } }),
      )
      (catch-ok _ _ server (fetch_data-Refreshed server (removed target w) h).returns)

handle_restore_peer-accepted :
    (server : Server) (s : Page) (w : World Page) (target : WireGuardPeer)
    → AlwaysAccepts server
    → s.last_deleted_peer ≡ some target
    → handle_restore_peer s server w ≡ fetch_data server (restored target w)
unfolding handle_restore_peer
handle_restore_peer-accepted server s w target h chosen =
    rw (chosen, (Sends-restore target).effect server h w)
      (catch-ok _ _ server (fetch_data-Refreshed server (restored target w) h).returns)

-- While the server accepts every request, confirming the removal of a peer sends its DELETE and
-- refreshes the page, which then offers this peer for restoration; taking the offer sends the
-- peer's key, addresses, endpoint, alias and preshared key, refreshes again and withdraws the offer.
pub confirm_delete-restore :
    (server : Server) (s : Page) (w : World Page) (target : WireGuardPeer)
    → AlwaysAccepts server
    → s.confirm_delete_peer ≡ some target
    → let w₁ : World Page = (confirm_delete s server w).1 in
      let w₂ : World Page = (handle_restore_peer w₁.ui server w₁).1 in
      (w₁.ui.confirm_delete_peer ≡ none)
      × (w₁.ui.last_deleted_peer ≡ some target)
      × (w₂.ui.last_deleted_peer ≡ none)
      × (w₂.sent
          ≡ refresh w.session
            ++ restore_request target w.session
              ∷ (refresh w.session ++ delete_request target w.session ∷ w.sent))
confirm_delete-restore server s w target h chosen =
    let w₁ : World Page = (fetch_data server (removed target w)).1 in
    let a = fetch_data-Refreshed server (removed target w) h in
    let b = fetch_data-Refreshed server (restored target w₁) h in
    rw
      (
        confirm_delete-accepted server s w target h chosen,
        handle_restore_peer-accepted server w₁.ui w₁ target h a.deleted,
      )
      (a.confirming, a.deleted, b.deleted, cc (b.sent, a.sent, a.session))
