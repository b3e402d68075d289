-- ===== src/Peers/Laws.antt =====
-- frontend/src/components/WireGuard.tsx: the refresh, the dialog with a configuration, and the removal
-- of a peer with its restoration.
pub mod Removal
pub mod Order
pub mod Sorted
pub mod Config
use ogs_swg.Prelude.{
  ℕ, ◌≤◌, ◌<◌, String, List, [], ◌∷◌, ◌++◌, Option, none, some, Bool, true, false, ◌≡◌, refl, ◌∙◌,
  ap, arith, concat, if◌then◌else◌, truthy, trim,
}
use ogs_swg.Wire.{Request, Response, responds, get, post, delete, no_body, fields, WireGuardPeer}
use ogs_swg.Runtime.{World, Server, Session, Outcome, ok, throws, M, ◌>>◌, bind_outcome}
use ogs_swg.Encoding.{encode_uri_component}
use ogs_swg.Api.{json_type}
use ogs_swg.Api.Accepted.{AlwaysAccepts, request}
use ogs_swg.Peers.{Page, fetch_peers, fetch_interface, fetch_status, fetch_data, open_config_modal}
use ogs_swg.Peers.Removal.{confirm_delete, handle_restore_peer, restored_fields}

-- The three requests of a refresh, the newest first.
abbrev pub refresh : Session → List Request
refresh s =
    request s get "/api/status" none no_body
    ∷ request s get "/api/wireguard/interface" none no_body
    ∷ request s get "/api/wireguard/peers" none no_body
    ∷ []

-- An action of the page that returns, and what it leaves alone.
pub record Keeps (server : Server) (w : World Page) (url : String)
    (r : Outcome (Unit {0}) × World Page) : Type 0 where
  pub returns : r.0 ≡ ok tt
  pub sent : r.1.sent ≡ request w.session get url none no_body ∷ w.sent
  pub deleted : r.1.ui.last_deleted_peer ≡ w.ui.last_deleted_peer
  pub confirming : r.1.ui.confirm_delete_peer ≡ w.ui.confirm_delete_peer
  pub session : AlwaysAccepts server → r.1.session ≡ w.session

module _ (server : Server) (w : World Page) where
  Keeps-fetch_peers : Keeps server w "/api/wireguard/peers" (fetch_peers server w)
  unfolding fetch_peers
  Keeps-fetch_peers = record {
    returns = ground arith;
    sent = ground arith;
    deleted = ground arith;
    confirming = ground arith;
    session = λ h.
        let (res, answered, low, high) =
          h (request w.session get "/api/wireguard/peers" none no_body ∷ w.sent) in
        ground arith;
  }

  Keeps-fetch_interface : Keeps server w "/api/wireguard/interface" (fetch_interface server w)
  unfolding fetch_interface
  Keeps-fetch_interface = record {
    returns = ground arith;
    sent = ground arith;
    deleted = ground arith;
    confirming = ground arith;
    session = λ h.
        let (res, answered, low, high) =
          h (request w.session get "/api/wireguard/interface" none no_body ∷ w.sent) in
        ground arith;
  }

  Keeps-fetch_status : Keeps server w "/api/status" (fetch_status server w)
  unfolding fetch_status
  Keeps-fetch_status = record {
    returns = ground arith;
    sent = ground arith;
    deleted = ground arith;
    confirming = ground arith;
    session = λ h.
        let (res, answered, low, high) =
          h (request w.session get "/api/status" none no_body ∷ w.sent) in
        ground arith;
  }

-- The whole refresh, while the server accepts the requests.
pub record Refreshed (w : World Page) (r : Outcome (Unit {0}) × World Page) : Type 0 where
  pub returns : r.0 ≡ ok tt
  pub sent : r.1.sent ≡ refresh w.session ++ w.sent
  pub deleted : r.1.ui.last_deleted_peer ≡ w.ui.last_deleted_peer
  pub confirming : r.1.ui.confirm_delete_peer ≡ w.ui.confirm_delete_peer
  pub session : r.1.session ≡ w.session

-- A result is known by its two parts.
then-ok :
    (r : Outcome (Unit {0}) × World Page) (k : M Page (Unit {0})) (server : Server)
    → r.0 ≡ ok tt
    → bind_outcome r (λ _. k) server ≡ k server r.1
then-ok (ok tt, w) k server e = refl
then-ok (throws x, w) k server e = cc

fetch_data-last :
    (server : Server) (w : World Page)
    → fetch_data server w ≡ fetch_status server (fetch_interface server (fetch_peers server w).1).1
unfolding fetch_data
fetch_data-last server w =
    let w₁ : World Page = (fetch_peers server w).1 in
    then-ok (fetch_peers server w) (fetch_interface >> fetch_status) server
      (Keeps-fetch_peers server w).returns
    ∙ then-ok (fetch_interface server w₁) fetch_status server
        (Keeps-fetch_interface server w₁).returns

fetch_data-Refreshed :
    (server : Server) (w : World Page) → AlwaysAccepts server → Refreshed w (fetch_data server w)
fetch_data-Refreshed server w h =
    let w₁ : World Page = (fetch_peers server w).1 in
    let w₂ : World Page = (fetch_interface server w₁).1 in
    let a = Keeps-fetch_peers server w in
    let b = Keeps-fetch_interface server w₁ in
    let c = Keeps-fetch_status server w₂ in
    rw (fetch_data-last server w) (record {
      returns = c.returns;
      sent = cc (c.sent, b.sent, a.sent, a.session h, b.session h);
      deleted = c.deleted ∙ b.deleted ∙ a.deleted;
      confirming = c.confirming ∙ b.confirming ∙ a.confirming;
      session = c.session h ∙ b.session h ∙ a.session h;
    })
