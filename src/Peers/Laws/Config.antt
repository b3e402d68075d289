-- ===== src/Peers/Laws/Config.antt =====
-- frontend/src/components/WireGuard.tsx: the dialog with the configuration of a peer.
use ogs_swg.Prelude.{String, some, false, ◌≡◌, arith}
use ogs_swg.Wire.{WireGuardPeer}
use ogs_swg.Runtime.{World, Server, ok}
use ogs_swg.Peers.{Page, open_config_modal}

-- Whatever the server answers, opening the dialog of a peer ends with that peer in the dialog, and no
-- longer loading.
pub open_config_modal-ends :
    (expires : String) (peer : WireGuardPeer) (server : Server) (w : World Page)
    → ((open_config_modal expires peer server w).0 ≡ ok tt)
      × ((open_config_modal expires peer server w).1.ui.config_loading ≡ false)
      × ((open_config_modal expires peer server w).1.ui.config_modal_peer ≡ some peer)
unfolding open_config_modal
open_config_modal-ends expires peer server w = ground arith
