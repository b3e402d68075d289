-- ===== src/Peers/Inputs.antt =====
-- frontend/src/components/WireGuard.tsx: the inputs of the forms for a peer and for the interface,
-- and the buttons that close a dialog or copy a text.
-- An input for a number hands on the number that its text stands for; the port is taken where it is
-- one.
use ogs_swg.Prelude.{ℕ, String, true, false, Option, none, some, truthy, if◌then◌else◌}
use ogs_swg.Wire.{WireGuardPeer, WireGuardInterface}
use ogs_swg.Peers.{Page, Tab}

-- The inputs of a form are there only while its data is.
abbrev pub with_peer : (WireGuardPeer → WireGuardPeer) → Page → Page
with_peer f p = record p {
  editing_peer = elim p.editing_peer [ none ↦ none | some x ↦ some (f x) ];
}

abbrev pub enter_alias : String → Page → Page
enter_alias s p = with_peer (λ x. record x { alias = some s }) p

abbrev pub enter_allowed_ips : String → Page → Page
enter_allowed_ips s p = with_peer (λ x. record x { allowed_ips = s }) p

abbrev pub enter_endpoint : String → Page → Page
enter_endpoint s p = with_peer (λ x. record x { endpoint = some s }) p

abbrev pub enter_preshared_key : String → Page → Page
enter_preshared_key s p = with_peer (λ x. record x { preshared_key = some s }) p

abbrev pub enter_new_name : String → Page → Page
enter_new_name s p = record p { new_name = s }

abbrev pub enter_new_ip : String → Page → Page
enter_new_ip s p = record p { new_ip = s }

abbrev pub enter_new_endpoint : String → Page → Page
enter_new_endpoint s p = record p { new_endpoint = s }

abbrev pub with_interface : (WireGuardInterface → WireGuardInterface) → Page → Page
with_interface f p = record p {
  edit_interface = elim p.edit_interface [ none ↦ none | some x ↦ some (f x) ];
}

abbrev pub enter_address : String → Page → Page
enter_address s p = with_interface (λ x. record x { address = s }) p

abbrev pub enter_bind_address : String → Page → Page
enter_bind_address s p = with_interface (λ x. record x { bind_address = some s }) p

abbrev pub enter_port : ℕ → Page → Page
enter_port n p = with_interface (λ x. record x { listen_port = n }) p

-- `undefined` for the empty text.
abbrev pub enter_mtu : Option ℕ → Page → Page
enter_mtu n p = with_interface (λ x. record x { mtu = n }) p

abbrev pub enter_post_up : String → Page → Page
enter_post_up s p = with_interface (λ x. record x { post_up = some s }) p

abbrev pub enter_post_down : String → Page → Page
enter_post_down s p = with_interface (λ x. record x { post_down = some s }) p

abbrev pub enter_dns : String → Page → Page
enter_dns s p = with_interface (λ x. record x { dns = some s }) p

-- The buttons. Two of them open the form for a peer as it was left.
abbrev pub show_form : Page → Page
show_form p = record p { show_peer_modal = true }

abbrev pub cancel_edit : Page → Page
cancel_edit p = record p { show_peer_modal = false; editing_peer = none }

abbrev pub cancel_create : Page → Page
cancel_create p = record p { show_peer_modal = false }

abbrev pub cancel_interface : Page → Page
cancel_interface p = record p { show_interface_modal = false }

abbrev pub cancel_delete : Page → Page
cancel_delete p = record p { confirm_delete_peer = none }

abbrev pub dismiss_restore : Page → Page
dismiss_restore p = record p { last_deleted_peer = none }

abbrev pub choose_tab : Tab → Page → Page
choose_tab t p = record p { generated_tab = t }

-- The button `Copy config`, when the text has been copied, by one way or the other, and the end of
-- its timer.
unfoldable pub copy_config : Page → Page
copy_config p = if truthy p.config_text then record p { copied_config = true } else p

abbrev pub copied_over : Page → Page
copied_over p = record p { copied_config = false }
