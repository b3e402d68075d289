-- ===== src/Inbounds/Inputs.antt =====
-- frontend/src/components/singbox/InboundModal.tsx: the inputs of the form.
-- The transport, Reality and its handshake that are there are objects, as `tls` is.
use ogs_swg.Prelude.{
  String, Bool, true, false, Option, none, some, List, map, filter, not, ◌&&◌, ◌||◌, trim, truthy,
  ◌≡◌,
}
use ogs_swg.Json.{Json, Members, boolean, array, object, element, no_elements, no_members}
use ogs_swg.Json.Access.{lookup, put, field_of, is_set, elements}
use ogs_swg.Peers.Address.{split}
use ogs_swg.Inbounds.{text, is_text, choose_protocol, parse_int, number_or_nan, open_form}
use ogs_swg.Inbounds.Submit.{is_vless, tls_enabled, reality_enabled, receive_cert}

-- `{ ...(value || {}), key: x }`
abbrev pub members_of : Option Json → Members
members_of (some (object ms)) = ms
members_of _ = no_members

abbrev pub with_field : String → Json → Option Json → Json
with_field key x v = object (put key x (members_of v))

abbrev pub put_tls : String → Json → Members → Members
put_tls key x form = put "tls" (with_field key x (lookup "tls" form)) form

abbrev pub reality_of : Members → Option Json
reality_of form = field_of "reality" (lookup "tls" form)

abbrev pub put_reality : String → Json → Members → Members
put_reality key x form = put_tls "reality" (with_field key x (reality_of form)) form

abbrev pub put_handshake : String → Json → Members → Members
put_handshake key x form =
    put_reality "handshake" (with_field key x (field_of "handshake" (reality_of form))) form

abbrev pub put_transport : String → Json → Members → Members
put_transport key x form = put "transport" (with_field key x (lookup "transport" form)) form

abbrev pub strings : List String → List Json
strings ss = map text ss

-- One function for each input, named for its label or its member.
abbrev pub enter_tag : String → Members → Members
enter_tag s form = put "tag" (text s) form

abbrev pub enter_listen : String → Members → Members
enter_listen s form = put "listen" (text s) form

abbrev pub enter_listen_port : String → Members → Members
enter_listen_port s form = put "listen_port" (text s) form

abbrev pub enter_external_port : String → Members → Members
enter_external_port s form = put "external_port" (text s) form

abbrev pub toggle_tls : Bool → Members → Members
toggle_tls b form = put_tls "enabled" (boolean b) form

abbrev pub enter_alpn : String → Members → Members
enter_alpn s form =
    put_tls "alpn" (array (elements (strings (filter truthy (map trim (split 44 s)))))) form

abbrev pub toggle_reality : Bool → Members → Members
toggle_reality b form = put_reality "enabled" (boolean b) form

abbrev pub enter_server : String → Members → Members
enter_server s form = put_handshake "server" (text s) form

abbrev pub enter_server_port : String → Members → Members
enter_server_port s form = put_handshake "server_port" (number_or_nan (parse_int s)) form

abbrev pub enter_private_key : String → Members → Members
enter_private_key s form = put_reality "private_key" (text s) form

abbrev pub enter_short_id : String → Members → Members
enter_short_id s form = put_reality "short_id" (array (element (text s) no_elements)) form

abbrev pub enter_certificate_path : String → Members → Members
enter_certificate_path s form = put_tls "certificate_path" (text s) form

abbrev pub enter_key_path : String → Members → Members
enter_key_path s form = put_tls "key_path" (text s) form

abbrev pub toggle_transport : Bool → Members → Members
toggle_transport b form = put_transport "enabled" (boolean b) form

abbrev pub choose_transport : String → Members → Members
choose_transport s form = put_transport "type" (text s) form

abbrev pub enter_path : String → Members → Members
enter_path s form = put_transport "path" (text s) form

abbrev pub enter_service_name : String → Members → Members
enter_service_name s form = put_transport "service_name" (text s) form

-- What the user does to the form.
pub data Input : Type 0 where
  tag : String → Input
  protocol : String → Input
  listen : String → Input
  listen_port : String → Input
  external_port : String → Input
  tls_toggle : Bool → Input
  alpn_list : String → Input
  reality_toggle : Bool → Input
  server : String → Input
  server_port : String → Input
  private_key : String → Input
  short_id : String → Input
  certificate_path : String → Input
  key_path : String → Input
  transport_toggle : Bool → Input
  transport_type : String → Input
  path : String → Input
  service_name : String → Input

unfoldable pub enter : Input → Members → Members
enter (tag s) = enter_tag s
enter (protocol s) = choose_protocol s
enter (listen s) = enter_listen s
enter (listen_port s) = enter_listen_port s
enter (external_port s) = enter_external_port s
enter (tls_toggle b) = toggle_tls b
enter (alpn_list s) = enter_alpn s
enter (reality_toggle b) = toggle_reality b
enter (server s) = enter_server s
enter (server_port s) = enter_server_port s
enter (private_key s) = enter_private_key s
enter (short_id s) = enter_short_id s
enter (certificate_path s) = enter_certificate_path s
enter (key_path s) = enter_key_path s
enter (transport_toggle b) = toggle_transport b
enter (transport_type s) = choose_transport s
enter (path s) = enter_path s
enter (service_name s) = enter_service_name s

abbrev transport_of : Members → Option Json
transport_of form = lookup "transport" form

abbrev transport_shown : Members → Bool
transport_shown form = is_set (field_of "enabled" (transport_of form))

abbrev transport_is : String → Members → Bool
transport_is s form = is_text s (field_of "type" (transport_of form))

abbrev reality_shown : Members → Bool
reality_shown form = tls_enabled form && is_vless form && reality_enabled form

-- Whether an input is there and not disabled; the tag of an inbound that is edited is.
unfoldable pub is_available : Bool → Members → Input → Bool
is_available editing form (tag s) = not editing
is_available editing form (alpn_list s) = tls_enabled form
is_available editing form (reality_toggle b) = tls_enabled form && is_vless form
is_available editing form (server s) = reality_shown form
is_available editing form (server_port s) = reality_shown form
is_available editing form (private_key s) = reality_shown form
is_available editing form (short_id s) = reality_shown form
is_available editing form (certificate_path s) = tls_enabled form
is_available editing form (key_path s) = tls_enabled form
is_available editing form (transport_type s) = transport_shown form
is_available editing form (path s) =
    transport_shown form
    && (transport_is "http" form || transport_is "ws" form || transport_is "httpupgrade" form)
is_available editing form (service_name s) = transport_shown form && transport_is "grpc" form
is_available editing form i = true

abbrev pub is_editing : Option Members → Bool
is_editing none = false
is_editing (some initial) = true

-- The forms that the dialog comes to from the inbound that it was opened with: by inputs, and by
-- answers of the server to the button for a certificate.
pub data Reached (initial : Option Members) : Members → Type 0 where
  opened : Reached initial (open_form initial)
  entered :
      (form : Members)
      → (i : Input) → is_available (is_editing initial) form i ≡ true
      → Reached initial form
      → Reached initial (enter i form)
  certified :
      (form : Members)
      → (res : Json) → Reached initial form
      → Reached initial (receive_cert res form)
