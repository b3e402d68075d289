-- ===== src/Inbounds/Tests.antt =====
-- Examples for frontend/src/components/singbox/InboundModal.tsx.
use ogs_swg.Prelude.{◌≡◌, refl, none, some, true, trim}
use ogs_swg.Json.{Members, boolean, number, object, member, no_members}
use ogs_swg.Json.Access.{lookup, put}
use ogs_swg.Encoding.Decimal.{decimal}
use ogs_swg.Inbounds.{text, open_form, default_vless, parse_int}
use ogs_swg.Inbounds.Submit.{Submission, saved, handle_submit}
use ogs_swg.Inbounds.Laws.{Sound, handle_submit-Sound}
use ogs_swg.Inbounds.Laws.Open.{open_form-handle_submit}
use ogs_swg.Inbounds.Inputs.{enter, path, transport_toggle, is_available, Reached, entered, opened}
use ogs_swg.Inbounds.Laws.Tag.{Reached-handle_submit}

-- {"type": "trojan", "tag": "in", "listen_port": 443, "transport": {"type": "ws", "path": "/x"}}
abbrev trojan : Members
trojan = member "type" (text "trojan") (
    member "tag" (text "in") (
      member "listen_port" (number 443) (
        member "transport"
          (object (member "type" (text "ws") (member "path" (text "/x") no_members))) no_members)))

abbrev saved_of : Submission → Members
saved_of (saved s) = s
saved_of _ = no_members

abbrev form : Members
form = open_form (some trojan)

abbrev result : Members
result = saved_of (handle_submit form)

form_is_saved : handle_submit form ≡ saved result
unfolding handle_submit open_form parse_int decimal trim
form_is_saved = refl

handle_submit-Sound_example : Sound form result
handle_submit-Sound_example = handle_submit-Sound form result form_is_saved

open_form-handle_submit_example : lookup "transport" result ≡ none
open_form-handle_submit_example = open_form-handle_submit trojan result refl refl form_is_saved

-- A VLESS form with a certificate and an external port.
abbrev vless : Members
vless = put "external_port" (text "8443") (
    put "tls"
      (object (
        member "enabled" (boolean true)
          (member "certificate_path" (text "/c") (member "key_path" (text "/k") no_members))))
      default_vless)

external_test : lookup "external_port" (saved_of (handle_submit vless)) ≡ some (number 8443)
unfolding handle_submit parse_int decimal trim
external_test = refl

-- The transport of the inbound is switched on again, and its path changed.
abbrev switched : Members
switched = enter (transport_toggle true) form

abbrev edited : Members
edited = enter (path "/y") switched

edited-Reached : Reached (some trojan) edited
unfolding enter open_form is_available
edited-Reached =
    entered switched (path "/y") refl (entered form (transport_toggle true) refl opened)

edited_is_saved : handle_submit edited ≡ saved (saved_of (handle_submit edited))
unfolding enter handle_submit open_form parse_int decimal trim
edited_is_saved = refl

transport_test :
    lookup "transport" (saved_of (handle_submit edited))
    ≡ some (object (member "type" (text "ws") (member "path" (text "/y") no_members)))
unfolding enter handle_submit open_form parse_int decimal trim
transport_test = refl

Reached-handle_submit_example : lookup "tag" (saved_of (handle_submit edited)) ≡ lookup "tag" trojan
Reached-handle_submit_example =
    Reached-handle_submit trojan edited (saved_of (handle_submit edited)) refl edited-Reached
      edited_is_saved
