-- ===== src/Inbounds/Laws/Tag.antt =====
-- frontend/src/components/singbox/InboundModal.tsx: the tag of an inbound that is edited.
use ogs_swg.Prelude.{String, true, Option, none, some, ◌≡◌, refl, ap, ◌∙◌}
use ogs_swg.Json.{Json, Members}
use ogs_swg.Json.Access.{lookup, put, is_set, lookup-put, lookup-put_other}
use ogs_swg.Inbounds.{
  text, open_form, choose_protocol, first_set, default_by_type, with_parts, with_reality, with_alpn,
  shown_port, fallback, with_default,
}
use ogs_swg.Inbounds.Submit.{saved, handle_submit, receive_cert}
use ogs_swg.Inbounds.Inputs.{
  Input, enter, is_available, Reached, opened, entered, certified, tag, protocol, listen,
  listen_port, external_port, tls_toggle, alpn_list, reality_toggle, server, server_port,
  private_key, short_id, certificate_path, key_path, transport_toggle, transport_type, path,
  service_name,
}
use ogs_swg.Inbounds.Laws.{handle_submit-Sound}
use ogs_swg.Inbounds.Laws.Open.{with_default-other, with_alpn-other, with_reality-other}

open_form-named :
    (initial : Members) → lookup "tag" (open_form (some initial)) ≡ lookup "tag" initial
unfolding open_form
open_form-named initial =
    let parts = with_parts initial in
    lookup-put_other "external_port" "tag" (shown_port initial)
      (with_alpn initial (with_reality initial parts)) refl
    ∙ with_alpn-other initial (with_reality initial parts) "tag" refl
    ∙ with_reality-other initial parts "tag" refl
    ∙ with_default-other "tls" (lookup "tls" (fallback initial))
        (with_default "transport" (lookup "transport" (fallback initial)) initial) "tag" refl
    ∙ with_default-other "transport" (lookup "transport" (fallback initial)) initial "tag" refl

first_set-first : (a b : Option Json) → is_set a ≡ true → some (first_set a b) ≡ a
first_set-first none b h = cc h
first_set-first (some v) b h = rw h refl

choose_protocol-named :
    (type : String) (prev : Members)
    → is_set (lookup "tag" prev) ≡ true
    → lookup "tag" (choose_protocol type prev) ≡ lookup "tag" prev
unfolding choose_protocol
choose_protocol-named type prev h =
    let defaults = default_by_type (some (text type)) in
    let set_part = λ (key : String). first_set (lookup key prev) (lookup key defaults) in
    let tagged = put "tag" (set_part "tag") defaults in
    let listening = put "listen" (set_part "listen") tagged in
    lookup-put_other "external_port" "tag"
      (first_set (lookup "external_port" prev) (some (text "")))
      (put "listen_port" (set_part "listen_port") listening) refl
    ∙ lookup-put_other "listen_port" "tag" (set_part "listen_port") listening refl
    ∙ lookup-put_other "listen" "tag" (set_part "listen") tagged refl
    ∙ lookup-put "tag" (set_part "tag") defaults
    ∙ first_set-first (lookup "tag" prev) (lookup "tag" defaults) h

-- Only the input of the tag and the choice of a protocol write the tag, and the first is not there.
enter-named :
    (form : Members) (i : Input)
    → is_available true form i ≡ true
    → is_set (lookup "tag" form) ≡ true
    → lookup "tag" (enter i form) ≡ lookup "tag" form
unfolding enter is_available
enter-named form (protocol s) a h = choose_protocol-named s form h
enter-named form (tag s) a h = cc a
enter-named form (listen s) a h = lookup-put_other "listen" "tag" _ form refl
enter-named form (listen_port s) a h = lookup-put_other "listen_port" "tag" _ form refl
enter-named form (external_port s) a h = lookup-put_other "external_port" "tag" _ form refl
enter-named form (tls_toggle b) a h = lookup-put_other "tls" "tag" _ form refl
enter-named form (alpn_list s) a h = lookup-put_other "tls" "tag" _ form refl
enter-named form (reality_toggle b) a h = lookup-put_other "tls" "tag" _ form refl
enter-named form (server s) a h = lookup-put_other "tls" "tag" _ form refl
enter-named form (server_port s) a h = lookup-put_other "tls" "tag" _ form refl
enter-named form (private_key s) a h = lookup-put_other "tls" "tag" _ form refl
enter-named form (short_id s) a h = lookup-put_other "tls" "tag" _ form refl
enter-named form (certificate_path s) a h = lookup-put_other "tls" "tag" _ form refl
enter-named form (key_path s) a h = lookup-put_other "tls" "tag" _ form refl
enter-named form (transport_toggle b) a h = lookup-put_other "transport" "tag" _ form refl
enter-named form (transport_type s) a h = lookup-put_other "transport" "tag" _ form refl
enter-named form (path s) a h = lookup-put_other "transport" "tag" _ form refl
enter-named form (service_name s) a h = lookup-put_other "transport" "tag" _ form refl

Reached-named :
    (initial form : Members)
    → is_set (lookup "tag" initial) ≡ true
    → Reached (some initial) form
    → lookup "tag" form ≡ lookup "tag" initial
unfolding receive_cert
Reached-named initial _ h opened = open_form-named initial
Reached-named initial _ h (entered form i a r) =
    let kept = Reached-named initial form h r in enter-named form i a (ap is_set kept ∙ h) ∙ kept
Reached-named initial _ h (certified form res r) =
    lookup-put_other "tls" "tag" _ form refl ∙ Reached-named initial form h r

-- Let an inbound with a tag be opened for editing. Whatever the user enters, and whatever
-- certificates the server answers with, an inbound that the dialog then hands on has the same tag.
pub Reached-handle_submit :
    (initial form submission : Members)
    → is_set (lookup "tag" initial) ≡ true
    → Reached (some initial) form
    → handle_submit form ≡ saved submission
    → lookup "tag" submission ≡ lookup "tag" initial
Reached-handle_submit initial form submission named r h =
    (handle_submit-Sound form submission h).other "tag" refl refl refl refl
    ∙ Reached-named initial form named r
