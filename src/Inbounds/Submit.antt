-- ===== src/Inbounds/Submit.antt =====
-- frontend/src/components/singbox/InboundModal.tsx: the checks of a submitted form and the inbound
-- that is handed on, and the certificate that the server generates.
use ogs_swg.Prelude.{
  String, Bool, true, false, Option, none, some, not, ◌&&◌, ◌||◌, ◌==◌, trim, truthy, or_text,
  if◌then◌else◌,
}
use ogs_swg.Runtime.{M, ◌>>=◌, ◌>>◌, update, try_catch}
use ogs_swg.Json.{Json, Members, number, string, array, object, element, no_members, member}
use ogs_swg.Json.Access.{lookup, put, remove, field, field_of, is_set}
use ogs_swg.Api.Decoded.{answered_object}
use ogs_swg.Api.Singbox.{generate_self_signed_cert}
use ogs_swg.Inbounds.{text, is_text, on_tls, port_text, parse_int, number_or_nan, value_or_null}

-- `value?.[0]` of an array or of a text.
abbrev pub first_of : Option Json → Option Json
first_of (some (array (element v vs))) = some v
first_of (some (string (String.◌∷◌ c s))) = some (string (String.◌∷◌ c ""))
first_of _ = none

-- What the form says, by the names of the source.
abbrev pub tls : Members → Option Json
tls form = lookup "tls" form

abbrev pub reality : Members → Option Json
reality form = field_of "reality" (tls form)

abbrev pub is_vless : Members → Bool
is_vless form = is_text "vless" (lookup "type" form)

abbrev pub tls_enabled : Members → Bool
tls_enabled form = is_set (field_of "enabled" (tls form))

abbrev pub reality_enabled : Members → Bool
reality_enabled form = is_set (field_of "enabled" (reality form))

abbrev pub has_cert : Members → Bool
has_cert form =
    is_set (field_of "certificate_path" (tls form)) && is_set (field_of "key_path" (tls form))

abbrev pub lacks_cert : Members → Bool
lacks_cert form =
    tls_enabled form && not (is_vless form && reality_enabled form) && not (has_cert form)

abbrev pub has_reality_fields : Members → Bool
has_reality_fields form =
    is_set (field_of "server" (field_of "handshake" (reality form)))
    && is_set (field_of "private_key" (reality form))
    && is_set (first_of (field_of "short_id" (reality form)))

abbrev pub lacks_reality : Members → Bool
lacks_reality form = is_vless form && reality_enabled form && not (has_reality_fields form)

-- The transport that is handed on.
abbrev pub copy_field : String → Option Json → Members
copy_field key transport =
    if is_set (field_of key transport)
    then member key (value_or_null (field_of key transport)) no_members
    else no_members

abbrev pub transport_type : Option Json → Json
transport_type transport =
    if is_set (field_of "type" transport)
    then value_or_null (field_of "type" transport)
    else text "http"

unfoldable pub cleaned_transport : Option Json → Json
cleaned_transport transport =
    let type = transport_type transport in
    object (
      member "type" type (
        if is_text "http" (some type)
          || is_text "ws" (some type)
          || is_text "httpupgrade" (some type)
        then copy_field "path" transport
        else if is_text "grpc" (some type)
        then copy_field "service_name" transport
        else no_members))

abbrev pub with_transport : Members → Members → Members
with_transport form submission =
    if is_set (field_of "enabled" (lookup "transport" form))
    then put "transport" (cleaned_transport (lookup "transport" form)) submission
    else remove "transport" submission

-- Reality stays for VLESS only.
unfoldable pub drop_reality : Members → Members
drop_reality form =
    if not (is_vless form) && is_set (tls form) && is_set (reality form)
    then on_tls (remove "reality") form
    else form

-- How a submission ends: with a message in the dialog, with an alert, or handed on to `onSave`.
pub data Submission : Type 0 where
  invalid : String → Submission
  alerted : String → Submission
  saved : Members → Submission

-- The external port of the submission; `none` where it is refused.
unfoldable pub with_external_port : Members → Members → Option Members
with_external_port form submission =
    let raw = trim (port_text (lookup "external_port" form)) in
    if truthy raw
    then elim (parse_int raw) [
      | none ↦ none
      | some port ↦ if port == 0 then none else some (put "external_port" (number port) submission)
    ]
    else some (remove "external_port" submission)

abbrev pub finish : Members → Option Members → Submission
finish form none = alerted "External Port must be a valid number"
finish form (some s) = saved (drop_reality (with_transport form s))

-- `handleSubmit`. The submission shares `tls` with the form, so that the form loses its Reality
-- with it.
unfoldable pub handle_submit : Members → Submission
unfolding with_external_port cleaned_transport drop_reality
handle_submit form =
    if lacks_cert form
    then invalid "TLS is enabled but certificate/key paths are missing."
    else if lacks_reality form
    then invalid "Reality is enabled but server, private key, or short ID is missing."
    else if not (is_set (lookup "tag" form)) || not (is_set (lookup "listen_port" form))
    then alerted "Tag and Port are required"
    else finish form (
        with_external_port form (
          put "listen_port" (number_or_nan (parse_int (port_text (lookup "listen_port" form))))
            form))

-- The state of the dialog but for the check of the form.
pub record Dialog : Type 0 where
  pub form_data : Members
  pub validation_error : String
  pub cert_loading : Bool
  pub cert_error : String

-- A change of the form clears the messages, and so does opening the dialog.
unfoldable pub form_changed : Members → Dialog → Dialog
form_changed form d = record d { form_data = form; validation_error = ""; cert_error = "" }

-- The messages of a submission; `handleSubmit` clears an older one first.
unfoldable pub submit_messages : Submission → Dialog → Dialog
submit_messages (invalid m) d = record d { validation_error = m }
submit_messages _ d = record d { validation_error = "" }

abbrev text_of : Option Json → String
text_of (some (string s)) = s
text_of _ = ""

-- The members of `tls` with the paths of the certificate; `{ ...(prev.tls || {}), … }`.
abbrev tls_members : Option Json → Members
tls_members (some (object ms)) = ms
tls_members _ = no_members

abbrev put_path : String → Option Json → Members → Members
put_path key none ms = remove key ms
put_path key (some v) ms = put key v ms

unfoldable pub receive_cert : Json → Members → Members
receive_cert res form =
    put "tls"
      (object (
        put_path "key_path" (field "key_path" res)
          (put_path "certificate_path" (field "cert_path" res) (tls_members (tls form)))))
      form

-- `handleGenerateCert`
unfoldable pub handle_generate_cert : Dialog → M Dialog (Unit {0})
unfolding generate_self_signed_cert receive_cert
handle_generate_cert s =
    let form = s.form_data in
    let common_name =
      trim (or_text (text_of (field_of "server_name" (tls form))) (text_of (lookup "tag" form))) in
    update (λ d. record d { cert_loading = true; cert_error = "" })
    >> try_catch
        (do
          answer ←
              generate_self_signed_cert (some (text_of (lookup "tag" form)))
                (some (or_text common_name "localhost"))
          res ← answered_object answer
          update (λ d. record d { form_data = receive_cert res d.form_data }))
        (λ err.
          update
            (λ d. record d { cert_error = or_text err.message "Failed to generate certificate" }))
    >> update (λ d. record d { cert_loading = false })
