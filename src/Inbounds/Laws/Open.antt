-- ===== src/Inbounds/Laws/Open.antt =====
-- frontend/src/components/singbox/InboundModal.tsx: what becomes of the transport of an inbound that
-- is opened for editing.
use ogs_swg.Prelude.{
  String, true, false, Option, none, some, ◌≡◌, refl, ap, ◌∙◌, str_eq, Bool-cases, inl, inr,
}
use ogs_swg.Json.{Json, Members}
use ogs_swg.Json.Access.{lookup, field_of, is_set, lookup-put_other}
use ogs_swg.Inbounds.{
  open_form, with_default, value_or_null, on_tls, put_some, in_object, is_text, with_parts,
  with_reality, with_alpn, shown_port, fallback, default_reality,
}
use ogs_swg.Inbounds.Submit.{saved, handle_submit}
use ogs_swg.Inbounds.Laws.{handle_submit-Sound}

pub with_default-other :
    (key : String) (v : Option Json) (form : Members) (other : String)
    → str_eq other key ≡ false
    → lookup other (with_default key v form) ≡ lookup other form
with_default-other key v form other h = elim (Bool-cases (is_set (lookup key form))) [
  | inl there ↦ rw there refl
  | inr absent ↦ rw absent (lookup-put_other key other (value_or_null v) form h)
]

put_some-other :
    (key : String) (o : Option Json) (form : Members) (other : String)
    → str_eq other key ≡ false
    → lookup other (put_some key o form) ≡ lookup other form
put_some-other key none form other h = refl
put_some-other key (some v) form other h = lookup-put_other key other v form h

on_tls-other :
    (f : Members → Members) (form : Members) (other : String)
    → str_eq other "tls" ≡ false
    → lookup other (on_tls f form) ≡ lookup other form
on_tls-other f form other h = put_some-other "tls" (in_object f (lookup "tls" form)) form other h

pub with_alpn-other :
    (initial form : Members) (other : String)
    → str_eq other "tls" ≡ false
    → lookup other (with_alpn initial form) ≡ lookup other form
with_alpn-other initial form =
    on_tls-other (with_default "alpn" (field_of "alpn" (lookup "tls" (fallback initial)))) form

pub with_reality-other :
    (initial form : Members) (other : String)
    → str_eq other "tls" ≡ false
    → lookup other (with_reality initial form) ≡ lookup other form
with_reality-other initial form other h =
    elim (Bool-cases (is_text "vless" (lookup "type" initial))) [
      | inl vless ↦
          rw vless (on_tls-other (with_default "reality" (some default_reality)) form other h)
      | inr another ↦ rw another refl
    ]

with_default-set :
    (key : String) (v : Option Json) (form : Members)
    → is_set (lookup key form) ≡ true
    → with_default key v form ≡ form
with_default-set key v form h = rw h refl

-- A transport that is there is in the opened form as it is.
open_form-transport :
    (initial : Members)
    → is_set (lookup "transport" initial) ≡ true
    → lookup "transport" (open_form (some initial)) ≡ lookup "transport" initial
unfolding open_form
open_form-transport initial h =
    let parts = with_parts initial in
    lookup-put_other "external_port" "transport" (shown_port initial)
      (with_alpn initial (with_reality initial parts)) refl
    ∙ with_alpn-other initial (with_reality initial parts) "transport" refl
    ∙ with_reality-other initial parts "transport" refl
    ∙ with_default-other "tls" (lookup "tls" (fallback initial))
        (with_default "transport" (lookup "transport" (fallback initial)) initial) "transport" refl
    ∙ ap (lookup "transport")
        (with_default-set "transport" (lookup "transport" (fallback initial)) initial h)

-- Let an inbound have a transport without the member `enabled`, as sing-box writes it. If its form
-- is opened and submitted unchanged, the inbound that is handed on has no transport.
pub open_form-handle_submit :
    (initial submission : Members)
    → is_set (lookup "transport" initial) ≡ true
    → field_of "enabled" (lookup "transport" initial) ≡ none
    → handle_submit (open_form (some initial)) ≡ saved submission
    → lookup "transport" submission ≡ none
open_form-handle_submit initial submission there plain h =
    (handle_submit-Sound (open_form (some initial)) submission h).transport (
      ap (λ t. is_set (field_of "enabled" t)) (open_form-transport initial there) ∙ ap is_set plain)
