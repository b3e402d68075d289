-- ===== src/Inbounds/Laws.antt =====
-- frontend/src/components/singbox/InboundModal.tsx: what every inbound that is handed on satisfies.
pub mod Kept
pub mod Open
pub mod Tag
use ogs_swg.Prelude.{
  ℕ, ◌<◌, String, Bool, true, false, Option, none, some, ◌≡◌, refl, sym, ap, ◌∙◌, ◌⊎◌, inl, inr,
  not, ◌&&◌, ◌||◌, ◌==◌, arith, str_eq, truthy, trim, if◌then◌else◌, Bool-cases, Option-cases,
}
use ogs_swg.Json.{Json, Members, number, object}
use ogs_swg.Json.Access.{
  lookup, put, remove, field_of, is_set, lookup-put, lookup-put_other, lookup-remove,
  lookup-remove_other,
}
use ogs_swg.Inbounds.{parse_int, number_or_nan, port_text, in_object, put_some, on_tls, is_text}
use ogs_swg.Inbounds.Submit.{
  tls, reality, is_vless, tls_enabled, reality_enabled, has_cert, lacks_cert, has_reality_fields,
  lacks_reality, with_transport, cleaned_transport, drop_reality, Submission, invalid, alerted,
  saved, with_external_port, finish, handle_submit,
}
use Kept.{
  external_port-cases, ported-other, with_transport-other, drop_reality-other, drop_reality-fields,
  drop_reality-vless, drop_reality-only,
}

-- The form with the port as a number.
abbrev numbered : Members → Members
numbered form =
    put "listen_port" (number_or_nan (parse_int (port_text (lookup "listen_port" form)))) form

-- What the checks have found of a form that was handed on.
record Checked (form submission : Members) : Type 0 where
  pub cert : lacks_cert form ≡ false
  pub fields : lacks_reality form ≡ false
  pub tag : is_set (lookup "tag" form) ≡ true
  pub ported : Members
  pub port : with_external_port form (numbered form) ≡ some ported
  pub result : submission ≡ drop_reality (with_transport form ported)

finish-saved :
    (form : Members) (o : Option Members) (submission : Members)
    → finish form o ≡ saved submission
    → (ported : Members) × (o ≡ some ported)
      × (submission ≡ drop_reality (with_transport form ported))
finish-saved form none submission h = cc h
finish-saved form (some ported) submission h = (ported, refl, cc h)

handle_submit-Checked :
    (form submission : Members) → handle_submit form ≡ saved submission → Checked form submission
unfolding handle_submit
handle_submit-Checked form submission h = elim (Bool-cases (lacks_cert form)) [
  | inl lacks ↦ cc (rw lacks at h)
  | inr cert ↦ elim (Bool-cases (lacks_reality form)) [
    | inl lacks ↦ cc (rw (cert, lacks) at h)
    | inr fields ↦
        elim (Bool-cases
          (not (is_set (lookup "tag" form)) || not (is_set (lookup "listen_port" form)))) [
            | inl lacks ↦ cc (rw (cert, fields, lacks) at h)
            | inr named ↦
                let (ported, port, result) =
                  finish-saved form (with_external_port form (numbered form)) submission
                    (rw (cert, fields, named) at h) in
                record {
                  cert = cert;
                  fields = fields;
                  tag = ground arith;
                  ported = ported;
                  port = port;
                  result = result;
                }
          ]
  ]
]

-- What an inbound that is handed on satisfies.
pub record Sound (form submission : Members) : Type 0 where
  pub cert : lacks_cert submission ≡ false
  pub fields : lacks_reality submission ≡ false
  pub only_vless : is_vless submission ≡ false → is_set (reality submission) ≡ false
  pub tag : is_set (lookup "tag" submission) ≡ true
  pub transport :
      is_set (field_of "enabled" (lookup "transport" form)) ≡ false
      → lookup "transport" submission ≡ none
  pub external :
      (lookup "external_port" submission ≡ none)
      ⊎ ((p : ℕ) × (0 < p) × (lookup "external_port" submission ≡ some (number p)))
  pub other :
      (key : String)
      → str_eq key "listen_port" ≡ false
      → str_eq key "external_port" ≡ false
      → str_eq key "transport" ≡ false
      → str_eq key "tls" ≡ false
      → lookup key submission ≡ lookup key form

module _ (form ported : Members)
    (port : with_external_port form (numbered form) ≡ some ported) where
  abbrev base : Members
  base = with_transport form ported

  base-other :
      (key : String)
      → str_eq key "listen_port" ≡ false
      → str_eq key "external_port" ≡ false
      → str_eq key "transport" ≡ false
      → lookup key base ≡ lookup key form
  base-other key listen external transport =
      with_transport-other form ported key transport
      ∙ ported-other form (numbered form) ported key port external
      ∙ lookup-put_other "listen_port" key _ form listen

  base-external :
      (lookup "external_port" base ≡ none)
      ⊎ ((p : ℕ) × (0 < p) × (lookup "external_port" base ≡ some (number p)))
  base-external = elim (external_port-cases form (numbered form) ported port) [
    | inl e ↦ inl (
        with_transport-other form ported "external_port" refl
        ∙ ap (lookup "external_port") e
        ∙ lookup-remove "external_port" (numbered form))
    | inr (p, positive, e) ↦ inr (
      p,
      positive,
      with_transport-other form ported "external_port" refl
          ∙ ap (lookup "external_port") e
          ∙ lookup-put "external_port" (number p) (numbered form),
    )
  ]

  base-transport :
      is_set (field_of "enabled" (lookup "transport" form)) ≡ false → lookup "transport" base ≡ none
  base-transport off = rw off (lookup-remove "transport" ported)

  base-type : lookup "type" base ≡ lookup "type" form
  base-type = base-other "type" refl refl refl

  base-tls : lookup "tls" base ≡ lookup "tls" form
  base-tls = base-other "tls" refl refl refl

  kept_type : lookup "type" (drop_reality base) ≡ lookup "type" form
  kept_type = drop_reality-other base "type" refl ∙ base-type

  kept_field :
      (key : String)
      → str_eq key "reality" ≡ false
      → field_of key (lookup "tls" (drop_reality base)) ≡ field_of key (lookup "tls" form)
  kept_field key other = drop_reality-fields base key other ∙ ap (field_of key) base-tls

  kept_vless : is_vless form ≡ true → lookup "tls" (drop_reality base) ≡ lookup "tls" form
  kept_vless h = ap (lookup "tls") (drop_reality-vless base (rw base-type h)) ∙ base-tls

  sound-cert : lacks_cert form ≡ false → lacks_cert (drop_reality base) ≡ false
  sound-cert h = elim (Bool-cases (is_vless form)) [
    | inl vless ↦ rw (kept_type, kept_vless vless) h
    | inr other ↦
        rw
          (
            kept_type,
            other,
            kept_field "enabled" refl,
            kept_field "certificate_path" refl,
            kept_field "key_path" refl,
          )
          (rw other at h)
  ]

  sound-fields : lacks_reality form ≡ false → lacks_reality (drop_reality base) ≡ false
  sound-fields h = elim (Bool-cases (is_vless form)) [
    | inl vless ↦ rw (kept_type, kept_vless vless) h
    | inr other ↦ rw (kept_type, other) refl
  ]

  sound :
      lacks_cert form ≡ false
      → lacks_reality form ≡ false
      → is_set (lookup "tag" form) ≡ true
      → Sound form (drop_reality base)
  sound cert fields tag = record {
    cert = sound-cert cert;
    fields = sound-fields fields;
    only_vless = λ h.
        drop_reality-only base
          (sym (ap (is_text "vless") (drop_reality-other base "type" refl)) ∙ h);
    tag = ap is_set (drop_reality-other base "tag" refl ∙ base-other "tag" refl refl refl) ∙ tag;
    transport = λ off. drop_reality-other base "transport" refl ∙ base-transport off;
    external = rw (drop_reality-other base "external_port" refl) base-external;
    other = λ key a b c d. drop_reality-other base key d ∙ base-other key a b c;
  }

-- An inbound that the dialog hands on needs no further certificate and no further field of Reality,
-- by the dialog's own checks; only one of type VLESS has Reality, it has a tag, an external port is
-- a positive number, a transport that is not enabled in the form is left out, and all members but
-- the ports, the transport and `tls` are those of the form.
pub handle_submit-Sound :
    (form submission : Members) → handle_submit form ≡ saved submission → Sound form submission
handle_submit-Sound form submission h =
    let c = handle_submit-Checked form submission h in
    rw c.result (sound form c.ported c.port c.cert c.fields c.tag)
