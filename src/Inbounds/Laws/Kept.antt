-- ===== src/Inbounds/Laws/Kept.antt =====
-- frontend/src/components/singbox/InboundModal.tsx: which members of the form the steps of a
-- submission leave as they are.
use ogs_swg.Prelude.{
  ℕ, ◌<◌, String, Bool, true, false, Option, none, some, ◌≡◌, refl, ap, ◌∙◌, ◌⊎◌, inl, inr, not,
  ◌&&◌, ◌==◌, arith, str_eq, truthy, trim, Bool-cases, Option-cases,
}
use ogs_swg.Json.{Json, Members, number, object}
use ogs_swg.Json.Access.{
  lookup, put, remove, field_of, is_set, lookup-put, lookup-put_other, lookup-remove,
  lookup-remove_other,
}
use ogs_swg.Inbounds.{parse_int, port_text, in_object, put_some}
use ogs_swg.Inbounds.Submit.{
  tls, reality, is_vless, with_transport, cleaned_transport, drop_reality, with_external_port,
}

pub external_port-cases :
    (form n ported : Members)
    → with_external_port form n ≡ some ported
    → (ported ≡ remove "external_port" n)
      ⊎ ((p : ℕ) × (0 < p) × (ported ≡ put "external_port" (number p) n))
unfolding with_external_port
external_port-cases form n ported h =
    elim (Bool-cases (truthy (trim (port_text (lookup "external_port" form))))) [
      | inr empty ↦ inl (cc (rw empty at h))
      | inl filled ↦
          elim (Option-cases (parse_int (trim (port_text (lookup "external_port" form))))) [
            | inl bad ↦ cc (rw (filled, bad) at h)
            | inr (p, good) ↦ elim (Bool-cases (p == 0)) [
              | inl zero_port ↦ cc (rw (filled, good, zero_port) at h)
              | inr positive ↦ inr (p, ground arith, cc (rw (filled, good, positive) at h))
            ]
          ]
    ]

pub ported-other :
    (form n ported : Members) (key : String)
    → with_external_port form n ≡ some ported
    → str_eq key "external_port" ≡ false
    → lookup key ported ≡ lookup key n
ported-other form n ported key h other = elim (external_port-cases form n ported h) [
  | inl e ↦ ap (lookup key) e ∙ lookup-remove_other "external_port" key n other
  | inr (p, _, e) ↦ ap (lookup key) e ∙ lookup-put_other "external_port" key (number p) n other
]

pub with_transport-other :
    (form s : Members) (key : String)
    → str_eq key "transport" ≡ false
    → lookup key (with_transport form s) ≡ lookup key s
with_transport-other form s key other =
    elim (Bool-cases (is_set (field_of "enabled" (lookup "transport" form)))) [
      | inl on ↦
          rw on
            (lookup-put_other "transport" key (cleaned_transport (lookup "transport" form)) s other)
      | inr off ↦ rw off (lookup-remove_other "transport" key s other)
    ]

-- Taking Reality out changes no member but `tls`, and of that no member but Reality.
pub drop_reality-other :
    (b : Members) (key : String)
    → str_eq key "tls" ≡ false
    → lookup key (drop_reality b) ≡ lookup key b
unfolding drop_reality
drop_reality-other b key other =
    elim (Bool-cases (not (is_vless b) && is_set (tls b) && is_set (reality b))) [
      | inr kept ↦ rw kept refl
      | inl dropped ↦ rw dropped (put_some-other (in_object (remove "reality") (tls b)))
    ]
  where
    put_some-other : (o : Option Json) → lookup key (put_some "tls" o b) ≡ lookup key b
    put_some-other none = refl
    put_some-other (some v) = lookup-put_other "tls" key v b other

in_object-fields :
    (t : Option Json) (key : String)
    → str_eq key "reality" ≡ false
    → field_of key (in_object (remove "reality") t) ≡ field_of key t
in_object-fields (some (object ms)) key other = lookup-remove_other "reality" key ms other
in_object-fields t key other = refl

in_object-reality : (t : Option Json) → field_of "reality" (in_object (remove "reality") t) ≡ none
in_object-reality (some (object ms)) = lookup-remove "reality" ms
in_object-reality none = refl
in_object-reality (some v) = refl

lookup-put_some :
    (b : Members) (o : Option Json)
    → is_set o ≡ true
    → lookup "tls" (put_some "tls" (in_object (remove "reality") o) b)
      ≡ in_object (remove "reality") o
lookup-put_some b (some (object ms)) h = lookup-put "tls" (object (remove "reality" ms)) b
lookup-put_some b (some v) h = lookup-put "tls" v b
lookup-put_some b none h = cc h

abbrev dropped : Members → Bool
dropped b = not (is_vless b) && is_set (tls b) && is_set (reality b)

pub drop_reality-fields :
    (b : Members) (key : String)
    → str_eq key "reality" ≡ false
    → field_of key (tls (drop_reality b)) ≡ field_of key (tls b)
unfolding drop_reality
drop_reality-fields b key other = elim (Bool-cases (dropped b)) [
  | inr stays ↦ rw stays refl
  | inl goes ↦ rw goes (
      ap (field_of key) (lookup-put_some b (tls b) (ground arith))
      ∙ in_object-fields (tls b) key other)
]

pub drop_reality-vless : (b : Members) → is_vless b ≡ true → drop_reality b ≡ b
unfolding drop_reality
drop_reality-vless b h = rw h refl

field_of-unset : (key : String) (t : Option Json) → is_set t ≡ false → field_of key t ≡ none
field_of-unset key (some (object ms)) h = cc h
field_of-unset key none h = refl
field_of-unset key (some v) h = refl

pub drop_reality-only :
    (b : Members) → is_vless b ≡ false → is_set (reality (drop_reality b)) ≡ false
unfolding drop_reality
drop_reality-only b h = elim (Bool-cases (dropped b)) [
  | inl goes ↦ rw goes (
      ap is_set (
        ap (field_of "reality") (lookup-put_some b (tls b) (ground arith))
        ∙ in_object-reality (tls b)))
  | inr stays ↦ rw stays (elim (Bool-cases (is_set (tls b))) [
    | inl present ↦ ground arith
    | inr absent ↦ ap is_set (field_of-unset "reality" (tls b) absent)
  ])
]
