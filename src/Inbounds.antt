-- ===== src/Inbounds.antt =====
-- frontend/src/components/singbox/InboundModal.tsx: the form of an inbound, as a JSON object.
-- A port is a number or a text, and its text has no minus sign (one counts as no number). An inbound's `tls` that is
-- there is an object. `NaN` is `null`, as `JSON.stringify` writes it.
pub mod Submit
pub mod Inputs
pub mod Listing
pub mod Laws
mod Tests
use ogs_swg.Prelude.{
  ℕ, ◌+◌, ◌-◌, ◌*◌, String, code, Bool, true, false, Option, none, some, List, [], ◌∷◌, not, ◌&&◌,
  ◌||◌, ◌==◌, leb, str_eq, truthy, trim, if◌then◌else◌, ◌≡◌, refl,
}
use Prim.Native.String
use ogs_swg.Encoding.Decimal.{decimal}
use ogs_swg.Json.{
  Json, Members, null, boolean, number, string, array, object, no_elements, element, no_members,
  member,
}
use ogs_swg.Json.Access.{lookup, put, remove, field, field_of, is_truthy, is_set}

abbrev pub text : String → Json
text s = string s

abbrev alpn : Json
alpn = array (element (text "h2") (element (text "http/1.1") no_elements))

abbrev pub default_reality : Json
default_reality = object (
    member "enabled" (boolean false) (
      member "handshake"
        (object (member "server" (text "") (member "server_port" (number 443) no_members)))
        (member "private_key" (text "")
          (member "short_id" (array (element (text "") no_elements)) no_members))))

abbrev default_tls : Members → Json
default_tls rest = object (
    member "enabled" (boolean false) (
      member "server_name" (text "") (
        member "alpn" alpn
          (member "certificate_path" (text "") (member "key_path" (text "") rest)))))

abbrev default_transport : String → Json
default_transport type = object (
    member "enabled" (boolean false) (
      member "type" (text type)
        (member "path" (text "/") (member "service_name" (text "grpc-service") no_members))))

abbrev default_form : String → String → Json → Json → Members
default_form type tag tls transport = member "type" (text type) (
    member "tag" (text tag) (
      member "listen" (text "0.0.0.0") (
        member "listen_port" (number 443) (
          member "external_port" (text "")
            (member "tls" tls (member "transport" transport no_members))))))

abbrev pub default_vless : Members
default_vless =
    default_form "vless" "vless-in" (default_tls (member "reality" default_reality no_members))
      (default_transport "http")

abbrev pub default_vmess : Members
default_vmess = default_form "vmess" "vmess-in" (default_tls no_members) (default_transport "ws")

abbrev pub default_trojan : Members
default_trojan = default_form "trojan" "trojan-in" (default_tls no_members) (default_transport "ws")

-- `value === 'text'`
abbrev pub is_text : String → Option Json → Bool
is_text t (some (string s)) = str_eq s t
is_text t _ = false

-- `DEFAULT_BY_TYPE[type] || DEFAULT_VLESS`
unfoldable pub default_by_type : Option Json → Members
default_by_type type =
    if is_text "vmess" type
    then default_vmess
    else if is_text "trojan" type
    then default_trojan
    else default_vless

-- A member of the form that is left out, or falsy, is set.
abbrev pub value_or_null : Option Json → Json
value_or_null none = null
value_or_null (some v) = v

abbrev pub with_default : String → Option Json → Members → Members
with_default key v form = if is_set (lookup key form) then form else put key (value_or_null v) form

-- The members of `tls` are changed.
abbrev pub in_object : (Members → Members) → Option Json → Option Json
in_object f (some (object ms)) = some (object (f ms))
in_object f v = v

abbrev pub put_some : String → Option Json → Members → Members
put_some key none form = form
put_some key (some v) form = put key v form

abbrev pub on_tls : (Members → Members) → Members → Members
on_tls f form = put_some "tls" (in_object f (lookup "tls" form)) form

-- `String(value)` for a port that is a text or a number.
abbrev pub port_text : Option Json → String
port_text (some (string s)) = s
port_text (some (number n)) = decimal n
port_text _ = ""

-- The steps of the effect that runs when the dialog is opened.
abbrev pub fallback : Members → Members
fallback initial = default_by_type (lookup "type" initial)

abbrev pub with_parts : Members → Members
with_parts initial =
    with_default "tls" (lookup "tls" (fallback initial))
      (with_default "transport" (lookup "transport" (fallback initial)) initial)

abbrev pub with_reality : Members → Members → Members
with_reality initial form =
    if is_text "vless" (lookup "type" initial)
    then on_tls (with_default "reality" (some default_reality)) form
    else form

abbrev pub with_alpn : Members → Members → Members
with_alpn initial form =
    on_tls (with_default "alpn" (field_of "alpn" (lookup "tls" (fallback initial)))) form

abbrev pub shown_port : Members → Json
shown_port initial = text (
    if is_set (lookup "external_port" initial)
    then port_text (lookup "external_port" initial)
    else "")

unfoldable pub open_form : Option Members → Members
unfolding default_by_type
open_form none = default_vless
open_form (some initial) =
    put "external_port" (shown_port initial)
      (with_alpn initial (with_reality initial (with_parts initial)))

-- The selection of another protocol.
abbrev pub first_set : Option Json → Option Json → Json
first_set a b = if is_set a then value_or_null a else value_or_null b

unfoldable pub choose_protocol : String → Members → Members
unfolding default_by_type
choose_protocol type prev =
    let defaults = default_by_type (some (text type)) in
    put "external_port" (first_set (lookup "external_port" prev) (some (text ""))) (
      put "listen_port" (first_set (lookup "listen_port" prev) (lookup "listen_port" defaults)) (
        put "listen" (first_set (lookup "listen" prev) (lookup "listen" defaults))
          (put "tag" (first_set (lookup "tag" prev) (lookup "tag" defaults)) defaults)))

-- `parseInt(text, 10)`: the digits behind white space and a plus sign; `none` is `NaN`.
unfoldable pub int_from : Option ℕ → String → Option ℕ
int_from acc String.[] = acc
int_from acc (String.◌∷◌ c s) =
    let d = code c - 48 in
    let rest = int_from (some (elim acc [ none ↦ d | some n ↦ n * 10 + d ])) s in
    if leb 48 (code c) && leb (code c) 57 then rest else acc

abbrev pub drop_plus : String → String
drop_plus String.[] = ""
drop_plus (String.◌∷◌ c s) = if code c == 43 then s else String.◌∷◌ c s

unfoldable pub parse_int : String → Option ℕ
unfolding int_from
parse_int s = int_from none (drop_plus (trim s))

abbrev pub number_or_nan : Option ℕ → Json
number_or_nan none = null
number_or_nan (some n) = number n

parse_int_test : parse_int " +80x" ≡ some 80
unfolding parse_int trim
parse_int_test = refl
