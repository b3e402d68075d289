-- ===== src/Singbox/Rules.antt =====
-- frontend/src/components/SingboxConfigEditor.tsx: which rules of the route can be edited, what is
-- shown of them, and the configuration that is written back.
pub mod Laws
use ogs_swg.Prelude.{
  ℕ, String, Bool, true, false, Option, none, some, List, [], ◌∷◌, ◌++◌, map, not, ◌&&◌, ◌||◌, ◌==◌,
  any, all, filter, length, str_eq, truthy, trim, if◌then◌else◌,
}
use ogs_swg.Json.{
  Json, Elements, Members, null, boolean, number, string, array, object, no_elements, element,
  no_members, member,
}
use ogs_swg.Json.Access.{items, elements, lookup, keys, field, field_of, is_truthy, set_field}

-- A rule as the page shows it; `ip_version` is empty for any version.
pub record Rule : Type 0 where
  pub inbound : String
  pub outbound : String
  pub ip_version : String

abbrev pub is_string : Json → Bool
is_string (string s) = true
is_string _ = false

-- The three tests of the fields of a rule; `none` is `undefined`.
abbrev pub inbound_ok : Option Json → Bool
inbound_ok (some (array vs)) = all is_string (items vs)
inbound_ok (some v) = is_string v
inbound_ok none = false

abbrev pub outbound_ok : Option Json → Bool
outbound_ok (some (string s)) = not (str_eq (trim s) "")
outbound_ok _ = false

abbrev pub ip_ok : Option Json → Bool
ip_ok none = true
ip_ok (some (number n)) = n == 4 || n == 6
ip_ok (some _) = false

abbrev pub is_allowed : String → Bool
is_allowed k = str_eq k "inbound" || str_eq k "outbound" || str_eq k "ip_version"

abbrev pub is_some : Option Json → Bool
is_some none = false
is_some (some v) = true

-- `isSimpleRule`
unfoldable pub is_simple_rule : Json → Bool
is_simple_rule (object ms) =
    is_some (lookup "inbound" ms)
    && is_some (lookup "outbound" ms)
    && all is_allowed (keys ms)
    && inbound_ok (lookup "inbound" ms)
    && outbound_ok (lookup "outbound" ms)
    && ip_ok (lookup "ip_version" ms)
is_simple_rule _ = false

-- The text of a field of a simple rule; of a list of inbounds only the first one is kept.
abbrev pub shown_text : Option Json → String
shown_text (some (string s)) = s
shown_text _ = ""

abbrev pub shown_inbound : Option Json → String
shown_inbound (some (array (element v vs))) = shown_text (some v)
shown_inbound (some (array no_elements)) = ""
shown_inbound v = shown_text v

abbrev pub shown_ip : Option Json → String
shown_ip (some (number n)) = if n == 4 then "4" else if n == 6 then "6" else ""
shown_ip _ = ""

unfoldable pub shown_rule : Json → Rule
shown_rule r = record {
  inbound = shown_inbound (field "inbound" r);
  outbound = trim (shown_text (field "outbound" r));
  ip_version = shown_ip (field "ip_version" r);
}

-- `parsed?.route?.rules`, and whether it is an array.
abbrev pub array_items : Option Json → Option (List Json)
array_items (some (array vs)) = some (items vs)
array_items _ = none

abbrev pub items_or_none : Option (List Json) → List Json
items_or_none none = []
items_or_none (some vs) = vs

abbrev pub rules_in : Json → List Json
rules_in config = items_or_none (array_items (field_of "rules" (field "route" config)))

-- What `loadRules` shows of a configuration: the simple rules, and the number of the others.
unfoldable pub simple_rules : Json → List Rule
unfolding is_simple_rule shown_rule
simple_rules config = map shown_rule (filter is_simple_rule (rules_in config))

unfoldable pub preserved_rules : Json → List Json
unfolding is_simple_rule
preserved_rules config = filter (λ r. not (is_simple_rule r)) (rules_in config)

-- The tags of the inbounds or outbounds that are no empty texts.
abbrev tag_text : Json → String
tag_text v = trim (shown_text (field "tag" v))

unfoldable pub tags_in : String → Json → List String
tags_in key config = filter truthy (map tag_text (items_or_none (array_items (field key config))))

-- A rule as it is written.
abbrev pub ip_members : String → Members
ip_members ip =
    if str_eq ip "4"
    then member "ip_version" (number 4) no_members
    else if str_eq ip "6"
    then member "ip_version" (number 6) no_members
    else no_members

unfoldable pub rule_json : Rule → Json
rule_json r = object (
    member "inbound" (array (element (string r.inbound) no_elements))
      (member "outbound" (string (trim r.outbound)) (ip_members r.ip_version)))

-- `parsed.route || {}`
abbrev pub route_of : Option Json → Json
route_of none = object no_members
route_of (some v) = if is_truthy v then v else object no_members

abbrev pub set_in : String → Option Json → Json → Option Json
set_in key none v = none
set_in key (some x) v = set_field key x v

-- The configuration that `saveRules` writes; `none` where an assignment throws.
unfoldable pub with_rules : List Rule → Json → Option Json
unfolding is_simple_rule rule_json
with_rules rules config =
    let route = route_of (field "route" config) in
    let existing = items_or_none (array_items (field "rules" route)) in
    let preserved = filter (λ r. not (is_simple_rule r)) existing in
    set_in "route" (set_field "rules" (array (elements (preserved ++ map rule_json rules))) route)
      config

-- A rule lacks its inbound or its outbound.
abbrev pub is_incomplete : Rule → Bool
is_incomplete r = not (truthy r.inbound) || not (truthy r.outbound)

unfoldable pub has_invalid : List Rule → Bool
has_invalid rules = any is_incomplete rules

-- `addRule`, `updateRule` and `removeRule` of `RulesTab`
pub data Patch : Type 0 where
  set_inbound set_outbound set_ip_version : String → Patch

abbrev pub patch_rule : Patch → Rule → Rule
patch_rule (set_inbound s) r = record r { inbound = s }
patch_rule (set_outbound s) r = record r { outbound = s }
patch_rule (set_ip_version s) r = record r { ip_version = s }
