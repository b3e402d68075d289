-- ===== src/Singbox/Rules/Laws.antt =====
-- frontend/src/components/SingboxConfigEditor.tsx: what the page shows of the configuration that it
-- has written.
use ogs_swg.Prelude.{
  String, true, false, none, some, List, [], ◌∷◌, ◌++◌, map, not, ◌≡◌, refl, sym, ap, ◌∙◌, arith,
  All, filter, filter-append, filter-filter, filter-filter-not, append-nil, str_eq, truthy, trim,
  trim-trim, if◌then◌else◌,
}
use ogs_swg.Json.{Json, Members, null, boolean, number, object, array, string, no_members}
use ogs_swg.Json.Access.{
  elements, items-elements, field, field_of, is_truthy, put, lookup, lookup-put, lookup-put_other,
}
use ogs_swg.Singbox.Rules.{
  Rule, is_simple_rule, shown_rule, rule_json, simple_rules, preserved_rules, with_rules, route_of,
  items_or_none, array_items, rules_in,
}

-- A rule as it is shown after it has been saved.
abbrev pub tidy : Rule → Rule
tidy r = record r {
  outbound = trim r.outbound;
  ip_version = if str_eq r.ip_version "4" then "4" else if str_eq r.ip_version "6" then "6" else "";
}

abbrev pub HasOutbound : Rule → Type 0
HasOutbound r = truthy (trim r.outbound) ≡ true

-- The configuration is an object, and its route is one or is left out.
abbrev pub IsConfig : Json → Type 0
IsConfig config =
    (ms : Members) × (route : Members) × (config ≡ object ms)
    × (route_of (field "route" config) ≡ object route)

is_simple_rule-rule_json : (r : Rule) → HasOutbound r → is_simple_rule (rule_json r) ≡ true
unfolding is_simple_rule rule_json
is_simple_rule-rule_json r h = ground (arith, trim-trim r.outbound)

shown_rule-rule_json : (r : Rule) → shown_rule (rule_json r) ≡ tidy r
unfolding shown_rule rule_json
shown_rule-rule_json r = ground (arith, trim-trim r.outbound)

filter-rules :
    (rules : List Rule)
    → All HasOutbound rules
    → filter is_simple_rule (map rule_json rules) ≡ map rule_json rules
filter-rules [] h = refl
filter-rules (r ∷ rules) (h, hs) =
    rw (is_simple_rule-rule_json r h) (ap (λ l. rule_json r ∷ l) (filter-rules rules hs))

filter-not-rules :
    (rules : List Rule)
    → All HasOutbound rules
    → filter (λ r. not (is_simple_rule r)) (map rule_json rules) ≡ []
filter-not-rules [] h = refl
filter-not-rules (r ∷ rules) (h, hs) = rw (is_simple_rule-rule_json r h) (filter-not-rules rules hs)

map-shown_rule : (rules : List Rule) → map shown_rule (map rule_json rules) ≡ map tidy rules
map-shown_rule [] = refl
map-shown_rule (r ∷ rules) = rw (shown_rule-rule_json r, map-shown_rule rules) refl

abbrev preserved_of : List Json → List Json
preserved_of = filter (λ r. not (is_simple_rule r))

module _ (rules : List Rule) (complete : All HasOutbound rules) (existing : List Json) where
  abbrev kept : List Json
  kept = preserved_of existing

  simple-saved :
      map shown_rule (filter is_simple_rule (kept ++ map rule_json rules)) ≡ map tidy rules
  simple-saved =
      ap (map shown_rule) (
        filter-append is_simple_rule kept (map rule_json rules)
        ∙ ap (λ l. l ++ filter is_simple_rule (map rule_json rules))
            (filter-filter-not is_simple_rule existing)
        ∙ filter-rules rules complete)
      ∙ map-shown_rule rules

  preserved-saved : filter (λ r. not (is_simple_rule r)) (kept ++ map rule_json rules) ≡ kept
  preserved-saved =
      filter-append (λ r. not (is_simple_rule r)) kept (map rule_json rules)
      ∙ ap (λ l. l ++ filter (λ r. not (is_simple_rule r)) (map rule_json rules))
          (filter-filter (λ r. not (is_simple_rule r)) existing)
      ∙ ap (λ l. kept ++ l) (filter-not-rules rules complete)
      ∙ append-nil kept

falsy-rules :
    (v : Json)
    → items_or_none (array_items (field "rules" v))
      ≡ items_or_none (array_items (field "rules" (if is_truthy v then v else object no_members)))
falsy-rules null = refl
falsy-rules (boolean true) = refl
falsy-rules (boolean false) = refl
falsy-rules (number n) = ground arith
falsy-rules (string s) = ground arith
falsy-rules (array vs) = refl
falsy-rules (object ms) = refl

-- A route that is left out, or falsy, has no rules.
rules_in-route_of :
    (config : Json)
    → rules_in config
      ≡ items_or_none (array_items (field "rules" (route_of (field "route" config))))
rules_in-route_of config =
    elim (field "route" config)
      as (λ o.
        items_or_none (array_items (field_of "rules" o))
        ≡ items_or_none (array_items (field "rules" (route_of o)))) [
          | none ↦ refl
          | some v ↦ falsy-rules v
        ]

-- What is saved for complete rules.
pub record Saved (rules : List Rule) (config saved : Json) : Type 0 where
  pub shown : simple_rules saved ≡ map tidy rules
  pub preserved : preserved_rules saved ≡ preserved_rules config
  pub other : (key : String) → str_eq key "route" ≡ false → field key saved ≡ field key config

module _ (rules : List Rule) (ms route : Members) where
  abbrev existing : List Json
  existing = items_or_none (array_items (lookup "rules" route))

  abbrev written : List Json
  written = preserved_of existing ++ map rule_json rules

  abbrev saved_config : Json
  saved_config = object (put "route" (object (put "rules" (array (elements written)) route)) ms)

  rules_in-saved : rules_in saved_config ≡ written
  rules_in-saved =
      rw (lookup-put "route" (object (put "rules" (array (elements written)) route)) ms)
        (rw (lookup-put "rules" (array (elements written)) route) (items-elements written))

pub with_rules-Saved :
    (rules : List Rule) (config : Json)
    → All HasOutbound rules
    → IsConfig config
    → (saved : Json) × (with_rules rules config ≡ some saved) × Saved rules config saved
unfolding with_rules simple_rules preserved_rules
with_rules-Saved rules config complete (ms, route, is_object, is_route) =
    let before : preserved_of (rules_in config) ≡ preserved_of (existing rules ms route) =
      ap preserved_of (
        rules_in-route_of config
        ∙ ap (λ r. items_or_none (array_items (field "rules" r))) is_route) in
    (
      saved_config rules ms route,
      rw (is_route, is_object) refl,
      record {
        shown =
            ap (λ l. map shown_rule (filter is_simple_rule l)) (rules_in-saved rules ms route)
            ∙ simple-saved rules complete (existing rules ms route);
        preserved =
            ap preserved_of (rules_in-saved rules ms route)
            ∙ preserved-saved rules complete (existing rules ms route)
            ∙ sym before;
        other = λ key h.
            lookup-put_other "route" key
              (object (put "rules" (array (elements (written rules ms route))) route)) ms h
            ∙ sym (ap (field key) is_object);
      },
    )
