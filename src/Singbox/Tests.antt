-- ===== src/Singbox/Tests.antt =====
-- Examples for frontend/src/components/SingboxConfigEditor.tsx.
use ogs_swg.Prelude.{trim, String, [], ◌∷◌, ◌≡◌, refl, none, some, false, map, length, arith, ◌⊎◌}
use ogs_swg.Wire.{other_json}
use ogs_swg.Runtime.{World, ok, alert}
use ogs_swg.Json.{Json, object, member, no_members, array, element, no_elements, string}
use ogs_swg.Json.Parser.{parse}
use ogs_swg.Api.Fixtures.{world, signed_in}
use ogs_swg.Singbox.{Page, start, save_rules, load_config, handle_save, has_changes}
use ogs_swg.Singbox.Rules.{Rule, preserved_rules, has_invalid}
use ogs_swg.Singbox.Store.{config_read, config_write, stored, storing, storing-Stores}
use ogs_swg.Singbox.Rules.Laws.{tidy, HasOutbound, IsConfig, Saved}
use ogs_swg.Singbox.Laws.{
  save_rules-Saved, load_config-parse, handle_save-sent, save_rules-unreadable,
}

-- {"route": {"rules": [{"action": "sniff"}]}}
abbrev sniff : Json
sniff = object (member "action" (string "sniff") no_members)

abbrev route : Json
route = object (member "rules" (array (element sniff no_elements)) no_members)

abbrev config : Json
config = object (member "route" route no_members)

abbrev config_text : String
config_text = "{\"route\": {\"rules\": [{\"action\": \"sniff\"}]}}"

config_parses : parse config_text ≡ some config
unfolding parse
config_parses = refl

abbrev rule : Rule
rule = record { inbound = "in"; outbound = " direct"; ip_version = "6" }

abbrev rules_world : World Page
rules_world = world (record start { rules = rule ∷ [] })

valid : has_invalid (rule ∷ []) ≡ false
unfolding has_invalid
valid = refl

config-IsConfig : IsConfig config
config-IsConfig = (
  member "route" route no_members,
  member "rules" (array (element sniff no_elements)) no_members,
  refl,
  refl,
)

rule-HasOutbound : HasOutbound rule
unfolding trim
rule-HasOutbound = refl

save_rules-Saved_example :
    let r = save_rules rules_world.ui (storing config_text) rules_world in
    (saved : Json) × Saved (rule ∷ []) config saved
    × (parse (stored config_text r.1.sent) ≡ some saved)
    × (r.0 ≡ ok tt)
    × (r.1.ui.rules ≡ map tidy (rule ∷ []))
    × (r.1.ui.preserved_rules_count ≡ length (preserved_rules config))
    × (r.1.notices ≡ alert "Rules saved" ∷ [])
    × (r.1.ui.rules_saving ≡ false)
    × (r.1.ui.rules_loading ≡ false)
save_rules-Saved_example =
    save_rules-Saved config_text (storing config_text) (storing-Stores config_text) rules_world
      config config_parses config-IsConfig (rule-HasOutbound, tt) valid

load_config-parse_example :
    let r = load_config (storing config_text) rules_world in
    (r.0 ≡ ok tt)
    × (parse r.1.ui.config ≡ parse config_text)
    × (has_changes r.1.ui ≡ false)
    × (r.1.ui.loading ≡ false)
load_config-parse_example =
    load_config-parse config_text (storing config_text) (storing-Stores config_text) rules_world

abbrev edited : World Page
edited = world (record start { config = "{}"; original_config = "[]" })

handle_save-sent_example :
    let r = handle_save edited.ui (storing "[]") edited in
    (r.0 ≡ ok tt)
    × (r.1.ui.saving ≡ false)
    × (r.1.ui.config ≡ "{}")
    × (((parse "{}" ≡ none)
          × (r.1.sent ≡ [])
          × (r.1.notices ≡ alert "Invalid JSON: Unexpected token" ∷ [])
          × (r.1.ui.original_config ≡ "[]"))
        ⊎ ((v : Json) × (parse "{}" ≡ some v)
            × (r.1.sent ≡ config_write signed_in "{}" ∷ [])
            × (((r.1.ui.original_config ≡ "{}")
                  × (r.1.notices ≡ alert "Configuration saved and service restarted!" ∷ []))
                ⊎ (r.1.ui.original_config ≡ "[]"))))
handle_save-sent_example = handle_save-sent (storing "[]") edited

no_json : parse "oops" ≡ none
unfolding parse
no_json = refl

save_rules-unreadable_example :
    let r = save_rules rules_world.ui (storing "oops") rules_world in
    (r.0 ≡ ok tt)
    × (r.1.sent ≡ config_read signed_in ∷ [])
    × (r.1.ui.rules ≡ rule ∷ [])
    × (r.1.ui.rules_saving ≡ false)
    × (r.1.notices ≡ alert "Failed to save rules" ∷ [])
save_rules-unreadable_example =
    save_rules-unreadable (storing "oops") rules_world
      (record { status = 200; text = "oops"; json = other_json "{}" }) refl (omega arith)
      (omega arith) no_json valid
