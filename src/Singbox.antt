-- ===== src/Singbox.antt =====
-- frontend/src/components/SingboxConfigEditor.tsx: the tabs, the text of the configuration with its
-- backups, and the rules of the route.
-- The search in the text and the lines that differ are those of Editor.antt. The time of the last
-- backup is kept as the server gives it, where the page shows it in the browser's locale.
pub mod Rules
pub mod Store
pub mod Laws
mod Tests
use ogs_swg.Prelude.{
  ℕ, String, Bool, true, false, Option, none, some, List, [], ◌∷◌, ◌++◌, map, not, concat, length,
  or_text, str_eq, if◌then◌else◌, modify_at, remove_at,
}
use ogs_swg.Runtime.{
  M, ◌>>=◌, ◌>>◌, skip, return, update, notify, alert, try_catch, Exception, show_exception,
}
use ogs_swg.Json.{Json, stringify}
use ogs_swg.Json.Parser.{parse}
use ogs_swg.Json.Access.{field, is_truthy}
use ogs_swg.Api
use ogs_swg.Api.Decoded.{parse_json, answered_json, answered_object}
use ogs_swg.Api.Singbox.{
  get_singbox_config, update_singbox_config, get_backup_meta, backup_config, restore_config,
}
use ogs_swg.Singbox.Rules.{
  Rule, Patch, patch_rule, simple_rules, preserved_rules, tags_in, with_rules, has_invalid,
}

pub data Tab : Type 0 where
  inbounds rules raw : Tab

pub record Page : Type 0 where
  pub active_tab : Tab
  pub config : String
  pub original_config : String
  pub loading : Bool
  pub saving : Bool
  pub show_diff : Bool
  pub last_backup : Option Json
  pub rules : List Rule
  pub rules_loading : Bool
  pub rules_saving : Bool
  pub available_inbounds : List String
  pub available_outbounds : List String
  pub preserved_rules_count : ℕ

abbrev pub start : Page
start = record {
  active_tab = inbounds;
  config = "";
  original_config = "";
  loading = false;
  saving = false;
  show_diff = false;
  last_backup = none;
  rules = [];
  rules_loading = false;
  rules_saving = false;
  available_inbounds = [];
  available_outbounds = [];
  preserved_rules_count = 0;
}

-- `err.message || err` in a template literal.
abbrev pub message_of : Exception → String
message_of e = or_text e.message (show_exception e)

abbrev pub show_config : String → Page → Page
show_config t p = record p { config = t; original_config = t }

abbrev pub formatted : String → Option Json → String
formatted content none = content
formatted content (some v) = stringify v

-- `loadConfig`: a text that is no JSON is shown as it is.
unfoldable pub load_config : M Page (Unit {0})
unfolding get_singbox_config
load_config = do
  update (λ p. record p { loading = true })
  try_catch
      (do content ← get_singbox_config; update (show_config (formatted content (parse content))))
      (λ err. skip)
  update (λ p. record p { loading = false })

abbrev pub backup_time : Option Json → Option Json
backup_time none = none
backup_time (some v) = if is_truthy v then some v else none

-- `loadBackupMeta`
unfoldable pub load_backup_meta : M Page (Unit {0})
unfolding get_backup_meta
load_backup_meta =
    try_catch
      (do
        answer ← get_backup_meta
        meta ← answered_object answer
        update (λ p. record p { last_backup = backup_time (field "singbox_last_backup" meta) }))
      (λ err. skip)

-- `handleBackup`, which does not wait for the last call; nothing runs behind it.
-- `'Backup failed: ' + err.message || err` is the sum, which is never empty.
unfoldable pub handle_backup : M Page (Unit {0})
unfolding backup_config load_backup_meta
handle_backup =
    try_catch (do backup_config; notify (alert "Backup created (.bak)"); load_backup_meta)
      (λ err. notify (alert (concat ("Backup failed: " ∷ err.message ∷ []))))

-- `handleRestore`, with the answer to its question.
unfoldable pub handle_restore : Bool → M Page (Unit {0})
unfolding restore_config load_backup_meta
handle_restore confirmed =
    if not confirmed
    then skip
    else try_catch
        (do
          answer ← restore_config
          cfg ← answered_json answer
          update (show_config (stringify cfg))
          notify (alert "Restored from backup")
          load_backup_meta)
        (λ err. notify (alert (concat ("Restore failed: " ∷ err.message ∷ []))))

-- The text is sent if it is JSON.
abbrev pub send_config : Page → Option Json → M Page (Unit {0})
send_config s none = notify (alert "Invalid JSON: Unexpected token")
send_config s (some v) = do
  update_singbox_config s.config
  update (λ p. record p { original_config = s.config })
  notify (alert "Configuration saved and service restarted!")

-- `handleSave`
unfoldable pub handle_save : Page → M Page (Unit {0})
unfolding update_singbox_config
handle_save s = do
  update (λ p. record p { saving = true })
  try_catch (send_config s (parse s.config))
      (λ err. notify (alert (concat ("Failed to save: " ∷ message_of err ∷ []))))
  update (λ p. record p { saving = false })

-- What `loadRules` keeps of a configuration.
unfoldable pub receive_rules : Json → Page → Page
receive_rules parsed p = record p {
  available_inbounds = tags_in "inbounds" parsed;
  available_outbounds = tags_in "outbounds" parsed;
  rules = simple_rules parsed;
  preserved_rules_count = length (preserved_rules parsed);
}

-- `loadRules`
unfoldable pub load_rules : M Page (Unit {0})
unfolding get_singbox_config receive_rules
load_rules = do
  update (λ p. record p { rules_loading = true })
  try_catch
      (do content ← get_singbox_config; parsed ← parse_json content; update (receive_rules parsed))
      (λ err. notify (alert "Failed to load rules"))
  update (λ p. record p { rules_loading = false })

-- The configuration with the rules of the page; the failed assignment of a property throws.
abbrev pub assigned : {S : Type 0} → Option Json → M S Json
assigned o = Api.parse o

-- `saveRules`
unfoldable pub save_rules : Page → M Page (Unit {0})
unfolding get_singbox_config update_singbox_config load_rules
save_rules s = if has_invalid s.rules then notify (alert "Please fix rules before saving") else do
  update (λ p. record p { rules_saving = true })
  try_catch
      (do
        content ← get_singbox_config
        parsed ← parse_json content
        next ← assigned (with_rules s.rules parsed)
        update_singbox_config (stringify next)
        notify (alert "Rules saved")
        load_rules)
      (λ err. notify (alert "Failed to save rules"))
  update (λ p. record p { rules_saving = false })

-- The effect that runs when another tab is chosen.
unfoldable pub open_tab : Tab → M Page (Unit {0})
unfolding load_config load_backup_meta load_rules
open_tab tab = do
  update (λ p. record p { active_tab = tab })
  elim tab [ inbounds ↦ skip | rules ↦ load_rules | raw ↦ (load_config >> load_backup_meta) ]

-- `hasChanges`
unfoldable pub has_changes : Page → Bool
has_changes p = not (str_eq p.config p.original_config)

-- `addRule`, `updateRule` and `removeRule` of `RulesTab`
unfoldable pub add_rule : Page → Page
add_rule p = record p {
  rules = p.rules ++ record { inbound = ""; outbound = ""; ip_version = "" } ∷ [];
}

unfoldable pub update_rule : ℕ → Patch → Page → Page
update_rule i patch p = record p { rules = modify_at i (patch_rule patch) p.rules }

unfoldable pub remove_rule : ℕ → Page → Page
remove_rule i p = record p { rules = remove_at i p.rules }
