-- ===== src/Raw.antt =====
-- frontend/src/components/RawConfig.tsx: the two raw configurations, their saving, backups and
-- restoration. The search and the lines that differ are in Editor.antt.
-- A number of the configuration that the server answers is a whole number, as in Json.antt.
pub mod Laws
mod Tests
use ogs_swg.Prelude.{
  String, Bool, true, false, Option, none, some, [], ◌∷◌, not, ◌&&◌, ◌||◌, List, concat, str_eq,
  if◌then◌else◌,
}
use ogs_swg.Wire.{Payload}
use ogs_swg.Runtime.{M, ◌>>=◌, ◌>>◌, skip, return, update, notify, alert, try_catch, show_exception}
use ogs_swg.Json.{Json, stringify}
use ogs_swg.Json.Access.{field}
use ogs_swg.Api.Logs.{get_config}
use ogs_swg.Api.Singbox.{update_config, backup_config, restore_config, get_backup_meta}
use ogs_swg.Api.Wireguard.{
  get_wireguard_config, update_wireguard_config, backup_wireguard_config, restore_wireguard_config,
}
use ogs_swg.Editor.{DiffRow, diff_lines, Direction, next, prev}
use ogs_swg.Api.Decoded.{parse_json, answered_json, answered_object}

pub data Tab : Type 0 where
  raw_singbox raw_wireguard : Tab

-- The times of the last backups are kept as the server gives them.
pub record Page : Type 0 where
  pub active_tab : Tab
  pub singbox_config : String
  pub wg_config : String
  pub original_singbox_config : String
  pub original_wg_config : String
  pub show_diff : Bool
  pub loading : Bool
  pub last_singbox : Option Json
  pub last_wireguard : Option Json

abbrev pub start : Page
start = record {
  active_tab = raw_singbox;
  singbox_config = "";
  wg_config = "";
  original_singbox_config = "";
  original_wg_config = "";
  show_diff = false;
  loading = false;
  last_singbox = none;
  last_wireguard = none;
}

-- The two setters that follow a text from the server.
abbrev pub show_singbox : String → Page → Page
show_singbox t p = record p { singbox_config = t; original_singbox_config = t }

abbrev pub show_wireguard : String → Page → Page
show_wireguard t p = record p { wg_config = t; original_wg_config = t }

-- `loadConfigs`: the parts that were read before a failure stay.
unfoldable pub load_configs : M Page (Unit {0})
unfolding get_config get_wireguard_config get_backup_meta
load_configs = do
  update (λ p. record p { loading = true })
  try_catch
      (do
        answer ← get_config
        sb ← answered_json answer
        update (show_singbox (stringify sb))
        wg ← get_wireguard_config
        update (show_wireguard wg)
        times ← get_backup_meta
        meta ← answered_object times
        update (λ p. record p {
          last_singbox = field "singbox_last_backup" meta;
          last_wireguard = field "wireguard_last_backup" meta;
        }))
      (λ err. skip)
  update (λ p. record p { loading = false })

-- `handleSave`: the branch of the tab.
unfoldable pub save_tab : Tab → Page → M Page (Unit {0})
unfolding update_config update_wireguard_config
save_tab raw_singbox s = do
  parse_json s.singbox_config
  update_config s.singbox_config
  update (λ p. record p { original_singbox_config = s.singbox_config })
save_tab raw_wireguard s = do
  update_wireguard_config s.wg_config
  update (λ p. record p { original_wg_config = s.wg_config })

unfoldable pub handle_save : Page → M Page (Unit {0})
unfolding save_tab
handle_save s =
    try_catch (save_tab s.active_tab s >> notify (alert "Config saved successfully!"))
      (λ err. notify (alert (concat ("Failed to save: " ∷ show_exception err ∷ []))))

-- `handleBackup`
abbrev pub backup_tab : Tab → M Page (Unit {0})
backup_tab raw_singbox = backup_config
backup_tab raw_wireguard = backup_wireguard_config

unfoldable pub handle_backup : Page → M Page (Unit {0})
unfolding backup_config backup_wireguard_config
handle_backup s =
    try_catch (backup_tab s.active_tab >> notify (alert "Backup created (.bak)"))
      (λ err. notify (alert (concat ("Backup failed: " ∷ show_exception err ∷ []))))

-- `handleRestore`, with the answer to its question.
unfoldable pub restore_tab : Tab → M Page (Unit {0})
unfolding restore_config restore_wireguard_config
restore_tab raw_singbox = do
  answer ← restore_config
  cfg ← answered_json answer
  update (show_singbox (stringify cfg))
restore_tab raw_wireguard = do cfg ← restore_wireguard_config; update (show_wireguard cfg)

unfoldable pub handle_restore : Bool → Page → M Page (Unit {0})
unfolding restore_tab
handle_restore confirmed s =
    if not confirmed
    then skip
    else try_catch (restore_tab s.active_tab >> notify (alert "Restored from backup"))
        (λ err. notify (alert (concat ("Restore failed: " ∷ show_exception err ∷ []))))

-- `currentValue`, the saved text of the tab, `setCurrentValue` and `currentLastBackup`
unfoldable pub current_value : Page → String
current_value p = elim p.active_tab [ raw_singbox ↦ p.singbox_config | raw_wireguard ↦ p.wg_config ]

unfoldable pub original_value : Page → String
original_value p = elim p.active_tab [
  | raw_singbox ↦ p.original_singbox_config
  | raw_wireguard ↦ p.original_wg_config
]

unfoldable pub set_current_value : String → Page → Page
set_current_value t p = elim p.active_tab [
  | raw_singbox ↦ record p { singbox_config = t }
  | raw_wireguard ↦ record p { wg_config = t }
]

unfoldable pub current_last_backup : Page → Option Json
current_last_backup p = elim p.active_tab [
  | raw_singbox ↦ p.last_singbox
  | raw_wireguard ↦ p.last_wireguard
]

-- `diffLines` of the tab
unfoldable pub tab_diff : Page → List DiffRow
unfolding diff_lines original_value current_value
tab_diff p = diff_lines (original_value p) (current_value p)

-- `handleKeyDown`: what a key does.
pub data KeyAction : Type 0 where
  nothing focus_search : KeyAction
  find : Direction → KeyAction

pub record Key : Type 0 where
  pub key : String
  pub meta : Bool
  pub ctrl : Bool
  pub shift : Bool

unfoldable pub handle_key_down : Key → KeyAction
handle_key_down k =
    if k.meta || k.ctrl
    then (if str_eq k.key "f" then focus_search else nothing)
    else if str_eq k.key "F3"
    then find (if k.shift then prev else next)
    else if str_eq k.key "/" && not k.shift
    then focus_search
    else nothing
