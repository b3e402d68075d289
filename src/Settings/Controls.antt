-- ===== src/Settings/Controls.antt =====
-- frontend/src/components/Settings.tsx: saving of the settings, and the control of the sampler and
-- of the services.
use ogs_swg.Prelude.{
  String, Bool, true, false, Option, none, some, [], ◌∷◌, not, trim, concat, if◌then◌else◌,
}
use ogs_swg.Runtime.{M, ◌>>=◌, ◌>>◌, skip, update, notify, success, try_catch, show_exception}
use ogs_swg.Encoding.Decimal.{decimal}
use ogs_swg.Json.{Json, null, boolean, number, string}
use ogs_swg.Json.Access.{field}
use ogs_swg.Api.Decoded.{answered_object}
use ogs_swg.Api.Services.{
  update_features, update_public_ip, run_sampler, pause_sampler, resume_sampler, prune_now,
  restart_service, start_service, stop_service,
}
use ogs_swg.Settings.{Page, holds, load_db_stats, load_sampler_history}
use ogs_swg.Settings.Account.{toast}

-- `handleSaveFeatures`
unfoldable pub handle_save_features : Page → M Page (Unit {0})
unfolding update_features
handle_save_features s =
    try_catch (update_features s.features >> notify (success "Feature toggles saved successfully"))
      (λ err. toast (concat ("Failed to save feature toggles: " ∷ show_exception err ∷ [])))

-- `handleSavePublicIP`
unfoldable pub handle_save_public_ip : Page → M Page (Unit {0})
unfolding update_public_ip
handle_save_public_ip s =
    try_catch (update_public_ip (trim s.public_ip) >> notify (success "Public IP saved"))
      (λ err. toast (concat ("Failed to save public IP: " ∷ show_exception err ∷ [])))

-- `handleRunSampler`
unfoldable pub handle_run_sampler : Page → M Page (Unit {0})
unfolding run_sampler load_db_stats load_sampler_history
handle_run_sampler s = do
  try_catch
      (do
        update (λ p. record p { sampler_running = true })
        run_sampler
        load_db_stats
        load_sampler_history s.history_limit
        notify (success "Sampler run triggered successfully"))
      (λ err. toast (concat ("Failed to run sampler: " ∷ show_exception err ∷ [])))
  update (λ p. record p { sampler_running = false })

abbrev pub set_paused : Bool → Page → Page
set_paused b p = record p { features = record p.features { sampler_paused = some b } }

-- `handleTogglePause`
unfoldable pub handle_toggle_pause : Page → M Page (Unit {0})
unfolding resume_sampler pause_sampler
handle_toggle_pause s =
    try_catch
      (if holds s.features.sampler_paused
        then resume_sampler >> (update (set_paused false) >> notify (success "Sampler resumed"))
        else pause_sampler >> (update (set_paused true) >> notify (success "Sampler paused")))
      (λ err. toast (concat ("Failed to toggle sampler: " ∷ show_exception err ∷ [])))

-- A value in a template literal; an array does not stand there.
abbrev pub template_text : Option Json → String
template_text none = "undefined"
template_text (some null) = "null"
template_text (some (boolean true)) = "true"
template_text (some (boolean false)) = "false"
template_text (some (number n)) = decimal n
template_text (some (string s)) = s
template_text (some _) = "[object Object]"

-- `handlePruneNow`, with the answer to its question.
unfoldable pub handle_prune_now : Bool → Page → M Page (Unit {0})
unfolding prune_now load_db_stats
handle_prune_now confirmed s =
    if not (holds s.features.retention_enabled)
    then toast "Retention is disabled"
    else if not confirmed
    then skip
    else try_catch
        (do
          answer ← prune_now
          res ← answered_object answer
          notify
              (success (concat ("Pruned " ∷ template_text (field "deleted" res) ∷ " samples" ∷ [])))
          load_db_stats)
        (λ err. toast (concat ("Prune failed: " ∷ show_exception err ∷ [])))

pub data Action : Type 0 where
  restart stop start : Action

abbrev pub action_name : Action → String
action_name restart = "restart"
action_name stop = "stop"
action_name start = "start"

abbrev pub service_call : Action → String → M Page (Unit {0})
service_call restart service = restart_service service
service_call start service = start_service service
service_call stop service = stop_service service

-- `handleServiceAction`, with the answer to its question.
unfoldable pub handle_service_action : Bool → String → Action → M Page (Unit {0})
unfolding restart_service start_service stop_service load_db_stats
handle_service_action confirmed service action =
    if not confirmed
    then skip
    else try_catch
        (do
          service_call action service
          load_db_stats
          notify (success (concat (service ∷ " " ∷ action_name action ∷ "ed successfully" ∷ []))))
        (λ err. toast (
          concat
            ("Failed to " ∷ action_name action ∷ " " ∷ service ∷ ": " ∷ show_exception err ∷ [])))
