-- ===== src/Api/Services.antt =====
-- frontend/src/api.ts: the calls that control the services, the sampler and the settings.
use ogs_swg.Prelude.{
  ℕ, String, [], ◌∷◌, Option, none, some, concat, if◌then◌else◌, or_default, ◌==◌,
}
use ogs_swg.Wire.{
  FeatureFlags, get, post, put, no_body, fields, features, Payload, flags, public_ip,
}
use ogs_swg.Runtime.{M, ◌>>=◌, ◌>>◌, skip, return}
use ogs_swg.Encoding.Decimal.{decimal}
use ogs_swg.Api.{call, parse, any_json, json_type}

abbrev pub as_flags : Payload → Option FeatureFlags
as_flags (flags f) = some f
as_flags _ = none

abbrev pub as_public_ip : Payload → Option (Option String)
as_public_ip (public_ip p) = some p
as_public_ip _ = none

-- `limit ? … : …`
abbrev pub history_url : Option ℕ → String
history_url none = "/api/sampler/history"
history_url (some n) =
    if n == 0
    then "/api/sampler/history"
    else concat ("/api/sampler/history?limit=" ∷ decimal n ∷ [])

module _ {S : Type 0} where
  unfoldable pub pause_sampler : M S (Unit {0})
  unfolding call
  pause_sampler = call post "/api/sampler/pause" none no_body "Failed to pause sampler" >> skip

  unfoldable pub resume_sampler : M S (Unit {0})
  unfolding call
  resume_sampler = call post "/api/sampler/resume" none no_body "Failed to resume sampler" >> skip

  unfoldable pub restart_service : String → M S (Unit {0})
  unfolding call
  restart_service service =
      call post "/api/service/restart" json_type (fields (("service", some service) ∷ []))
        "Failed to restart service"
      >> skip

  unfoldable pub start_service : String → M S (Unit {0})
  unfolding call
  start_service service =
      call post "/api/service/start" json_type (fields (("service", some service) ∷ []))
        "Failed to start service"
      >> skip

  unfoldable pub stop_service : String → M S (Unit {0})
  unfolding call
  stop_service service =
      call post "/api/service/stop" json_type (fields (("service", some service) ∷ []))
        "Failed to stop service"
      >> skip

  unfoldable pub get_features : M S FeatureFlags
  unfolding call
  get_features = do
    res ← call get "/api/settings/features" none no_body "Failed to fetch features"
    parse (as_flags res.json)

  unfoldable pub update_features : FeatureFlags → M S (Unit {0})
  unfolding call
  update_features f =
      call put "/api/settings/features" json_type (features f) "Failed to update features" >> skip

  unfoldable pub get_public_ip : M S String
  unfolding call
  get_public_ip = do
    res ← call get "/api/settings/public-ip" none no_body "Failed to fetch public IP"
    ip ← parse (as_public_ip res.json)
    return (or_default ip "")

  unfoldable pub update_public_ip : String → M S (Unit {0})
  unfolding call
  update_public_ip ip =
      call put "/api/settings/public-ip" json_type (fields (("public_ip", some ip) ∷ []))
        "Failed to update public IP"
      >> skip

  unfoldable pub run_sampler : M S (Unit {0})
  unfolding call
  run_sampler = call post "/api/sampler/run" none no_body "Failed to run sampler" >> skip

  unfoldable pub get_sampler_history : Option ℕ → M S Payload
  unfolding call
  get_sampler_history limit = do
    res ← call get (history_url limit) none no_body "Failed to fetch sampler history"
    parse (any_json res.json)

  unfoldable pub prune_now : M S Payload
  unfolding call
  prune_now = do
    res ← call post "/api/retention/prune" none no_body "Failed to prune"
    parse (any_json res.json)
