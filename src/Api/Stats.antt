-- ===== src/Api/Stats.antt =====
-- frontend/src/api.ts: the calls about statistics and the state of the system.
use ogs_swg.Prelude.{
  String, [], ◌∷◌, ◌++◌, Option, none, some, Bool, ◌&&◌, concat, if◌then◌else◌, truthy,
}
use ogs_swg.Wire.{SystemStatus, get, no_body, Payload, status, pending_changes}
use ogs_swg.Runtime.{M, ◌>>=◌}
use ogs_swg.Encoding.{query}
use ogs_swg.Api.{call, parse, any_json, text_param}

abbrev pub as_status : Payload → Option SystemStatus
as_status (status s) = some s
as_status _ = none

abbrev pub as_dashboard : Payload → Option (Option Bool)
as_dashboard (pending_changes p) = some p
as_dashboard _ = none

-- The bounds go into the address only if both are given, and as they are.
abbrev pub stats_url : String → Option String → Option String → String
stats_url range (some start) (some end) =
    if truthy start && truthy end
    then concat ("/api/stats?range=" ∷ range ∷ "&start=" ∷ start ∷ "&end=" ∷ end ∷ [])
    else concat ("/api/stats?range=" ∷ range ∷ [])
stats_url range _ _ = concat ("/api/stats?range=" ∷ range ∷ [])

module _ {S : Type 0} where
  -- The default of `range` is "24h".
  unfoldable pub get_stats : String → Option String → Option String → M S Payload
  unfolding call
  get_stats range start end = do
    res ← call get (stats_url range start end) none no_body "Failed to fetch stats"
    parse (any_json res.json)

  unfoldable pub get_system_status : M S SystemStatus
  unfolding call
  get_system_status = do
    res ← call get "/api/status" none no_body "Failed to fetch system status"
    parse (as_status res.json)

  -- Of the dashboard's data the model keeps the flag of pending changes.
  unfoldable pub get_dashboard_data : String → Option String → Option String → M S (Option Bool)
  unfolding call
  get_dashboard_data range start end = do
    res ←
        call get
          (concat (
            "/api/dashboard?"
            ∷ query (("range", range) ∷ text_param "start" start ++ text_param "end" end)
            ∷ []))
          none no_body "Failed to fetch dashboard data"
    parse (as_dashboard res.json)
