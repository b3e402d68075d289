-- ===== src/Api/Logs.antt =====
-- frontend/src/api.ts: the calls about reports, logs and the parsed configuration.
use ogs_swg.Prelude.{
  ℕ, String, List, [], ◌∷◌, ◌++◌, Option, none, some, concat, if◌then◌else◌, truthy, or_text,
}
use ogs_swg.Wire.{UserStatus, get, no_body, Payload, user_list, logs, not_json, Response}
use ogs_swg.Runtime.{M, ◌>>=◌, return}
use ogs_swg.Encoding.{query}
use ogs_swg.Api.{call, parse, any_json, text_param, number_param}

abbrev as_users : Payload → Option (List UserStatus)
as_users (user_list l) = some l
as_users _ = none

abbrev as_logs : Payload → Option (List String)
as_logs (logs l) = some l
as_logs _ = none

-- `/api/logs`, with a query if there is one.
abbrev pub logs_url : String → String
logs_url q = if truthy q then concat ("/api/logs?" ∷ q ∷ []) else "/api/logs"

-- What `searchLogs` makes of the text: the parsed JSON, or the text as the only line.
abbrev pub search_result : Response → Payload → Payload
search_result res not_json = logs (or_text res.text "Search returned non-JSON response" ∷ [])
search_result res p = p

module _ {S : Type 0} where
  unfoldable pub get_report : Option String → Option String → M S (List UserStatus)
  unfolding call
  get_report start end = do
    res ←
        call get
          (concat ("/api/report?" ∷ query (text_param "start" start ++ text_param "end" end) ∷ []))
          none no_body "Failed to fetch report"
    parse (as_users res.json)

  unfoldable pub get_report_summary : Option String → Option String → Option ℕ → M S Payload
  unfolding call
  get_report_summary start end limit_bytes = do
    res ←
        call get
          (concat (
            "/api/report/summary?"
            ∷ query (
                text_param "start" start
                ++ (text_param "end" end ++ number_param "limit_bytes" limit_bytes))
            ∷ []))
          none no_body "Failed to fetch report summary"
    parse (any_json res.json)

  unfoldable pub get_config : M S Payload
  unfolding call
  get_config = do
    res ← call get "/api/config" none no_body "Failed to fetch config"
    parse (any_json res.json)

  unfoldable pub get_logs : Option String → Option ℕ → M S (List String)
  unfolding call
  get_logs user limit = do
    res ←
        call get (logs_url (query (text_param "user" user ++ number_param "limit" limit))) none
          no_body "Failed to fetch logs"
    parse (as_logs res.json)

  unfoldable pub search_logs : String → Option ℕ → Option ℕ → M S Payload
  unfolding call
  search_logs q limit page = do
    res ←
        call get
          (concat (
            "/api/logs/search?"
            ∷ query (("q", q) ∷ number_param "limit" limit ++ number_param "page" page)
            ∷ []))
          none no_body "Failed to search logs"
    return (search_result res res.json)
