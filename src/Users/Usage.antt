-- ===== src/Users/Usage.antt =====
-- frontend/src/components/UserManagement.tsx, `fetchUsage`: the report of the users' usage, and the
-- check for changes that are not applied yet.
-- The report has its own part of the page's state. The bytes that the text of its limit stands for
-- are an argument, and so is `new Date(text).getTime() / 1000`, rounded down, where a text that is no
-- date gives none.
pub mod Laws
use ogs_swg.Prelude.{
  ℕ, String, List, [], ◌∷◌, Option, none, some, Bool, true, false, ltb, truthy, concat,
  if◌then◌else◌, ◌≡◌, refl, ◌⊎◌, inl, inr,
}
use ogs_swg.Wire.{Method, get, no_body, Request}
use ogs_swg.Runtime.{
  M, ◌>>=◌, ◌>>◌, skip, update, notify, error, Notice, Exception, show_exception, try_catch, Server,
  World, ok, Outcome,
}
use ogs_swg.Encoding.Decimal.{decimal}
use ogs_swg.Json.{Json, array}
use ogs_swg.Json.Access.{items}
use ogs_swg.Api.Decoded.{answered_json}
use ogs_swg.Api.Logs.{get_report_summary}
use ogs_swg.Api.Stats.{get_dashboard_data}
use ogs_swg.Users.{Page}

pub record Report : Type 0 where
  pub usage_start : String
  pub usage_end : String
  pub usage_limit_gb : String
  pub usage_data : List Json
  pub loading_usage : Bool

abbrev pub start_report : Report
start_report = record {
  usage_start = "";
  usage_end = "";
  usage_limit_gb = "0";
  usage_data = [];
  loading_usage = false;
}

abbrev pub enter_start : String → Report → Report
enter_start s r = record r { usage_start = s }

abbrev pub enter_end : String → Report → Report
enter_end s r = record r { usage_end = s }

abbrev pub enter_limit : String → Report → Report
enter_limit s r = record r { usage_limit_gb = s }

abbrev pub seconds_text : Option ℕ → String
seconds_text none = "NaN"
seconds_text (some n) = decimal n

abbrev pub bound_text : (String → Option ℕ) → String → String
bound_text seconds t = if truthy t then seconds_text (seconds t) else ""

abbrev pub limit_param : ℕ → Option ℕ
limit_param bytes = if ltb 0 bytes then some bytes else none

abbrev pub rows_of : Json → List Json
rows_of (array vs) = items vs
rows_of _ = []

-- `fetchUsage`
unfoldable pub fetch_usage : (String → Option ℕ) → ℕ → Report → M Report (Unit {0})
unfolding get_report_summary
fetch_usage seconds limit_bytes s =
    update (λ r. record r { loading_usage = true })
    >> try_catch
        (do
          answer ←
              get_report_summary (some (bound_text seconds s.usage_start))
                (some (bound_text seconds s.usage_end)) (limit_param limit_bytes)
          found ← answered_json answer
          update (λ r. record r { usage_data = rows_of found }))
        (λ err. notify (error (concat ("Failed to fetch usage: " ∷ show_exception err ∷ []))))
    >> update (λ r. record r { loading_usage = false })

-- The check of the first effect, and of its timer; a failure is not shown.
abbrev pub or_false : Option Bool → Bool
or_false none = false
or_false (some b) = b

unfoldable pub check_pending : M Page (Unit {0})
unfolding get_dashboard_data
check_pending =
    try_catch
      (do
        pending ← get_dashboard_data "24h" none none
        update (λ p. record p { singbox_pending_changes = or_false pending }))
      (λ err. skip)
